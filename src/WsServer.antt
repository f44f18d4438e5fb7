-- ===== src/WsServer.antt =====
-- packages/ws-server: who may connect, who is subscribed to what, and what is polled.
pub mod Poller
pub mod Polling
pub mod Subscriptions
pub mod Subscribing
pub mod Joining
pub mod Limiter
pub mod Counting
pub mod Notifying
pub mod Totals
pub mod Handlers
mod Examples
