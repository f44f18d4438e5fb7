-- ===== src/Precheck.antt =====
-- packages/relay/src/lib/precheck.ts: the checks that a raw transaction passes before it is sent.
pub mod Gas
pub mod Checks
pub mod Sound
mod Examples
