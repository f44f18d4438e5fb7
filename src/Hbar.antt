-- ===== src/Hbar.antt =====
-- packages/relay/src/lib/services/hbarLimitService and the repositories under
-- packages/relay/src/lib/db: the budget of HBAR that the relay's operator and its callers may spend.
pub mod Keys
pub mod Cache
pub mod Plans
pub mod Reset
pub mod Limiter
pub mod Amounts
pub mod Spending
pub mod Decision
pub mod Renewal
pub mod MapCache
mod Examples
