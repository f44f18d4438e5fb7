-- ===== src/Formatters.antt =====
-- packages/relay/src/formatters.ts: hexadecimal text, amounts, and the conversions between them.
pub mod Hex
pub mod Prefix
pub mod Int64
pub mod Amounts
pub mod TransactionId
mod Examples
