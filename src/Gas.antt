-- ===== src/Gas.antt =====
-- cic_eth/eth/gas.py: the gas that accounts need to send transactions.
pub mod Limits
pub mod Cache
pub mod Check
pub mod Refill
pub mod Resend
