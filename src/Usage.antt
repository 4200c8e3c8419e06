-- ===== src/Usage.antt =====
-- internal/usage: the ledger of tokens, its quota check, its background writer and its readers.
pub mod Tables
pub mod Lines
pub mod Stream
pub mod Counting
pub mod LongLines
pub mod Write
pub mod Audit
pub mod Ledger
pub mod Pool
pub mod Quota
pub mod Admission
pub mod Worker
pub mod Delivery
pub mod Charged
pub mod Written
pub mod Atomic
pub mod Dropped
pub mod Unique
pub mod Reported
pub mod Shutdown
pub mod Turns
pub mod Stats
pub mod Reports
