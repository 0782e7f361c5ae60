-- ===== src/Ledger.antt =====
-- The ledger: its repository, and the handler that records a transaction bundle.
pub mod Repository
pub mod Duplicates
pub mod Canonical
pub mod Service
pub mod Balance
pub mod Books
pub mod Atomic
pub mod Snapshots
pub mod Obligations
pub mod Statements
pub mod Fulfilled
pub mod Untouched
pub mod Inserted
pub mod Resolved
pub mod Told
pub mod Once
