-- ===== src/Query.antt =====
-- src/capital_os/domain/query: the pages of rows that the read tools answer with.
pub mod Order
pub mod Page
pub mod Cursor
pub mod Sorted
pub mod Walk
pub mod Complete
pub mod Lists
pub mod Follow
pub mod Transactions
pub mod Obligations
