-- ===== src/Approval.antt =====
-- The approval of proposed transactions: its repository, and its two handlers.
pub mod Repository
pub mod Service
pub mod Books
pub mod Quorum
pub mod Final
