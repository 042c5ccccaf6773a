-- ===== src/Submission.antt =====
-- packages/submission: what a transaction receipt says of an operation, the adapters that send one, and
-- the HTTP transport below them.
pub mod Inclusion
pub mod Adapters
pub mod Http
