-- ===== src/Live.antt =====
-- scripts/lib: what the commands on a live network share.
pub mod Receipt
pub mod Journal
pub mod Metadata
pub mod Request
pub mod Evidence
pub mod Artifacts
pub mod Prepared
