-- ===== src/Bundler.antt =====
-- infra/bundler/src: admission of user operations to the private bundler, its gateway, and the
-- configuration of both.
pub mod Verdict
pub mod Admission
pub mod Policy
pub mod Gateway
pub mod Configuration
