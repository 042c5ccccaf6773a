-- ===== src/Sdk.antt =====
-- packages/sdk: accounts, the operations that they sign, and their enrollment.
pub mod Account
pub mod Signing
pub mod Enrollment
