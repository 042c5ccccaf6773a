-- ===== src/Protocol.antt =====
-- packages/protocol: user operations as JSON, and the calls that one of them makes.
pub mod Operation
pub mod Calls
pub mod Identity
pub mod Profiles
pub mod Payload
