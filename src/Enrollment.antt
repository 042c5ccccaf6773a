-- ===== src/Enrollment.antt =====
-- packages/enrollment: challenges, their stores, the enrollment service with its HTTP handler, and the
-- identity of a key.
pub mod Store
pub mod Payload
pub mod Service
pub mod Identity
pub mod TableService
pub mod Handler
