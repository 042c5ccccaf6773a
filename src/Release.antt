-- ===== src/Release.antt =====
-- scripts/release: the candidates of a release and their publication.
pub mod Publish
pub mod Candidate
