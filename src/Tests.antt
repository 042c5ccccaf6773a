-- ===== src/Tests.antt =====
-- Runs of the models on concrete inputs, and the theorems at inputs that meet their hypotheses.
mod Samples
mod Wallet
mod Connector
mod Identity
mod Handler
mod Enrollment
mod Operation
mod Submission
mod Bundler
mod Calls
mod Policy
mod Forwarding
mod Sdk
mod Enrolling
mod Release
mod Candidate
mod Evidence
mod Live
mod Journal
