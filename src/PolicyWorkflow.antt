-- ===== src/PolicyWorkflow.antt =====
-- src/domain/policy_workflow.rs: the documents and states of an access-policy edit. The hash of a
-- document, SHA-256 in hexadecimal, is a parameter of the functions that compute it.
pub mod Documents
pub mod Steps
pub mod Guard
pub mod Invariant
pub mod Applying
