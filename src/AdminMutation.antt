-- ===== src/AdminMutation.antt =====
-- src/domain/admin_mutation.rs: changes of the tailnet through its control plane, in parts: the
-- changes, the messages about them, their life, the preflight comparison, the locks and batches.
pub mod Change
pub mod Messages
pub mod Lifecycle
pub mod Preflight
pub mod Locks
pub mod Holding
pub mod Exclusion
pub mod Deletion
pub mod Batch
