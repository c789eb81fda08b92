-- ===== src/AdminMutation/Deletion.antt =====
-- A deletion of a device against other changes of it, src/domain/admin_mutation.rs.
use tale.Prelude.{ℕ, ◌≡◌, ◌≢◌, Text, ◌⊎◌}
use tale.AdminMutation.Change.{AdminResourceKind, device, device_routes, AdminResourceLockKey}
use tale.AdminMutation.Locks.{lock_key}
use tale.AdminMutation.Exclusion.{Call, acquires, holds, releases, drops}

-- The call gives nothing of the mutation back.
abbrev pub Keeps : ℕ → Call → Type 0
Keeps id (acquires j keys) = Unit
Keeps id (holds j keys) = Unit
Keeps id (releases j) = j ≢ id
Keeps id (drops lease) = lease.mutation_id ≢ id

-- A change of a device or of its routes.
abbrev pub OfDevice : AdminResourceKind → Type 0
OfDevice kind = (kind ≡ device) ⊎ (kind ≡ device_routes)

abbrev key_of : AdminResourceKind → Text → Text → AdminResourceLockKey
key_of kind profile target_id = record { profile = profile; kind = kind; resource_id = target_id }
