-- ===== src/LocalMutation/Lock.antt =====
-- `MutationLock` of src/domain/mutation.rs: one owner at a time. A lease is the number of its
-- mutation, and dropping it releases the lock as `Drop` does.
use tale.Prelude.{
  ℕ, ◌≡◌, ◌≢◌, refl, Bool, true, false, Option, none, some, List, [], ◌∷◌, arith, ◌==◌,
  if◌then◌else◌, is_some, All, ◌⊎◌, inl, inr,
}

abbrev pub MutationLock : Type 0
MutationLock = Option ℕ

-- `acquire`: the lease, if the lock was free.
unfoldable pub acquire : MutationLock → ℕ → MutationLock × Option ℕ
acquire none mutation_id = (some mutation_id, some mutation_id)
acquire (some owner) mutation_id = (some owner, none)

unfoldable pub hold : MutationLock → ℕ → MutationLock × Bool
hold none mutation_id = (some mutation_id, true)
hold (some owner) mutation_id = (some owner, false)

-- `*owner == Some(mutation_id)`
unfoldable pub release : MutationLock → ℕ → MutationLock
release none mutation_id = none
release (some owner) mutation_id = if owner == mutation_id then none else some owner

-- `Drop for MutationLease`.
unfoldable pub drop_lease : MutationLock → ℕ → MutationLock
drop_lease none mutation_id = none
drop_lease (some owner) mutation_id = if owner == mutation_id then none else some owner

unfoldable pub is_held : MutationLock → Bool
is_held lock = is_some lock

-- A call by some mutation.
pub data Call : Type 0 where
  acquires holds releases drops : ℕ → Call

-- The lock after a call, and whether the call was given the lock.
unfoldable pub step : MutationLock → Call → MutationLock × Bool
unfolding acquire hold release drop_lease
step lock (acquires id) = let (lock', lease) = acquire lock id in (lock', is_some lease)
step lock (holds id) = hold lock id
step lock (releases id) = (release lock id, false)
step lock (drops id) = (drop_lease lock id, false)

-- The lock after calls in any interleaving, with the answers.
unfoldable pub run : MutationLock → List Call → MutationLock × List Bool
run lock [] = (lock, [])
run lock (c ∷ calls) =
    let (lock', granted) = step lock c in
    let (last, answers) = run lock' calls in (last, granted ∷ answers)

-- The call does not give back what mutation `id` holds.
abbrev pub Leaves : ℕ → Call → Type 0
Leaves id (acquires j) = Unit
Leaves id (holds j) = Unit
Leaves id (releases j) = j ≢ id
Leaves id (drops j) = j ≢ id

step_excluded : (id : ℕ) (c : Call) → Leaves id c → step (some id) c ≡ (some id, false)
unfolding step
step_excluded id (acquires j) h = refl
step_excluded id (holds j) h = refl
step_excluded id (releases j) h = ground arith
step_excluded id (drops j) h = ground arith

-- While a mutation owns the lock and does not give it back, no call of any mutation, in any order, is
-- given the lock, and the owner stays.
pub run_excluded :
    (id : ℕ) (calls : List Call)
    → All (Leaves id) calls
    → ((run (some id) calls).0 ≡ some id) × All (λ granted. granted ≡ false) (run (some id) calls).1
unfolding run
run_excluded id [] h = (refl, tt)
run_excluded id (c ∷ calls) h =
    rw (step_excluded id c h.0)
      ((run_excluded id calls h.1).0, (refl, (run_excluded id calls h.1).1))

-- A call is given the lock exactly if the lock was free and it asks for it; then the caller owns it.
pub step_granted :
    (lock : MutationLock) (c : Call)
    → (step lock c).1 ≡ true
    → (lock ≡ none)
      × ((id : ℕ) × ((c ≡ acquires id) ⊎ (c ≡ holds id)) × ((step lock c).0 ≡ some id))
unfolding step
step_granted none (acquires id) h = (refl, (id, inl refl, refl))
step_granted none (holds id) h = (refl, (id, inr refl, refl))
step_granted none (releases id) h = cc
step_granted none (drops id) h = cc
step_granted (some owner) (acquires id) h = cc
step_granted (some owner) (holds id) h = cc
step_granted (some owner) (releases id) h = cc
step_granted (some owner) (drops id) h = cc
