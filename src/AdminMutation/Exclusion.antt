-- ===== src/AdminMutation/Exclusion.antt =====
-- The locks of src/domain/admin_mutation.rs over calls of any mutations, in any order.
use tale.Prelude.{
  ℕ, ◌≡◌, ◌≢◌, refl, ap, ◌∙◌, Bool, true, false, not, Option, some, List, [], ◌∷◌, arith, ◌==◌,
  if◌then◌else◌, lookup, IsMap, filter-IsMap, is_some, is_some_and, ◌⊎◌, inl, inr, Bool-cases, All,
}
use tale.AdminMutation.Change.{AdminResourceLockKey}
use tale.AdminMutation.Locks.{
  AdminResourceLocks, AdminResourceLockLease, has_lock, key_set, blocked, put_all, acquire,
  try_hold, release, drop_lease, lock_key,
}
use tale.AdminMutation.Holding.{
  any_at, lookup-put_all, put_all-IsMap, drop_keys-IsMap, lookup-drop_keys, acquire_answer,
  lookup-release,
}

-- A call by some mutation.
pub data Call : Type 0 where
  acquires holds : ℕ → List AdminResourceLockKey → Call
  releases : ℕ → Call
  drops : AdminResourceLockLease → Call

unfoldable pub step : AdminResourceLocks → Call → AdminResourceLocks
step owners (acquires id keys) = (acquire id keys owners).0
step owners (holds id keys) = (try_hold id keys owners).0
step owners (releases id) = release id owners
step owners (drops lease) = drop_lease lease owners

-- The locks after calls in any interleaving.
unfoldable pub run : AdminResourceLocks → List Call → AdminResourceLocks
run owners [] = owners
run owners (c ∷ calls) = run (step owners c) calls

-- The call does not give back the key for the mutation.
abbrev pub Leaves : ℕ → AdminResourceLockKey → Call → Type 0
Leaves id key (acquires j keys) = Unit
Leaves id key (holds j keys) = Unit
Leaves id key (releases j) = j ≢ id
Leaves id key (drops lease) = (lease.mutation_id ≢ id) ⊎ (has_lock key lease.keys ≡ false)

pub given-IsMap :
    (id : ℕ) (keys : List AdminResourceLockKey) (owners : AdminResourceLocks)
    → IsMap owners
    → IsMap (acquire id keys owners).0 × IsMap (try_hold id keys owners).0
unfolding acquire try_hold
given-IsMap id keys owners h = elim (Bool-cases (blocked id (key_set keys) owners)) [
  | inl e ↦ rw e (h, h)
  | inr e ↦
      rw e (put_all-IsMap id (key_set keys) owners h, put_all-IsMap id (key_set keys) owners h)
]

step-IsMap : (owners : AdminResourceLocks) (c : Call) → IsMap owners → IsMap (step owners c)
unfolding step release drop_lease
step-IsMap owners (acquires id keys) h = (given-IsMap id keys owners h).0
step-IsMap owners (holds id keys) h = (given-IsMap id keys owners h).1
step-IsMap owners (releases id) h = filter-IsMap _ owners h
step-IsMap owners (drops lease) h = drop_keys-IsMap lease.mutation_id lease.keys owners h

kept_owner :
    (id j : ℕ) (b a : Bool) (o : Option ℕ)
    → o ≡ some id
    → (b ≡ true → is_some_and o (λ owner. not (owner == j)) ≡ true → a ≡ true)
    → a ≡ false
    → (if b then some j else o) ≡ some id
kept_owner id j b a o h others e = elim (Bool-cases b) [
  | inl t ↦ elim (Bool-cases (id == j)) [
    | inl same ↦ ground arith
    | inr other ↦ let blocked_too = others t (rw h (ap not other)) in ground arith
  ]
  | inr f ↦ rw f h
]

given_keeps :
    (id : ℕ) (key : AdminResourceLockKey) (j : ℕ) (keys : List AdminResourceLockKey)
    (owners : AdminResourceLocks)
    → lookup key owners ≡ some id
    → (lookup key (acquire j keys owners).0 ≡ some id)
      × (lookup key (try_hold j keys owners).0 ≡ some id)
unfolding acquire try_hold
given_keeps id key j keys owners h = elim (Bool-cases (blocked j (key_set keys) owners)) [
  | inl e ↦ rw e (h, h)
  | inr e ↦
      let kept : lookup key (put_all j (key_set keys) owners) ≡ some id =
        lookup-put_all j key (key_set keys) owners
        ∙ kept_owner id j (has_lock key (key_set keys)) (blocked j (key_set keys) owners)
            (lookup key owners) h
            (any_at (λ key. is_some_and (lookup key owners) (λ owner. not (owner == j))) key
              (key_set keys))
            e in
      rw e (kept, kept)
]

step_keeps :
    (id : ℕ) (key : AdminResourceLockKey) (owners : AdminResourceLocks) (c : Call)
    → IsMap owners
    → lookup key owners ≡ some id
    → Leaves id key c
    → lookup key (step owners c) ≡ some id
unfolding step drop_lease
step_keeps id key owners (acquires j keys) m h l = (given_keeps id key j keys owners h).0
step_keeps id key owners (holds j keys) m h l = (given_keeps id key j keys owners h).1
step_keeps id key owners (releases j) m h l = lookup-release j key owners m ∙ ground arith
step_keeps id key owners (drops lease) m h l =
    lookup-drop_keys lease.mutation_id key lease.keys owners m ∙ ground arith

run_keeps :
    (id : ℕ) (key : AdminResourceLockKey) (owners : AdminResourceLocks) (calls : List Call)
    → IsMap owners
    → lookup key owners ≡ some id
    → All (Leaves id key) calls
    → lookup key (run owners calls) ≡ some id
unfolding run
run_keeps id key owners [] m h l = h
run_keeps id key owners (c ∷ calls) m h l =
    run_keeps id key (step owners c) calls (step-IsMap owners c m)
      (step_keeps id key owners c m h l.0) l.1

-- The two ways to ask for keys, and whether they were given.
pub data Way : Type 0 where
  by_acquire by_try_hold : Way

abbrev pub ask :
    Way → ℕ → List AdminResourceLockKey → AdminResourceLocks → AdminResourceLocks × Bool
ask by_acquire id keys owners = ((acquire id keys owners).0, is_some (acquire id keys owners).1)
ask by_try_hold id keys owners = try_hold id keys owners

-- Both ways give the same keys to the same mutations.
pub ask_alike :
    (w : Way) (id : ℕ) (keys : List AdminResourceLockKey) (owners : AdminResourceLocks)
    → ask w id keys owners ≡ ask by_acquire id keys owners
unfolding acquire try_hold
ask_alike by_acquire id keys owners = refl
ask_alike by_try_hold id keys owners = elim (Bool-cases (blocked id (key_set keys) owners)) [
  | inl e ↦ rw e refl
  | inr e ↦ rw e refl
]

-- In locks with one entry a key, while a mutation owns a resource and does not give it back, whatever
-- calls all mutations make in any order, another mutation that then asks for the resource, among any
-- keys, by `acquire` or by `try_hold`, is refused and changes nothing.
pub owner_excludes :
    (id j : ℕ) (key : AdminResourceLockKey) (keys : List AdminResourceLockKey)
    (owners : AdminResourceLocks) (calls : List Call) (w : Way)
    → IsMap owners
    → lookup key owners ≡ some id
    → All (Leaves id key) calls
    → j ≢ id
    → has_lock key keys ≡ true
    → ask w j keys (run owners calls) ≡ (run owners calls, false)
owner_excludes id j key keys owners calls w m h l other asked =
    let kept = run_keeps id key owners calls m h l in
    let blocks =
      any_at (λ key. is_some_and (lookup key (run owners calls)) (λ owner. not (owner == j))) key
        keys asked (rw kept (ground arith)) in
    ask_alike w j keys (run owners calls) ∙ elim (acquire_answer j keys (run owners calls)) [
      | inl (_, r) ↦ ap (λ r. (r.0, is_some r.1)) r
      | inr (e, _, _) ↦ absurd (ground arith)
    ]
