-- ===== src/AdminMutation/Locks.antt =====
-- `AdminResourceLocks` of src/domain/admin_mutation.rs: which mutation owns each resource. The mutex
-- makes each method one step; a set of keys is a list that holds each key once.
use tale.Prelude.{
  ℕ, ◌≡◌, ◌↔◌, ap, Bool, true, false, not, ◌&&◌, Option, none, some, List, [], ◌∷◌, arith, ◌==◌,
  text_eq, text_eq_iff, if◌then◌else◌, Eq, lookup, put, remove, any, filter, length, is_some,
  is_some_and,
}
use tale.AdminMutation.Change.{
  AdminResourceKind, device, device_routes, user, tailnet_dns, AdminResourceLockKey,
}

abbrev pub kind_eq : AdminResourceKind → AdminResourceKind → Bool
kind_eq device device = true
kind_eq device_routes device_routes = true
kind_eq user user = true
kind_eq tailnet_dns tailnet_dns = true
kind_eq _ _ = false

kind_eq_iff : (a b : AdminResourceKind) → (kind_eq a b ≡ true) ↔ (a ≡ b)
kind_eq_iff a b = (λ h. ground arith, λ h. ground arith)

abbrev pub key_eq : AdminResourceLockKey → AdminResourceLockKey → Bool
key_eq a b =
    text_eq a.profile b.profile && kind_eq a.kind b.kind && text_eq a.resource_id b.resource_id

same_key :
    (a b : AdminResourceLockKey)
    → a.profile ≡ b.profile
    → a.kind ≡ b.kind
    → a.resource_id ≡ b.resource_id
    → a ≡ b
same_key a b p k r = cc

pub key_eq_iff : (a b : AdminResourceLockKey) → (key_eq a b ≡ true) ↔ (a ≡ b)
key_eq_iff a b =
    let p = text_eq_iff a.profile b.profile in
    let k = kind_eq_iff a.kind b.kind in
    let r = text_eq_iff a.resource_id b.resource_id in
    (
      λ h. same_key a b (p.0 (ground arith)) (k.0 (ground arith)) (r.0 (ground arith)),
      λ h.
          let p' = p.1 (ap (λ (x : AdminResourceLockKey). x.profile) h) in
          let k' = k.1 (ap (λ (x : AdminResourceLockKey). x.kind) h) in
          let r' = r.1 (ap (λ (x : AdminResourceLockKey). x.resource_id) h) in ground arith,
    )

instance abbrev pub lock_key : Eq AdminResourceLockKey
lock_key = record { beq = key_eq; beq_iff = key_eq_iff }

abbrev pub AdminResourceLocks : Type 0
AdminResourceLocks = List (AdminResourceLockKey × ℕ)

abbrev pub has_lock : AdminResourceLockKey → List AdminResourceLockKey → Bool
has_lock key keys = any (λ k. key_eq k key) keys

-- `collect::<BTreeSet<_>>`
abbrev pub key_set : List AdminResourceLockKey → List AdminResourceLockKey
key_set [] = []
key_set (k ∷ keys) = let rest = key_set keys in if has_lock k rest then rest else k ∷ rest

-- Some key has another owner.
abbrev pub blocked : ℕ → List AdminResourceLockKey → AdminResourceLocks → Bool
blocked mutation_id keys owners =
    any (λ key. is_some_and (lookup key owners) (λ owner. not (owner == mutation_id))) keys

abbrev pub put_all : ℕ → List AdminResourceLockKey → AdminResourceLocks → AdminResourceLocks
put_all mutation_id [] owners = owners
put_all mutation_id (key ∷ keys) owners = put_all mutation_id keys (put key mutation_id owners)

pub record AdminResourceLockLease : Type 0 where
  pub mutation_id : ℕ
  pub keys : List AdminResourceLockKey

unfoldable pub acquire :
    ℕ
    → List AdminResourceLockKey
    → AdminResourceLocks
    → AdminResourceLocks × Option AdminResourceLockLease
acquire mutation_id keys owners =
    let keys = key_set keys in
    if blocked mutation_id keys owners
    then (owners, none)
    else (put_all mutation_id keys owners, some (record { mutation_id = mutation_id; keys = keys }))

unfoldable pub try_hold :
    ℕ → List AdminResourceLockKey → AdminResourceLocks → AdminResourceLocks × Bool
try_hold mutation_id keys owners =
    let keys = key_set keys in
    if blocked mutation_id keys owners
    then (owners, false)
    else (put_all mutation_id keys owners, true)

unfoldable pub release : ℕ → AdminResourceLocks → AdminResourceLocks
release mutation_id owners =
    filter (λ (entry : AdminResourceLockKey × ℕ). not (entry.1 == mutation_id)) owners

unfoldable pub held_count : AdminResourceLocks → ℕ
held_count owners = length owners

unfoldable pub is_held : AdminResourceLockKey → AdminResourceLocks → Bool
is_held key owners = is_some (lookup key owners)

-- `Drop for AdminResourceLockLease`: the keys that the mutation still owns are freed.
unfoldable pub drop_keys : ℕ → List AdminResourceLockKey → AdminResourceLocks → AdminResourceLocks
drop_keys mutation_id [] owners = owners
drop_keys mutation_id (key ∷ keys) owners = drop_keys mutation_id keys (
    if is_some_and (lookup key owners) (λ owner. owner == mutation_id)
    then remove key owners
    else owners)

unfoldable pub drop_lease : AdminResourceLockLease → AdminResourceLocks → AdminResourceLocks
unfolding drop_keys
drop_lease lease owners = drop_keys lease.mutation_id lease.keys owners
