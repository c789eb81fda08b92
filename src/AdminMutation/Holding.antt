-- ===== src/AdminMutation/Holding.antt =====
-- Who holds the resources: the locks of src/domain/admin_mutation.rs over calls of any mutations.
use tale.Prelude.{
  ℕ, ◌≡◌, refl, sym, ap, ◌∙◌, Bool, true, false, not, ◌&&◌, ◌||◌, Option, none, some, List, [], ◌∷◌,
  arith, ◌==◌, if◌then◌else◌, lookup, put, remove, lookup-put, lookup-remove, lookup-filter, IsMap,
  put-IsMap, remove-IsMap, any, is_some, is_some_and, ◌⊎◌, inl, inr, Bool-cases,
}
use tale.AdminMutation.Change.{AdminResourceLockKey}
use tale.AdminMutation.Locks.{
  AdminResourceLocks, AdminResourceLockLease, key_eq, key_eq_iff, has_lock, key_set, blocked,
  put_all, acquire, release, drop_keys, drop_lease, lock_key,
}

pub any_at :
    (p : AdminResourceLockKey → Bool) (key : AdminResourceLockKey)
    (keys : List AdminResourceLockKey)
    → has_lock key keys ≡ true
    → p key ≡ true
    → any p keys ≡ true
any_at p key [] h k = cc
any_at p key (x ∷ keys) h k =
    ground (arith, any_at p key keys, λ (e : key_eq x key ≡ true). ap p ((key_eq_iff x key).0 e))

any-key_set :
    (p : AdminResourceLockKey → Bool) (keys : List AdminResourceLockKey)
    → any p (key_set keys) ≡ any p keys
any-key_set p [] = refl
any-key_set p (k ∷ keys) = ground (arith, any-key_set p keys, any_at p k (key_set keys))

pub lookup-put_all :
    (id : ℕ) (j : AdminResourceLockKey) (keys : List AdminResourceLockKey)
    (owners : AdminResourceLocks)
    → lookup j (put_all id keys owners) ≡ (if has_lock j keys then some id else lookup j owners)
lookup-put_all id j [] owners = refl
lookup-put_all id j (key ∷ keys) owners =
    ground (arith, lookup-put_all id j keys (put key id owners), lookup-put key j id owners)

pub put_all-IsMap :
    (id : ℕ) (keys : List AdminResourceLockKey) (owners : AdminResourceLocks)
    → IsMap owners
    → IsMap (put_all id keys owners)
put_all-IsMap id [] owners h = h
put_all-IsMap id (key ∷ keys) owners h =
    put_all-IsMap id keys (put key id owners) (put-IsMap key id owners h)

-- The owner of a key, if it is the mutation.
abbrev pub owned : ℕ → AdminResourceLockKey → AdminResourceLocks → Bool
owned id key owners = is_some_and (lookup key owners) (λ owner. owner == id)

drop_one-IsMap :
    (id : ℕ) (key : AdminResourceLockKey) (owners : AdminResourceLocks)
    → IsMap owners
    → IsMap (if owned id key owners then remove key owners else owners)
drop_one-IsMap id key owners h =
    elim (owned id key owners) as (λ b. IsMap (if b then remove key owners else owners)) [
      | true ↦ remove-IsMap key owners h
      | false ↦ h
    ]

pub drop_keys-IsMap :
    (id : ℕ) (keys : List AdminResourceLockKey) (owners : AdminResourceLocks)
    → IsMap owners
    → IsMap (drop_keys id keys owners)
unfolding drop_keys
drop_keys-IsMap id [] owners h = h
drop_keys-IsMap id (key ∷ keys) owners h =
    drop_keys-IsMap id keys _ (drop_one-IsMap id key owners h)

lookup-drop_one :
    (id : ℕ) (key j : AdminResourceLockKey) (owners : AdminResourceLocks)
    → IsMap owners
    → lookup j (if owned id key owners then remove key owners else owners)
      ≡ (if key_eq key j && owned id j owners then none else lookup j owners)
lookup-drop_one id key j owners h = ground (
  arith,
  lookup-remove key j owners h,
  λ (e : key_eq key j ≡ true). ap (λ x. lookup x owners) ((key_eq_iff key j).0 e),
)

pub lookup-drop_keys :
    (id : ℕ) (j : AdminResourceLockKey) (keys : List AdminResourceLockKey)
    (owners : AdminResourceLocks)
    → IsMap owners
    → lookup j (drop_keys id keys owners)
      ≡ (if has_lock j keys && owned id j owners then none else lookup j owners)
unfolding drop_keys
lookup-drop_keys id j [] owners h = refl
lookup-drop_keys id j (key ∷ keys) owners h =
    let one = lookup-drop_one id key j owners h in
    let rest =
      lookup-drop_keys id j keys (if owned id key owners then remove key owners else owners)
        (drop_one-IsMap id key owners h) in
    rest
    ∙ ap
        (λ (o : Option ℕ).
          if has_lock j keys && is_some_and o (λ owner. owner == id) then none else o)
        one
    ∙ again (has_lock j keys) (key_eq key j) (lookup j owners)
  where
    again :
        (b c : Bool) (o : Option ℕ)
        → (let o' = if c && is_some_and o (λ owner. owner == id) then none else o in
            if b && is_some_and o' (λ owner. owner == id) then none else o')
          ≡ (if (c || b) && is_some_and o (λ owner. owner == id) then none else o)
    again b c o = ground arith

pub acquire_answer :
    (id : ℕ) (keys : List AdminResourceLockKey) (owners : AdminResourceLocks)
    → (blocked id keys owners ≡ true) × (acquire id keys owners ≡ (owners, none))
      ⊎ (blocked id keys owners ≡ false)
        × (is_some (acquire id keys owners).1 ≡ true)
        × ((key : AdminResourceLockKey)
            → lookup key (acquire id keys owners).0
              ≡ (if has_lock key keys then some id else lookup key owners))
unfolding acquire
acquire_answer id keys owners =
    let same =
      any-key_set (λ key. is_some_and (lookup key owners) (λ owner. not (owner == id))) keys in
    elim (Bool-cases (blocked id (key_set keys) owners)) [
      | inl e ↦ inl (sym same ∙ e, rw e refl)
      | inr e ↦ inr (
        sym same ∙ e,
        rw e refl,
        λ key. rw e (
            lookup-put_all id key (key_set keys) owners
            ∙ ap (λ b. if b then some id else lookup key owners)
                (any-key_set (λ k. key_eq k key) keys)),
      )
    ]

-- In locks with one entry a key, releasing takes from the mutation every resource that it owns, and none from another.
pub lookup-release :
    (id : ℕ) (key : AdminResourceLockKey) (owners : AdminResourceLocks)
    → IsMap owners
    → lookup key (release id owners) ≡ (if owned id key owners then none else lookup key owners)
unfolding release
lookup-release id key owners h =
    lookup-filter (λ owner. not (owner == id)) key owners h ∙ swap (lookup key owners)
  where
    swap :
        (o : Option ℕ)
        → (if is_some_and o (λ owner. not (owner == id)) then o else none)
          ≡ (if is_some_and o (λ owner. owner == id) then none else o)
    swap o = ground arith

drop_put_all :
    (id : ℕ) (keys : List AdminResourceLockKey) (owners : AdminResourceLocks)
    (key : AdminResourceLockKey)
    → IsMap owners
    → (has_lock key keys ≡ true → lookup key owners ≡ none)
    → lookup key (drop_keys id keys (put_all id keys owners)) ≡ lookup key owners
drop_put_all id keys owners key m free =
    let put = lookup-put_all id key keys owners in
    lookup-drop_keys id key keys (put_all id keys owners) (put_all-IsMap id keys owners m)
    ∙ ap
        (λ (o : Option ℕ).
          if has_lock key keys && is_some_and o (λ owner. owner == id) then none else o)
        put
    ∙ back (has_lock key keys) (lookup key owners) free
  where
    back :
        (b : Bool) (o : Option ℕ)
        → (b ≡ true → o ≡ none)
        → (let o' = if b then some id else o in
            if b && is_some_and o' (λ owner. owner == id) then none else o')
          ≡ o
    back true o h = let free = h refl in ground arith
    back false o h = refl

granted_lease :
    (id : ℕ) (keys : List AdminResourceLockKey) (owners : AdminResourceLocks)
    (lease : AdminResourceLockLease)
    → (acquire id keys owners).1 ≡ some lease
    → ((acquire id keys owners).0 ≡ put_all id (key_set keys) owners)
      × (lease ≡ record { mutation_id = id; keys = key_set keys })
unfolding acquire
granted_lease id keys owners lease h = ground (arith, h)

-- In locks with one entry a key, a mutation that is given keys that nobody holds and drops the lease
-- leaves every resource with the owner it had.
pub drop_lease-acquire :
    (id : ℕ) (keys : List AdminResourceLockKey) (owners : AdminResourceLocks)
    (lease : AdminResourceLockLease)
    → IsMap owners
    → ((key : AdminResourceLockKey) → has_lock key keys ≡ true → lookup key owners ≡ none)
    → (acquire id keys owners).1 ≡ some lease
    → (key : AdminResourceLockKey)
    → lookup key (drop_lease lease (acquire id keys owners).0) ≡ lookup key owners
unfolding drop_lease
drop_lease-acquire id keys owners lease m free given key =
    let (given_all, same) = granted_lease id keys owners lease given in
    rw (given_all, same)
      (drop_put_all id (key_set keys) owners key m
        (λ h. free key (sym (any-key_set (λ k. key_eq k key) keys) ∙ h)))
