-- ===== src/Prelude/Maps.antt =====
-- What the operations on maps keep: one entry a key, and what other keys hold.
use mathlib.Core.Path.{◌≡◌, refl}
use mathlib.Core.Bool.{Bool, false, ◌||◌}
use mathlib.Core.Option.{none}
use mathlib.Core.List.{List, [], ◌∷◌}
use native.Mathlib.Omega.{arith}
use tale.Prelude.Tests.{if◌then◌else◌, is_some_and}
use tale.Prelude.Lists.{filter}
use tale.Prelude.Assoc.{Eq, lookup, put, remove, has_key, IsMap, lookup_missing}

module _ {ℓ κ} {K : Type ℓ} {V : Type κ} ⦃e : Eq K⦄ where
  pub has_key-put :
      (k j : K) (v : V) (m : List (K × V)) → has_key j (put k v m) ≡ (e.beq k j || has_key j m)
  unfolding put
  has_key-put k j v [] = refl
  has_key-put k j v ((i, w) ∷ m) =
      ground (arith, e.beq_iff i k, e.beq_iff i j, e.beq_iff k j, has_key-put k j v m)

  pub has_key-remove :
      (k j : K) (m : List (K × V)) → has_key j m ≡ false → has_key j (remove k m) ≡ false
  unfolding remove
  has_key-remove k j [] h = refl
  has_key-remove k j ((i, w) ∷ m) h = ground (arith, has_key-remove k j m)

  pub has_key-filter :
      (p : K × V → Bool) (j : K) (m : List (K × V))
      → has_key j m ≡ false
      → has_key j (filter p m) ≡ false
  has_key-filter p j [] h = refl
  has_key-filter p j ((i, w) ∷ m) h = ground (arith, has_key-filter p j m)

  pub put-IsMap : (k : K) (v : V) (m : List (K × V)) → IsMap m → IsMap (put k v m)
  unfolding put
  put-IsMap k v [] h = (refl, tt)
  put-IsMap k v ((i, w) ∷ m) (h₁, h₂) =
      ground (arith, e.beq_iff i k, e.beq_iff k i, has_key-put k i v m, put-IsMap k v m h₂)

  pub remove-IsMap : (k : K) (m : List (K × V)) → IsMap m → IsMap (remove k m)
  unfolding remove
  remove-IsMap k [] h = tt
  remove-IsMap k ((i, w) ∷ m) (h₁, h₂) =
      ground (arith, has_key-remove k i m h₁, remove-IsMap k m h₂)

  pub filter-IsMap : (p : K × V → Bool) (m : List (K × V)) → IsMap m → IsMap (filter p m)
  filter-IsMap p [] h = tt
  filter-IsMap p ((i, w) ∷ m) (h₁, h₂) =
      ground (arith, has_key-filter p i m h₁, filter-IsMap p m h₂)

  pub lookup-filter :
      (p : V → Bool) (j : K) (m : List (K × V))
      → IsMap m
      → lookup j (filter (λ (entry : K × V). p entry.1) m)
        ≡ (if is_some_and (lookup j m) p then lookup j m else none)
  unfolding lookup
  lookup-filter p j [] h = refl
  lookup-filter p j ((i, w) ∷ m) (h₁, h₂) =
      ground (arith, e.beq_iff i j, lookup-filter p j m h₂, lookup_missing j m)
