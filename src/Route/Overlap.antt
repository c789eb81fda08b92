-- ===== src/Route/Overlap.antt =====
-- When two networks of src/domain/route.rs overlap.
use tale.Prelude.{
  ℕ, min, ◌≤◌, ◌≡◌, ◌↔◌, ◌⊎◌, inl, inr, refl, sym, subst, Bool, true, ◌||◌, arith, ltb, leb,
  Bool-cases,
}
use tale.Route.{
  IpAddr, v4, v6, IpNet, mask_address, max_prefix, ok, new, contains, overlaps, overlaps_pair,
}
use tale.Route.Containment.{
  IsAddr, SamePrefix, contains_masked, mask-IsAddr, SamePrefix-sym, SamePrefix-mask,
  SamePrefix-fewer,
}

-- The network that `new` makes.
abbrev made : IpAddr → ℕ → IpNet
made address prefix = record { address = mask_address address prefix; prefix = prefix }

max_prefix-mask : (a : IpAddr) (p : ℕ) → max_prefix (mask_address a p) ≡ max_prefix a
unfolding mask_address
max_prefix-mask (v4 x) p = refl
max_prefix-mask (v6 x) p = refl

contained_shorter :
    (a b : IpAddr) (p q : ℕ)
    → p ≤ q
    → p ≤ max_prefix a
    → q ≤ max_prefix b
    → IsAddr a
    → IsAddr b
    → (contains (made a p) (mask_address b q) ≡ true)
      ⊎ (contains (made b q) (mask_address a p) ≡ true)
    → SamePrefix p a b
contained_shorter a b p q pq pa qb ha hb (inl h) =
    (SamePrefix-mask p q a b pq qb hb).0
      ((contains_masked a (mask_address b q) p pa ha (mask-IsAddr b q qb hb)).0 h)
contained_shorter a b p q pq pa qb ha hb (inr h) =
    let longer = (contains_masked b (mask_address a p) q qb hb (mask-IsAddr a p pa ha)).0 h in
    let shorter = SamePrefix-fewer p q b (mask_address a p) pq qb longer in
    SamePrefix-sym p b a ((SamePrefix-mask p p b a (omega arith) pa ha).0 shorter)

shorter_contains :
    (a b : IpAddr) (p q : ℕ)
    → p ≤ q
    → p ≤ max_prefix a
    → q ≤ max_prefix b
    → IsAddr a
    → IsAddr b
    → SamePrefix p a b
    → contains (made a p) (mask_address b q) ≡ true
shorter_contains a b p q pq pa qb ha hb s =
    (contains_masked a (mask_address b q) p pa ha (mask-IsAddr b q qb hb)).1
      ((SamePrefix-mask p q a b pq qb hb).1 s)

or_cases : (x y : Bool) → (x || y) ≡ true → (x ≡ true) ⊎ (y ≡ true)
or_cases x y h = ground arith

swapped {ℓ κ} : {A : Type ℓ} {B : Type κ} → A ⊎ B → B ⊎ A
swapped (inl x) = inr x
swapped (inr y) = inl y

either_contains :
    (a b : IpAddr) (p q : ℕ)
    → p ≤ max_prefix a
    → q ≤ max_prefix b
    → IsAddr a
    → IsAddr b
    → ((contains (made a p) (mask_address b q) || contains (made b q) (mask_address a p)) ≡ true)
      ↔ SamePrefix (min p q) a b
either_contains a b p q pa qb ha hb = elim (Bool-cases (leb p q)) [
  | inl e ↦
      let pq : p ≤ q = ground arith in
      let least : p ≡ min p q = omega arith in
      (
        λ h.
            subst (λ n. SamePrefix n a b) least
              (contained_shorter a b p q pq pa qb ha hb (or_cases _ _ h)),
        λ s.
            let first =
              shorter_contains a b p q pq pa qb ha hb
                (subst (λ n. SamePrefix n a b) (sym least) s) in
            ground (arith, first),
      )
  | inr e ↦
      let qp : q ≤ p = ground arith in
      let least : q ≡ min p q = omega arith in
      (
        λ h.
            subst (λ n. SamePrefix n a b) least
              (SamePrefix-sym q b a
                (contained_shorter b a q p qp qb pa hb ha (swapped (or_cases _ _ h)))),
        λ s.
            let second =
              shorter_contains b a q p qp qb pa hb ha
                (SamePrefix-sym q a b (subst (λ n. SamePrefix n a b) (sym least) s)) in
            ground (arith, second),
      )
]

pair_family :
    (a b : IpAddr) (p q n : ℕ) (either : Bool)
    → (either ≡ true) ↔ SamePrefix n a b
    → (overlaps_pair (mask_address a p) (mask_address b q) either ≡ true) ↔ SamePrefix n a b
unfolding mask_address overlaps_pair
pair_family (v4 x) (v4 y) p q n either h = h
pair_family (v6 x) (v6 y) p q n either h = h
pair_family (v4 x) (v6 y) p q n either h = ((λ e. absurd (ground arith)), (λ s. absurd s))
pair_family (v6 x) (v4 y) p q n either h = ((λ e. absurd (ground arith)), (λ s. absurd s))

new-made :
    (address : IpAddr) (prefix : ℕ) (net : IpNet)
    → new address prefix ≡ ok net
    → (prefix ≤ max_prefix address) × (made address prefix ≡ net)
unfolding new
new-made address prefix net h = elim (Bool-cases (ltb (max_prefix address) prefix)) [
  | inl e ↦ absurd (ground arith)
  | inr e ↦ (ground arith, ground arith)
]

-- For addresses within their family's width: two networks made of addresses and prefixes that fit overlap exactly if the addresses are of one
-- family and have the same first bits, as many as the shorter prefix says.
pub overlaps-new :
    (a b : IpAddr) (p q : ℕ) (net other : IpNet)
    → new a p ≡ ok net
    → new b q ≡ ok other
    → IsAddr a
    → IsAddr b
    → (overlaps net other ≡ true) ↔ SamePrefix (min p q) a b
unfolding overlaps
overlaps-new a b p q net other na nb ha hb =
    let (pa, made_a) = new-made a p net na in
    let (qb, made_b) = new-made b q other nb in
    subst (λ n. (overlaps n other ≡ true) ↔ SamePrefix (min p q) a b) made_a
      (subst (λ n. (overlaps (made a p) n ≡ true) ↔ SamePrefix (min p q) a b) made_b
        (pair_family a b p q (min p q) _ (either_contains a b p q pa qb ha hb)))
