-- ===== src/Route/Canonical.antt =====
-- What the canonical order of src/domain/route.rs makes of a list of networks.
use tale.Prelude.{
  ℕ, ◌≡◌, ◌<◌, ◌↔◌, ◌⊎◌, refl, sym, ap, ◌∙◌, Bool, true, false, ◌&&◌, ◌||◌, List, [], ◌∷◌, arith,
  ltb, ◌==◌, ==_iff, subst, any, Bool-cases, inl, inr,
}
use tale.Route.{IpAddr, v4, v6, IpNet, addr_eq}
use tale.Route.Order.{
  addr_lt, net_lt, net_eq, insert_sorted, sort, dedup_after, dedup, canonical_routes,
}

addr_eq_same : (a b : IpAddr) → addr_eq a b ≡ true → a ≡ b
unfolding addr_eq
addr_eq_same (v4 x) (v4 y) h = ap v4 ((==_iff x y).0 h)
addr_eq_same (v6 x) (v6 y) h = ap v6 ((==_iff x y).0 h)
addr_eq_same (v4 x) (v6 y) h = absurd (ground arith)
addr_eq_same (v6 x) (v4 y) h = absurd (ground arith)

same_net : (a b : IpNet) → a.address ≡ b.address → a.prefix ≡ b.prefix → a ≡ b
same_net a b ea ep = cc

net_eq_same : (a b : IpNet) → net_eq a b ≡ true → a ≡ b
unfolding net_eq
net_eq_same a b h =
    same_net a b (addr_eq_same a.address b.address (ground arith))
      ((==_iff a.prefix b.prefix).0 (ground arith))

net_lt_asym : (a b : IpNet) → net_lt a b ≡ true → net_lt b a ≡ false
unfolding net_lt
net_lt_asym a b h = ground arith

net_total : (a b : IpNet) → net_lt b a ≡ false → net_eq a b ≡ false → net_lt a b ≡ true
unfolding net_lt net_eq
net_total a b h e = ground arith

abbrev family : IpAddr → ℕ
family (v4 _) = 4
family (v6 _) = 6

abbrev bits : IpAddr → ℕ
bits (v4 a) = a
bits (v6 a) = a

-- The networks' families, addresses and prefixes, compared as numbers, the first difference deciding.
abbrev pub Before : IpNet → IpNet → Type 0
Before a b =
    (family a.address < family b.address)
    ⊎ (family a.address ≡ family b.address) × (bits a.address < bits b.address)
    ⊎ (family a.address ≡ family b.address)
      × (bits a.address ≡ bits b.address)
      × (a.prefix < b.prefix)

abbrev pub Ascending : List IpNet → Type 0
Ascending [] = Unit
Ascending (a ∷ []) = Unit
Ascending (a ∷ b ∷ nets) = Before a b × Ascending (b ∷ nets)

addr_lt-Before :
    (a b : IpAddr) (p q : ℕ)
    → (addr_lt a b || addr_eq a b && ltb p q) ≡ true
    → Before (record { address = a; prefix = p }) (record { address = b; prefix = q })
unfolding addr_eq
addr_lt-Before (v4 x) (v4 y) p q h = ground arith
addr_lt-Before (v4 x) (v6 y) p q h = inl (omega arith)
addr_lt-Before (v6 x) (v4 y) p q h = absurd (ground arith)
addr_lt-Before (v6 x) (v6 y) p q h = ground arith

net_lt-Before : (a b : IpNet) → net_lt a b ≡ true → Before a b
unfolding net_lt
net_lt-Before a b h = addr_lt-Before a.address b.address a.prefix b.prefix h

abbrev Ordered : List IpNet → Type 0
Ordered [] = Unit
Ordered (a ∷ []) = Unit
Ordered (a ∷ b ∷ nets) = (net_lt b a ≡ false) × Ordered (b ∷ nets)

abbrev pub Member : IpNet → List IpNet → Type 0
Member net [] = ⊥
Member net (n ∷ nets) = (n ≡ net) ⊎ Member net nets

abbrev lists : IpNet → List IpNet → Bool
lists net nets = any (λ n. net_eq n net) nets

lists-insert_sorted :
    (x n : IpNet) (nets : List IpNet)
    → lists n (insert_sorted x nets) ≡ (net_eq x n || lists n nets)
unfolding insert_sorted
lists-insert_sorted x n [] = refl
lists-insert_sorted x n (y ∷ nets) = ground (arith, lists-insert_sorted x n nets)

lists-sort : (n : IpNet) (nets : List IpNet) → lists n (sort nets) ≡ lists n nets
unfolding sort
lists-sort n [] = refl
lists-sort n (x ∷ nets) = ground (arith, lists-insert_sorted x n (sort nets), lists-sort n nets)

lists-dedup_after :
    (x n : IpNet) (nets : List IpNet) → lists n (dedup_after x nets) ≡ (net_eq x n || lists n nets)
unfolding dedup_after
lists-dedup_after x n [] = refl
lists-dedup_after x n (y ∷ nets) = ground (
  arith,
  lists-dedup_after x n nets,
  lists-dedup_after y n nets,
  λ (e : net_eq x y ≡ true). ap (λ z. net_eq z n) (net_eq_same x y e),
)

Ordered-cons :
    (y x : IpNet) (nets : List IpNet)
    → net_lt y x ≡ true
    → Ordered (y ∷ nets)
    → Ordered (insert_sorted x nets)
    → Ordered (y ∷ insert_sorted x nets)
unfolding insert_sorted
Ordered-cons y x [] lt o i = (net_lt_asym y x lt, tt)
Ordered-cons y x (z ∷ nets) lt o i = elim (Bool-cases (net_lt z x)) [
  | inl e ↦ rw (insert_sorted, e) (o.0, rw (insert_sorted, e) at i)
  | inr e ↦ rw (insert_sorted, e) (net_lt_asym y x lt, rw (insert_sorted, e) at i)
]

Ordered-tail : (y : IpNet) (nets : List IpNet) → Ordered (y ∷ nets) → Ordered nets
Ordered-tail y [] o = tt
Ordered-tail y (z ∷ nets) o = o.1

insert_sorted-Ordered :
    (x : IpNet) (nets : List IpNet) → Ordered nets → Ordered (insert_sorted x nets)
unfolding insert_sorted
insert_sorted-Ordered x [] o = tt
insert_sorted-Ordered x (y ∷ nets) o = elim (Bool-cases (net_lt y x)) [
  | inl e ↦
      rw (insert_sorted, e)
        (Ordered-cons y x nets e o (insert_sorted-Ordered x nets (Ordered-tail y nets o)))
  | inr e ↦ rw (insert_sorted, e) (e, o)
]

sort-Ordered : (nets : List IpNet) → Ordered (sort nets)
unfolding sort
sort-Ordered [] = tt
sort-Ordered (x ∷ nets) = insert_sorted-Ordered x (sort nets) (sort-Ordered nets)

-- What is left starts with the network itself.
Ascending-cons :
    (x y : IpNet) (nets : List IpNet)
    → net_lt x y ≡ true
    → Ascending (dedup_after y nets)
    → Ascending (x ∷ dedup_after y nets)
unfolding dedup_after
Ascending-cons x y [] lt a = (net_lt-Before x y lt, tt)
Ascending-cons x y (z ∷ nets) lt a = elim (Bool-cases (net_eq y z)) [
  | inl e ↦ rw (dedup_after, e) (Ascending-cons x y nets lt (rw (dedup_after, e) at a))
  | inr e ↦ rw (dedup_after, e) (net_lt-Before x y lt, rw (dedup_after, e) at a)
]

dedup_after-Ascending :
    (x : IpNet) (nets : List IpNet) → Ordered (x ∷ nets) → Ascending (dedup_after x nets)
unfolding dedup_after
dedup_after-Ascending x [] o = tt
dedup_after-Ascending x (y ∷ nets) o = elim (Bool-cases (net_eq x y)) [
  | inl e ↦
      rw (dedup_after, e)
        (dedup_after-Ascending x nets
          (subst (λ z. Ordered (z ∷ nets)) (sym (net_eq_same x y e)) o.1))
  | inr e ↦
      rw (dedup_after, e)
        (Ascending-cons x y nets (net_total x y o.0 e) (dedup_after-Ascending y nets o.1))
]

dedup-Ascending : (nets : List IpNet) → Ordered nets → Ascending (dedup nets)
unfolding dedup
dedup-Ascending [] o = tt
dedup-Ascending (x ∷ nets) o = dedup_after-Ascending x nets o

lists-dedup : (n : IpNet) (nets : List IpNet) → lists n (dedup nets) ≡ lists n nets
unfolding dedup
lists-dedup n [] = refl
lists-dedup n (x ∷ nets) = lists-dedup_after x n nets

addr_self : (a : IpAddr) (p : ℕ) → (addr_eq a a && p == p) ≡ true
unfolding addr_eq
addr_self (v4 x) p = ground arith
addr_self (v6 x) p = ground arith

net_eq_self : (n : IpNet) → net_eq n n ≡ true
unfolding net_eq
net_eq_self n = addr_self n.address n.prefix

Member-lists : (net : IpNet) (nets : List IpNet) → Member net nets → lists net nets ≡ true
Member-lists net [] m = absurd m
Member-lists net (n ∷ nets) (inl e) = rw (sym e, net_eq_self n) refl
Member-lists net (n ∷ nets) (inr m) = ground (arith, Member-lists net nets m)

lists-Member : (net : IpNet) (nets : List IpNet) → lists net nets ≡ true → Member net nets
lists-Member net [] h = absurd (ground arith)
lists-Member net (n ∷ nets) h = elim (Bool-cases (net_eq n net)) [
  | inl e ↦ inl (net_eq_same n net e)
  | inr e ↦ inr (lists-Member net nets (ground arith))
]

-- The canonical routes are in strictly ascending order, IPv4 before IPv6, then by the number of the
-- address and then by the prefix, and are the networks of the given routes.
pub canonical_routes_lem :
    (routes : List IpNet)
    → Ascending (canonical_routes routes)
      × ((net : IpNet) → Member net (canonical_routes routes) ↔ Member net routes)
unfolding canonical_routes
canonical_routes_lem routes = (
  dedup-Ascending (sort routes) (sort-Ordered routes),
  λ net.
      let same = lists-dedup net (sort routes) ∙ lists-sort net routes in
      (
        λ m. lists-Member net routes (sym same ∙ Member-lists net (dedup (sort routes)) m),
        λ m. lists-Member net (dedup (sort routes)) (same ∙ Member-lists net routes m),
      ),
)
