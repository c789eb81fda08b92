-- ===== src/Route/Order.antt =====
-- The canonical order of networks in src/domain/route.rs. The standard library's stable sort is an
-- insertion sort here: with one order of the elements both give the same list.
use tale.Prelude.{
  Bool, true, false, ◌&&◌, ◌||◌, List, [], ◌∷◌, ltb, ◌==◌, if◌then◌else◌, filter, map, ◌++◌,
}
use tale.Route.{IpAddr, v4, v6, IpNet, addr_eq, overlaps}

-- `cmp` of the families and then of the bytes, which are of one length within a family.
abbrev pub addr_lt : IpAddr → IpAddr → Bool
addr_lt (v4 a) (v4 b) = ltb a b
addr_lt (v4 a) (v6 b) = true
addr_lt (v6 a) (v4 b) = false
addr_lt (v6 a) (v6 b) = ltb a b

-- `cmp` is `Less`, and `==`.
unfoldable pub net_lt : IpNet → IpNet → Bool
unfolding addr_eq
net_lt a b = addr_lt a.address b.address || addr_eq a.address b.address && ltb a.prefix b.prefix

unfoldable pub net_eq : IpNet → IpNet → Bool
unfolding addr_eq
net_eq a b = addr_eq a.address b.address && a.prefix == b.prefix

unfoldable pub insert_sorted : IpNet → List IpNet → List IpNet
insert_sorted net [] = net ∷ []
insert_sorted net (n ∷ nets) =
    let rest = insert_sorted net nets in if net_lt n net then n ∷ rest else net ∷ n ∷ nets

unfoldable pub sort : List IpNet → List IpNet
sort [] = []
sort (net ∷ nets) = insert_sorted net (sort nets)

-- `dedup` drops what equals the one before it.
unfoldable pub dedup_after : IpNet → List IpNet → List IpNet
dedup_after net [] = net ∷ []
dedup_after net (n ∷ nets) =
    let rest = dedup_after n nets in if net_eq net n then dedup_after net nets else net ∷ rest

unfoldable pub dedup : List IpNet → List IpNet
unfolding dedup_after
dedup [] = []
dedup (net ∷ nets) = dedup_after net nets

unfoldable pub canonical_routes : List IpNet → List IpNet
unfolding sort dedup
canonical_routes routes = dedup (sort routes)

unfoldable pub overlapping_pairs : List IpNet → List (IpNet × IpNet)
overlapping_pairs [] = []
overlapping_pairs (left ∷ nets) =
    map (λ right. (left, right)) (filter (λ right. overlaps left right) nets)
    ++ overlapping_pairs nets

unfoldable pub overlapping_routes : List IpNet → List (IpNet × IpNet)
unfolding overlapping_pairs
overlapping_routes routes = overlapping_pairs (canonical_routes routes)
