-- ===== src/Examples/Routes.antt =====
-- Runs on networks, src/domain/route.rs.
use tale.Prelude.{List, [], ◌∷◌, min, ◌≡◌, ◌↔◌, refl, true, arith}
use tale.Route.{IpAddr, v4, v6, IpNet, mask_address, ok, new, contains, overlaps}
use tale.Route.Containment.{SamePrefix, contains-new}
use tale.Route.Overlap.{overlaps-new}
use tale.Route.Canonical.{Ascending, Member, canonical_routes_lem}
use tale.Route.Order.{canonical_routes}

-- 10.1.2.3, 10.1.9.9, and 10.1.0.0/16 and 10.1.2.0/24 made of the first.
abbrev host : IpAddr
host = v4 167838211

abbrev neighbour : IpAddr
neighbour = v4 167840009

abbrev wide : IpNet
wide = record { address = v4 167837696; prefix = 16 }

abbrev narrow : IpNet
narrow = record { address = v4 167838208; prefix = 24 }

wide_made : new host 16 ≡ ok wide
unfolding new mask_address
wide_made = refl

narrow_made : new host 24 ≡ ok narrow
unfolding new mask_address
narrow_made = refl

contains-new_example : (contains wide neighbour ≡ true) ↔ SamePrefix 16 host neighbour
contains-new_example = contains-new host neighbour 16 wide wide_made (omega arith) (omega arith)

overlaps-new_example : (overlaps wide narrow ≡ true) ↔ SamePrefix (min 16 24) host host
overlaps-new_example =
    overlaps-new host host 16 24 wide narrow wide_made narrow_made (omega arith) (omega arith)

abbrev v6_default : IpNet
v6_default = record { address = v6 0; prefix = 0 }

abbrev route_list : List IpNet
route_list = narrow ∷ v6_default ∷ wide ∷ narrow ∷ []

canonical_routes_lem_example :
    Ascending (canonical_routes route_list)
    × ((net : IpNet) → Member net (canonical_routes route_list) ↔ Member net route_list)
canonical_routes_lem_example = canonical_routes_lem route_list
