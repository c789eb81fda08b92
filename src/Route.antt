-- ===== src/Route.antt =====
-- src/domain/route.rs: networks, their containment and order, and the requests about routes. An
-- address is the number that its bits write. The standard library's socket addresses are an address
-- and a port. Texts of addresses, which the standard library parses and prints, are not modelled.
pub mod Masks
pub mod Containment
pub mod Overlap
pub mod Order
pub mod Canonical
use Prim.Native.Nat.{bit_and}
use tale.Prelude.{
  ℕ, ◌-◌, ◌*◌, ◌^◌, ◌%◌, Text, codes, Option, List, [], Bool, false, ◌&&◌, ◌||◌, ltb, ◌==◌,
  if◌then◌else◌, is_some, not,
}

pub data IpAddr : Type 0 where
  v4 v6 : ℕ → IpAddr

pub record SocketAddr : Type 0 where
  pub ip : IpAddr
  pub port : ℕ

-- The errors of `IpNet::new`, with the prefix that was refused.
pub data RouteError : Type 0 where
  invalid_prefix : ℕ → RouteError

pub record IpNet : Type 0 where
  pub address : IpAddr
  pub prefix : ℕ

-- `MAX << (width - prefix)` on words of that width.
abbrev pub mask_of : ℕ → ℕ → ℕ
mask_of width prefix = if prefix == 0 then 0 else (2 ^ width - 1) * 2 ^ (width - prefix) % 2 ^ width

unfoldable pub mask_address : IpAddr → ℕ → IpAddr
mask_address (v4 bits) prefix = v4 (bit_and bits (mask_of 32 prefix))
mask_address (v6 bits) prefix = v6 (bit_and bits (mask_of 128 prefix))

abbrev pub max_prefix : IpAddr → ℕ
max_prefix (v4 _) = 32
max_prefix (v6 _) = 128

pub data Result {ℓ} (A : Type ℓ) : Type ℓ where
  ok : A → Result A
  err : RouteError → Result A

unfoldable pub new : IpAddr → ℕ → Result IpNet
new address prefix =
    if ltb (max_prefix address) prefix
    then err (invalid_prefix prefix)
    else ok (record { address = mask_address address prefix; prefix = prefix })

unfoldable pub addr_eq : IpAddr → IpAddr → Bool
addr_eq (v4 a) (v4 b) = a == b
addr_eq (v6 a) (v6 b) = a == b
addr_eq (v4 a) (v6 b) = false
addr_eq (v6 a) (v4 b) = false

-- `match (self.address, address)`.
contains_pair : IpAddr → IpAddr → ℕ → Bool
unfolding addr_eq
contains_pair (v4 network) (v4 value) prefix = addr_eq (mask_address (v4 value) prefix) (v4 network)
contains_pair (v6 network) (v6 value) prefix = addr_eq (mask_address (v6 value) prefix) (v6 network)
contains_pair _ _ prefix = false

unfoldable pub contains : IpNet → IpAddr → Bool
unfolding contains_pair
contains net address = contains_pair net.address address net.prefix

unfoldable pub overlaps_pair : IpAddr → IpAddr → Bool → Bool
overlaps_pair (v4 _) (v4 _) either = either
overlaps_pair (v6 _) (v6 _) either = either
overlaps_pair _ _ either = false

unfoldable pub overlaps : IpNet → IpNet → Bool
unfolding overlaps_pair
overlaps net other =
    overlaps_pair net.address other.address
      (contains net other.address || contains other net.address)

pub data ExitNodeSelection : Type 0 where
  no_exit : ExitNodeSelection
  device : Text → Text → ExitNodeSelection
  auto_any : ExitNodeSelection

pub record ExitNodeRequest : Type 0 where
  pub selection : ExitNodeSelection
  pub allow_lan_access : Bool

unfoldable pub target : ExitNodeRequest → Text
target request = elim request.selection [
  | no_exit ↦ []
  | device device_id chosen ↦ chosen
  | auto_any ↦ codes "auto:any"
]

pub record AdvertisementRequest : Type 0 where
  pub routes : Option (List IpNet)
  pub advertise_exit_node : Option Bool
  pub advertise_connector : Option Bool
  pub relay_server_port : Option (Option ℕ)
  pub relay_server_static_endpoints : Option (List SocketAddr)
  pub accept_mac_app_connector_risk : Bool

unfoldable pub is_empty_request : AdvertisementRequest → Bool
is_empty_request r =
    not (is_some r.routes)
    && (not (is_some r.advertise_exit_node)
        && (not (is_some r.advertise_connector)
            && (not (is_some r.relay_server_port)
                && not (is_some r.relay_server_static_endpoints))))
