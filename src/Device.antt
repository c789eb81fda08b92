-- ===== src/Device.antt =====
-- Devices as the local daemon and the control plane report them, src/domain/device.rs, and what the
-- program derives from them. The JSON values of a device's posture are left out, since no modelled code
-- reads them.
pub mod Order
pub mod Ranks
pub mod Sorting
pub mod Composition
pub mod Counting
pub mod Correspondence
use tale.Prelude.{
  ℕ, ◌+◌, ◌-◌, ◌%◌, ◌/◌, List, [], ◌∷◌, ◌++◌, Bool, true, false, not, ◌&&◌, ◌||◌, Option, none,
  some, String, Text, codes, text_eq, is_empty, any, leb, ◌==◌, if◌then◌else◌, map,
}
use tale.Matching.{to_ascii_lowercase}

pub data Liveness : Type 0 where
  online offline unknown : Liveness

abbrev pub liveness_label : Liveness → Text
liveness_label online = codes "online"
liveness_label offline = codes "offline"
liveness_label unknown = codes "unknown"

pub data ConnectionPath : Type 0 where
  direct : (latency_ms : Option ℕ) → ConnectionPath
  derp : (region : Text) → ConnectionPath
  peer_relay : (peer : Text) → ConnectionPath
  idle no_path : ConnectionPath
  unknown_path : Text → ConnectionPath

abbrev pub path_label : ConnectionPath → Text
path_label (direct latency_ms) = codes "direct"
path_label (derp region) = codes "derp"
path_label (peer_relay peer) = codes "peer-relay"
path_label idle = codes "idle"
path_label (unknown_path value) = codes "unknown"
path_label no_path = codes "no-path"

pub data OperatingSystem : Type 0 where
  linux macos windows ios android : OperatingSystem
  unknown_os : Text → OperatingSystem

abbrev pub os_label : OperatingSystem → Text
os_label linux = codes "linux"
os_label macos = codes "macos"
os_label windows = codes "windows"
os_label ios = codes "ios"
os_label android = codes "android"
os_label (unknown_os value) = value

pub record DeviceCapabilities : Type 0 where
  pub exit_node : Bool
  pub exit_node_option : Bool
  pub subnet_router : Bool
  pub ssh : Bool
  pub funnel : Bool
  pub shared : Bool
  pub expired : Bool
  pub approved : Bool

-- A device's identifier is a text, as are the routes and addresses.
pub record Device : Type 0 where
  pub id : Text
  pub display_name : Text
  pub hostname : Text
  pub owner : Option Text
  pub owner_label : Option Text
  pub os : OperatingSystem
  pub version : Option Text
  pub liveness : Liveness
  pub path : ConnectionPath
  pub addresses : List Text
  pub advertised_routes : List Text
  pub tags : List Text
  pub last_seen : Option ℕ
  pub created_at : Option ℕ
  pub rx_bytes : Option ℕ
  pub tx_bytes : Option ℕ
  pub capabilities : DeviceCapabilities

pub record AdminDevice : Type 0 where
  pub stable_id : Text
  pub legacy_id : Option Text
  pub node_id : Option Text
  pub addresses : List Text
  pub user_id : Option Text
  pub name : Option Text
  pub hostname : Option Text
  pub client_version : Option Text
  pub update_available : Option Bool
  pub os : Option OperatingSystem
  pub created_at : Option ℕ
  pub connected_to_control : Option Bool
  pub last_seen : Option ℕ
  pub key_expiry_disabled : Option Bool
  pub expires_at : Option ℕ
  pub authorized : Option Bool
  pub is_external : Option Bool
  pub multiple_connections : Option Bool
  pub advertised_routes_returned : Bool
  pub advertised_routes : List Text
  pub enabled_routes_returned : Bool
  pub enabled_routes : List Text
  pub tags : List Text
  pub is_ephemeral : Option Bool
  pub ssh_enabled : Option Bool
  pub posture_present : Option Bool
  pub source_observed_at : ℕ

-- The text before the first dot, or all of it.
unfoldable pub magic_dns_device_name : Text → Text
magic_dns_device_name [] = []
magic_dns_device_name (c ∷ name) =
    let rest = magic_dns_device_name name in if c == b'.' then [] else c ∷ rest

unfoldable pub admin_display_name : AdminDevice → Text
admin_display_name d = elim d.name [
  | some name ↦ magic_dns_device_name name
  | none ↦ elim d.hostname [ some hostname ↦ hostname | none ↦ d.stable_id ]
]

-- `node_id.or(legacy_id)`.
abbrev pub exact_node_id : AdminDevice → Option Text
exact_node_id d = elim d.node_id [ some node_id ↦ some node_id | none ↦ d.legacy_id ]

abbrev pub listed : Option Text → List Text
listed none = []
listed (some v) = v ∷ []

unfoldable pub search_fields : Device → List Text
search_fields d =
    d.display_name
    ∷ d.hostname
    ∷ (listed d.owner ++ (listed d.owner_label ++ (d.tags ++ d.addresses)))

unfoldable pub property_matches : Device → Text → Bool
property_matches d value =
    let lower = map to_ascii_lowercase value in
    if text_eq lower (codes "exit-node")
    then d.capabilities.exit_node
    else if text_eq lower (codes "exit-node-option")
    then d.capabilities.exit_node_option
    else if text_eq lower (codes "subnet-router")
    then d.capabilities.subnet_router
    else if text_eq lower (codes "ssh")
    then d.capabilities.ssh
    else if text_eq lower (codes "shared")
    then d.capabilities.shared
    else false

-- `saturating_sub` is subtraction on ℕ.
unfoldable pub age_at : Device → ℕ → Option ℕ
age_at d now = elim d.last_seen [ none ↦ none | some last_seen ↦ some (now - last_seen) ]

abbrev pub is_exit_route : Text → Bool
is_exit_route route = text_eq route (codes "0.0.0.0/0") || text_eq route (codes "::/0")

abbrev pub or_false : Option Bool → Bool
or_false none = false
or_false (some b) = b

abbrev pub or_true : Option Bool → Bool
or_true none = true
or_true (some b) = b

abbrev pub reported_liveness : Option Bool → Liveness
reported_liveness (some true) = online
reported_liveness (some false) = offline
reported_liveness none = unknown

unfoldable pub to_display_device : AdminDevice → Device
to_display_device d = record {
  id = d.stable_id;
  display_name = admin_display_name d;
  hostname = elim d.hostname [ some hostname ↦ hostname | none ↦ admin_display_name d ];
  owner = d.user_id;
  owner_label = d.user_id;
  os = elim d.os [ some os ↦ os | none ↦ unknown_os (codes "not returned") ];
  version = d.client_version;
  liveness = reported_liveness d.connected_to_control;
  path = unknown_path (codes "admin observation");
  addresses = d.addresses;
  advertised_routes = d.advertised_routes;
  tags = d.tags;
  last_seen = d.last_seen;
  created_at = d.created_at;
  rx_bytes = none;
  tx_bytes = none;
  capabilities = record {
    exit_node = any is_exit_route d.advertised_routes;
    exit_node_option = any is_exit_route d.enabled_routes;
    subnet_router = d.advertised_routes_returned && not (is_empty d.advertised_routes);
    ssh = or_false d.ssh_enabled;
    funnel = false;
    shared = or_false d.is_external;
    expired = elim d.expires_at [ none ↦ false | some expiry ↦ leb expiry d.source_observed_at ];
    approved = or_true d.authorized;
  };
}
