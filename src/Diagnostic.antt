-- ===== src/Diagnostic.antt =====
-- The observations of diagnostics, src/domain/diagnostic.rs, and how src/app/local_reducer.rs keeps them
-- with a diagnostic that runs. Of a local snapshot and a local device there is what these functions use.
use tale.Prelude.{
  ℕ, List, [], ◌∷◌, ◌++◌, Bool, Option, none, some, Text, text_eq, find, lookup, put, number_key,
  if◌then◌else◌,
}

pub data DiagnosticPath : Type 0 where
  direct : DiagnosticPath
  derp : (region : Option Text) → DiagnosticPath
  peer_relay : (peer : Option Text) → DiagnosticPath
  unknown : DiagnosticPath

pub record PingSample : Type 0 where
  pub sequence : ℕ
  pub observed_at : ℕ
  pub latency_ms : Option ℕ
  pub path : DiagnosticPath
  pub endpoint_or_region : Option Text
  pub raw_line : Text

pub record PingSummary : Type 0 where
  pub expected : Option ℕ
  pub received : ℕ
  pub loss_percent : Option ℕ
  pub minimum_ms : Option ℕ
  pub average_ms : Option ℕ
  pub maximum_ms : Option ℕ
  pub last_path : Option DiagnosticPath
  pub reached_direct : Bool
  pub parsed_samples : ℕ

pub record DerpLatency : Type 0 where
  pub region_code : Text
  pub region_name : Option Text
  pub latency_ms : Option ℕ

pub record NetcheckObservation : Type 0 where
  pub udp : Option Bool
  pub ipv4 : Option Bool
  pub ipv6 : Option Bool
  pub mapping_varies_by_destination : Option Bool
  pub hairpinning : Option Bool
  pub port_mapping : List Text
  pub nearest_derp : Option Text
  pub derp_latency : List DerpLatency
  pub sensitive_addresses : List Text
  pub observed_at : Option ℕ

pub record DnsStatus : Type 0 where
  pub forwarder_enabled : Option Bool
  pub magic_dns_enabled : Option Bool
  pub magic_dns_suffix : Option Text
  pub current_node_dns_name : Option Text
  pub resolvers : List Text
  pub split_routes : List (Text × List Text)
  pub search_domains : List Text
  pub cert_domains : List Text
  pub exit_node_filtered_set : List Text
  pub system_nameservers : List Text
  pub system_search_domains : List Text
  pub system_match_domains : List Text
  pub observed_at : ℕ

pub record DnsAnswer : Type 0 where
  pub value : Text
  pub record_type : Option Text
  pub ttl : Option ℕ
  pub raw_detail : Option Text

pub record DnsQueryResult : Type 0 where
  pub name : Text
  pub record_type : Text
  pub answers : List DnsAnswer
  pub resolvers : List Text
  pub latency_ms : Option ℕ
  pub result_class : Text
  pub observed_at : ℕ
  pub raw_detail : Text

pub record WhoisResult : Type 0 where
  pub query : Text
  pub machine_id : Option Text
  pub machine_name : Option Text
  pub addresses : List Text
  pub tags : List Text
  pub user_identity : Option Text
  pub capabilities : List Text
  pub observed_at : ℕ
  pub raw_detail : Text

pub data DiagnosticResult : Type 0 where
  ping : PingSummary → DiagnosticResult
  netcheck_result : NetcheckObservation → DiagnosticResult
  dns_status : DnsStatus → DiagnosticResult
  dns_query : DnsQueryResult → DiagnosticResult
  whois : WhoisResult → DiagnosticResult

pub record DiagnosticState : Type 0 where
  pub kind : Text
  pub samples : List PingSample
  pub netcheck : Option NetcheckObservation
  pub result : Option DiagnosticResult
  pub linked_device_id : Option Text

pub record LocalDevice : Type 0 where
  pub id : Text

pub record LocalSnapshot : Type 0 where
  pub self_node : LocalDevice
  pub peers : List LocalDevice

-- What a running diagnostic has observed since.
abbrev pub observe :
    Option PingSample → Option NetcheckObservation → DiagnosticState → DiagnosticState
observe sample netcheck state = record state {
  samples = elim sample [ none ↦ state.samples | some s ↦ state.samples ++ s ∷ [] ];
  netcheck = elim netcheck [ none ↦ state.netcheck | some n ↦ some n ];
}

-- The device of the snapshot that has the identifier, this machine before its peers.
abbrev pub device_in : LocalSnapshot → Text → Option Text
device_in snapshot id =
    if text_eq snapshot.self_node.id id
    then some snapshot.self_node.id
    else elim (find (λ (device : LocalDevice). text_eq device.id id) snapshot.peers) [
      | none ↦ none
      | some device ↦ some device.id
    ]

unfoldable pub linked_device : Option LocalSnapshot → DiagnosticResult → Option Text
linked_device snapshot (whois w) = elim w.machine_id [
  | none ↦ none
  | some id ↦ elim snapshot [ none ↦ none | some s ↦ device_in s id ]
]
linked_device snapshot _ = none

-- `get_mut` and a change of what it finds.
abbrev pub change_state :
    ℕ
    → (DiagnosticState → DiagnosticState)
    → List (ℕ × DiagnosticState)
    → List (ℕ × DiagnosticState)
change_state task_id change states = elim (lookup task_id states) [
  | none ↦ states
  | some state ↦ put task_id (change state) states
]
