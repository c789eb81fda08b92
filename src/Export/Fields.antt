-- ===== src/Export/Fields.antt =====
-- The fields of an exported row, src/domain/export.rs.
use tale.Prelude.{
  ℕ, ◌-◌, ◌^◌, List, [], ◌∷◌, Bool, true, false, ◌&&◌, ◌||◌, Option, none, some, ltb, leb, ◌==◌,
  if◌then◌else◌, Text, codes, text_eq,
}
use tale.Export.Rows.{
  ExportRow, device_row, user_row, route_row, dns_row, credential_row, audit_row, finding_row,
  flow_row, Value, null, string, boolean, number, array,
}

-- `<=` on strings, which is that of their characters.
abbrev pub text_le : Text → Text → Bool
text_le [] w = true
text_le (c ∷ v) [] = false
text_le (c ∷ v) (d ∷ w) = ltb c d || c == d && text_le v w

abbrev insert_sorted : Text → List Text → List Text
insert_sorted v [] = v ∷ []
insert_sorted v (w ∷ ws) =
    let rest = insert_sorted v ws in if text_le v w then v ∷ w ∷ ws else w ∷ rest

abbrev sort_texts : List Text → List Text
sort_texts [] = []
sort_texts (v ∷ vs) = insert_sorted v (sort_texts vs)

-- `dedup`: a text that follows itself is dropped.
abbrev dedup : List Text → List Text
dedup [] = []
dedup (v ∷ []) = v ∷ []
dedup (v ∷ w ∷ ws) = let rest = dedup (w ∷ ws) in if text_eq v w then rest else v ∷ rest

abbrev pub compact_list : List Text → Value
compact_list values = array (dedup (sort_texts values))

abbrev epoch : Text
epoch = codes "1970-01-01T00:00:00Z"

-- `i64::try_from`.
abbrev pub fits_i64 : ℕ → Bool
fits_i64 value = leb value (2 ^ 63 - 1)

module _ (has_time : ℕ → Bool) (format : ℕ → Option Text) where
  unfoldable pub timestamp_text : ℕ → Text
  timestamp_text value =
      if fits_i64 value && has_time value
      then elim (format value) [ none ↦ epoch | some text ↦ text ]
      else epoch

  abbrev pub timestamp_value : ℕ → Value
  timestamp_value value = string (timestamp_text value)

  abbrev optional_time : Option ℕ → Value
  optional_time none = null
  optional_time (some value) = timestamp_value value

  abbrev pub fields : ExportRow → List (Text × Value)
  fields (device_row id name addresses source observed_at) =
      (codes "id", string id)
      ∷ (codes "name", string name)
      ∷ (codes "addresses", compact_list addresses)
      ∷ (codes "source", string source)
      ∷ (codes "observed_at", timestamp_value observed_at)
      ∷ []
  fields (user_row id name role source observed_at) =
      (codes "id", string id)
      ∷ (codes "name", string name)
      ∷ (codes "role", string role)
      ∷ (codes "source", string source)
      ∷ (codes "observed_at", timestamp_value observed_at)
      ∷ []
  fields (route_row id cidr advertiser approval source observed_at) =
      (codes "id", string id)
      ∷ (codes "cidr", string cidr)
      ∷ (codes "advertiser", string advertiser)
      ∷ (codes "approval", string approval)
      ∷ (codes "source", string source)
      ∷ (codes "observed_at", timestamp_value observed_at)
      ∷ []
  fields (dns_row name value source observed_at) =
      (codes "name", string name)
      ∷ (codes "value", string value)
      ∷ (codes "source", string source)
      ∷ (codes "observed_at", timestamp_value observed_at)
      ∷ []
  fields (credential_row id credential_type status created_at expires_at source observed_at) =
      (codes "id", string id)
      ∷ (codes "credential_type", string credential_type)
      ∷ (codes "status", string status)
      ∷ (codes "created_at", optional_time created_at)
      ∷ (codes "expires_at", optional_time expires_at)
      ∷ (codes "source", string source)
      ∷ (codes "observed_at", timestamp_value observed_at)
      ∷ []
  fields (audit_row event_id event_time action actor target source observed_at) =
      (codes "event_id", string event_id)
      ∷ (codes "event_time", string event_time)
      ∷ (codes "action", string action)
      ∷ (codes "actor", string actor)
      ∷ (codes "target", string target)
      ∷ (codes "source", string source)
      ∷ (codes "observed_at", timestamp_value observed_at)
      ∷ []
  fields (finding_row id rule_id severity title affected source_ids derived observed_at) =
      (codes "id", string id)
      ∷ (codes "rule_id", string rule_id)
      ∷ (codes "severity", string severity)
      ∷ (codes "title", string title)
      ∷ (codes "affected_resource_ids", compact_list affected)
      ∷ (codes "source_ids", compact_list source_ids)
      ∷ (codes "derived", boolean derived)
      ∷ (codes "observed_at", timestamp_value observed_at)
      ∷ []
  fields (flow_row node logged start end class protocol source destination a b c d) =
      (codes "reporting_node", string node)
      ∷ (codes "logged", string logged)
      ∷ (codes "start", string start)
      ∷ (codes "end", string end)
      ∷ (codes "traffic_class", string class)
      ∷ (codes "protocol", string protocol)
      ∷ (codes "source", string source)
      ∷ (codes "destination", string destination)
      ∷ (codes "tx_packets", number a)
      ∷ (codes "tx_bytes", number b)
      ∷ (codes "rx_packets", number c)
      ∷ (codes "rx_bytes", number d)
      ∷ []
