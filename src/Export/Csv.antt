-- ===== src/Export/Csv.antt =====
-- The CSV text of a document, src/domain/export.rs.
use tale.Prelude.{
  ℕ, List, [], ◌∷◌, ◌++◌, Bool, true, false, ◌||◌, Option, none, some, leb, if◌then◌else◌, Text,
  codes, text_eq, any, map, join, decimal, ◌==◌,
}
use tale.Export.Rows.{
  ExportCollection, devices, users, routes, dns, credential_metadata, audit, health_findings,
  flow_logs, schema_name, row_kind, ExportSource, ExportMetadata, ExportRow, Value, null, string,
  boolean, number, array,
}
use tale.Export.Fields.{timestamp_text, fields, text_le}

abbrev pub csv_columns : ExportCollection → List Text
csv_columns devices =
    codes "id" ∷ codes "name" ∷ codes "addresses" ∷ codes "source" ∷ codes "observed_at" ∷ []
csv_columns users =
    codes "id" ∷ codes "name" ∷ codes "role" ∷ codes "source" ∷ codes "observed_at" ∷ []
csv_columns routes =
    codes "id"
    ∷ codes "cidr"
    ∷ codes "advertiser"
    ∷ codes "approval"
    ∷ codes "source"
    ∷ codes "observed_at"
    ∷ []
csv_columns dns = codes "name" ∷ codes "value" ∷ codes "source" ∷ codes "observed_at" ∷ []
csv_columns credential_metadata =
    codes "id"
    ∷ codes "credential_type"
    ∷ codes "status"
    ∷ codes "created_at"
    ∷ codes "expires_at"
    ∷ codes "source"
    ∷ codes "observed_at"
    ∷ []
csv_columns audit =
    codes "event_id"
    ∷ codes "event_time"
    ∷ codes "action"
    ∷ codes "actor"
    ∷ codes "target"
    ∷ codes "source"
    ∷ codes "observed_at"
    ∷ []
csv_columns health_findings =
    codes "id"
    ∷ codes "rule_id"
    ∷ codes "severity"
    ∷ codes "title"
    ∷ codes "affected_resource_ids"
    ∷ codes "source_ids"
    ∷ codes "derived"
    ∷ codes "observed_at"
    ∷ []
csv_columns flow_logs =
    codes "reporting_node"
    ∷ codes "logged"
    ∷ codes "start"
    ∷ codes "end"
    ∷ codes "traffic_class"
    ∷ codes "protocol"
    ∷ codes "source"
    ∷ codes "destination"
    ∷ codes "tx_packets"
    ∷ codes "tx_bytes"
    ∷ codes "rx_packets"
    ∷ codes "rx_bytes"
    ∷ []

abbrev pub metadata_columns : List Text
metadata_columns =
    codes "_schema_version"
    ∷ codes "_tale_version"
    ∷ codes "_truncated"
    ∷ codes "_complete"
    ∷ codes "_export_timestamp"
    ∷ []

abbrev pub leading_columns : List Text
leading_columns =
    codes "_row_kind"
    ∷ codes "_schema"
    ∷ codes "_observed_at"
    ∷ codes "_sources"
    ∷ codes "_filter"
    ∷ codes "_sort"
    ∷ []

abbrev or_empty : Option Text → Text
or_empty none = []
or_empty (some value) = value

abbrev bool_text : Bool → Text
bool_text true = codes "true"
bool_text false = codes "false"

-- `value.contains([',', '"', '\n', '\r'])`.
abbrev pub is_special : ℕ → Bool
is_special c = c == b',' || c == b'"' || c == b'\n' || c == b'\r'

abbrev pub double_quotes : Text → Text
double_quotes [] = []
double_quotes (c ∷ v) = if c == b'"' then b'"' ∷ b'"' ∷ double_quotes v else c ∷ double_quotes v

unfoldable pub csv_escape : Text → Text
csv_escape value = if any is_special value then b'"' ∷ (double_quotes value ++ b'"' ∷ []) else value

-- The sources in the order of their identifiers and times.
abbrev source_le : ExportSource → ExportSource → Bool
source_le a b = if text_eq a.id b.id then leb a.observed_at b.observed_at else text_le a.id b.id

abbrev insert_source : ExportSource → List ExportSource → List ExportSource
insert_source a [] = a ∷ []
insert_source a (b ∷ bs) =
    let rest = insert_source a bs in if source_le a b then a ∷ b ∷ bs else b ∷ rest

abbrev sort_sources : List ExportSource → List ExportSource
sort_sources [] = []
sort_sources (a ∷ rest) = insert_source a (sort_sources rest)

abbrev pub line : List Text → Text
line values = join (map csv_escape values) (codes ",") ++ codes "\n"

abbrev pub lines : List (List Text) → Text
lines [] = []
lines (values ∷ rest) = line values ++ lines rest

module _ (has_time : ℕ → Bool) (format : ℕ → Option Text) (serialize : List Text → Text) where
  unfoldable pub csv_value : Value → Text
  csv_value null = []
  csv_value (string value) = value
  csv_value (boolean value) = bool_text value
  csv_value (number value) = decimal value
  csv_value (array values) = serialize values

  abbrev pub source_ids : ExportMetadata → Text
  source_ids m = join (map (λ (s : ExportSource). s.id) (sort_sources m.sources)) (codes "|")

  unfoldable pub header : ExportMetadata → List Text
  header m = leading_columns ++ (csv_columns m.schema ++ metadata_columns)

  unfoldable pub metadata_values : ExportMetadata → List Text
  metadata_values m =
      (codes "metadata"
        ∷ schema_name m.schema
        ∷ timestamp_text has_time format m.observed_at
        ∷ source_ids m
        ∷ m.active_filter
        ∷ m.active_sort
        ∷ [])
      ++ (map (λ column. []) (csv_columns m.schema)
          ++ (decimal m.schema_version
              ∷ m.tale_version
              ∷ bool_text m.truncated
              ∷ bool_text m.complete
              ∷ or_empty m.export_timestamp
              ∷ []))

  unfoldable pub row_values : ExportMetadata → ExportRow → List Text
  row_values m row =
      (row_kind m.schema
        ∷ schema_name m.schema
        ∷ timestamp_text has_time format m.observed_at
        ∷ source_ids m
        ∷ m.active_filter
        ∷ m.active_sort
        ∷ [])
      ++ (map (λ field. csv_value field.1) (fields has_time format row)
          ++ map (λ column. []) metadata_columns)

  -- The header is written as it is; the other lines are escaped.
  unfoldable pub csv_for_rows : ExportMetadata → List ExportRow → Text
  csv_for_rows m rows =
      join (header m) (codes ",")
      ++ (codes "\n" ++ (line (metadata_values m) ++ lines (map (row_values m) rows)))
