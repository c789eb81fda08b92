-- ===== src/Export/Rows.antt =====
-- The rows of an export, with their fields, and the validity of a document, src/domain/export.rs.
use tale.Prelude.{ℕ, List, Bool, Option, Text, codes}

pub data ExportError : Type 0 where
  unsupported_collection secret_field invalid_timestamp unsupported_schema_version : ExportError
  invalid_row unsupported_csv_schema schema_row_mismatch : ExportError

pub data ExportCollection : Type 0 where
  devices users routes dns credential_metadata audit health_findings flow_logs : ExportCollection

abbrev pub schema_name : ExportCollection → Text
schema_name devices = codes "devices"
schema_name users = codes "users"
schema_name routes = codes "routes"
schema_name dns = codes "dns"
schema_name credential_metadata = codes "credentials_metadata"
schema_name audit = codes "audit"
schema_name health_findings = codes "health_findings"
schema_name flow_logs = codes "flow_logs"

abbrev pub row_kind : ExportCollection → Text
row_kind devices = codes "device"
row_kind users = codes "user"
row_kind routes = codes "route"
row_kind dns = codes "dns"
row_kind credential_metadata = codes "credential_metadata"
row_kind audit = codes "audit"
row_kind health_findings = codes "health_finding"
row_kind flow_logs = codes "flow_log"

pub record ExportSource : Type 0 where
  pub id : Text
  pub observed_at : ℕ

pub record ExportMetadata : Type 0 where
  pub schema : ExportCollection
  pub schema_version : ℕ
  pub tale_version : Text
  pub sources : List ExportSource
  pub observed_at : ℕ
  pub route : Text
  pub active_filter : Text
  pub active_sort : Text
  pub truncated : Bool
  pub complete : Bool
  pub export_timestamp : Option Text

pub data ExportRow : Type 0 where
  device_row :
      (id name : Text) (addresses : List Text) (source : Text) (observed_at : ℕ) → ExportRow
  user_row : (id name role source : Text) (observed_at : ℕ) → ExportRow
  route_row : (id cidr advertiser approval source : Text) (observed_at : ℕ) → ExportRow
  dns_row : (name value source : Text) (observed_at : ℕ) → ExportRow
  credential_row :
      (id credential_type status : Text) (created_at expires_at : Option ℕ) (source : Text)
      (observed_at : ℕ)
      → ExportRow
  audit_row : (event_id event_time action actor target source : Text) (observed_at : ℕ) → ExportRow
  finding_row :
      (id rule_id severity title : Text) (affected_resource_ids source_ids : List Text)
      (derived : Bool) (observed_at : ℕ)
      → ExportRow
  flow_row :
      (reporting_node logged start end traffic_class protocol source destination : Text)
      (tx_packets tx_bytes rx_packets rx_bytes : ℕ)
      → ExportRow

pub record ExportDocument : Type 0 where
  pub metadata : ExportMetadata
  pub rows : List ExportRow

abbrev pub collection : ExportRow → ExportCollection
collection (device_row id name addresses source observed_at) = devices
collection (user_row id name role source observed_at) = users
collection (route_row id cidr advertiser approval source observed_at) = routes
collection (dns_row name value source observed_at) = dns
collection (credential_row id credential_type status created_at expires_at source observed_at) =
    credential_metadata
collection (audit_row event_id event_time action actor target source observed_at) = audit
collection (finding_row id rule_id severity title affected source_ids derived observed_at) =
    health_findings
collection (flow_row node logged start end class protocol source destination a b c d) = flow_logs

-- The JSON values that the rows have.
pub data Value : Type 0 where
  null : Value
  string : Text → Value
  boolean : Bool → Value
  number : ℕ → Value
  array : List Text → Value
