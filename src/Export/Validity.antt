-- ===== src/Export/Validity.antt =====
-- When a document may be exported, src/domain/export.rs.
use tale.Prelude.{
  ℕ, Bool, false, not, ◌&&◌, ◌||◌, ◌==◌, if◌then◌else◌, Text, text_eq, is_empty, is_some_and, any,
  Result, ok, err,
}
use tale.Export.Rows.{
  ExportError, invalid_timestamp, unsupported_schema_version, invalid_row, schema_row_mismatch,
  ExportCollection, schema_name, ExportSource, ExportRow, device_row, user_row, route_row, dns_row,
  credential_row, audit_row, finding_row, flow_row, ExportDocument, collection,
}
use tale.Export.Fields.{fits_i64}

abbrev pub is_collection : ExportCollection → ExportCollection → Bool
is_collection a b = text_eq (schema_name a) (schema_name b)

module _ (has_time : ℕ → Bool) (is_utc_text : Text → Bool) where
  unfoldable pub timestamp_is_invalid : ℕ → Bool
  timestamp_is_invalid value = not (fits_i64 value && has_time value)

  abbrev timestamp_text_is_invalid : Text → Bool
  timestamp_text_is_invalid value = not (is_utc_text value)

  abbrev row_has_invalid_time : ExportRow → Bool
  row_has_invalid_time (device_row id name addresses source observed_at) =
      timestamp_is_invalid observed_at
  row_has_invalid_time (user_row id name role source observed_at) = timestamp_is_invalid observed_at
  row_has_invalid_time (route_row id cidr advertiser approval source observed_at) =
      timestamp_is_invalid observed_at
  row_has_invalid_time (dns_row name value source observed_at) = timestamp_is_invalid observed_at
  row_has_invalid_time
        (credential_row id credential_type status created_at expires_at source observed_at) =
      is_some_and created_at timestamp_is_invalid
      || is_some_and expires_at timestamp_is_invalid
      || timestamp_is_invalid observed_at
  row_has_invalid_time (audit_row event_id event_time action actor target source observed_at) =
      timestamp_text_is_invalid event_time || timestamp_is_invalid observed_at
  row_has_invalid_time
        (finding_row id rule_id severity title affected source_ids derived observed_at) =
      timestamp_is_invalid observed_at
  row_has_invalid_time (flow_row node logged start end class protocol source destination a b c d) =
      timestamp_text_is_invalid logged
      || timestamp_text_is_invalid start
      || timestamp_text_is_invalid end

  abbrev row_has_no_id : ExportRow → Bool
  row_has_no_id (device_row id name addresses source observed_at) = is_empty id
  row_has_no_id (user_row id name role source observed_at) = is_empty id
  row_has_no_id (route_row id cidr advertiser approval source observed_at) = false
  row_has_no_id (dns_row name value source observed_at) = false
  row_has_no_id
        (credential_row id credential_type status created_at expires_at source observed_at) =
      is_empty id
  row_has_no_id (audit_row event_id event_time action actor target source observed_at) =
      is_empty event_id
  row_has_no_id (finding_row id rule_id severity title affected source_ids derived observed_at) =
      is_empty id
  row_has_no_id (flow_row node logged start end class protocol source destination a b c d) =
      is_empty node

  unfoldable pub validate : ExportDocument → Result ExportError (Unit {0})
  validate document =
      if not (document.metadata.schema_version == 1)
      then err unsupported_schema_version
      else if is_some_and document.metadata.export_timestamp timestamp_text_is_invalid
          || timestamp_is_invalid document.metadata.observed_at
          || any (λ (source : ExportSource). timestamp_is_invalid source.observed_at)
              document.metadata.sources
      then err invalid_timestamp
      else if any (λ row. not (is_collection (collection row) document.metadata.schema))
          document.rows
      then err schema_row_mismatch
      else if any row_has_invalid_time document.rows
      then err invalid_timestamp
      else if any row_has_no_id document.rows
      then err invalid_row
      else ok tt
