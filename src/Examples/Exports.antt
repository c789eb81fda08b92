-- ===== src/Examples/Exports.antt =====
-- An exported document, src/domain/export.rs.
use tale.Prelude.{
  ℕ, ◌≡◌, refl, List, [], ◌∷◌, Bool, true, false, Option, none, some, Text, codes, text_eq, ◌++◌,
  map, length, All, ok, join,
}
use tale.Export.Rows.{users, ExportMetadata, ExportRow, user_row, ExportDocument}
use tale.Export.Validity.{validate, timestamp_is_invalid}
use tale.Export.Csv.{csv_for_rows, header, metadata_values, row_values}
use tale.Export.Reading.{read_csv}
use tale.Export.Table.{read_csv-csv_for_rows, validate-table}

-- A time library for which every time is the same day, and the JSON text of a list of plain strings.
abbrev has_time : ℕ → Bool
has_time value = true

abbrev format : ℕ → Option Text
format value = some (codes "2026-01-01T00:00:00Z")

abbrev is_utc_text : Text → Bool
is_utc_text value = true

abbrev serialize : List Text → Text
serialize values = codes "[\"" ++ (join values (codes "\",\"") ++ codes "\"]")

abbrev metadata : ExportMetadata
metadata = record {
  schema = users;
  schema_version = 1;
  tale_version = codes "tale/test";
  sources = record { id = codes "admin"; observed_at = 100 } ∷ [];
  observed_at = 100;
  route = codes "users";
  active_filter = codes "name:\"a, b\"";
  active_sort = codes "name";
  truncated = false;
  complete = true;
  export_timestamp = none;
}

abbrev rows : List ExportRow
rows = user_row (codes "u1") (codes "Ann \"A\"\rB") (codes "owner") (codes "admin") 100 ∷ []

abbrev document : ExportDocument
document = record { metadata = metadata; rows = rows }

read_csv-csv_for_rows_example :
    read_csv (csv_for_rows has_time format serialize metadata rows)
    ≡ header has_time format serialize metadata
      ∷ metadata_values has_time format serialize metadata
      ∷ map (row_values has_time format serialize metadata) rows
read_csv-csv_for_rows_example = read_csv-csv_for_rows has_time format serialize metadata rows

valid_document : validate has_time is_utc_text document ≡ ok tt
unfolding validate timestamp_is_invalid text_eq
valid_document = refl

validate-table_example :
    All
      (λ values. length values ≡ length (header has_time format serialize metadata))
      (read_csv (csv_for_rows has_time format serialize metadata rows))
validate-table_example =
    validate-table has_time format serialize is_utc_text document valid_document
