-- ===== src/Export/Table.antt =====
-- That the CSV text of src/domain/export.rs is a table that can be read back.
use tale.Prelude.{
  ℕ, suc, ◌≡◌, refl, ap, sym, ◌∙◌, List, [], ◌∷◌, ◌++◌, Bool, true, false, not, Option, Text, codes,
  any, map, join, length, length-append, append_assoc, arith, Bool-cases, inl, inr, is_empty, All,
  text_eq, ok,
}
use tale.Export.Rows.{
  ExportCollection, devices, users, routes, dns, credential_metadata, audit, health_findings,
  flow_logs, ExportMetadata, ExportRow, collection, device_row, user_row, route_row, dns_row,
  credential_row, audit_row, finding_row, flow_row, ExportDocument,
}
use tale.Export.Fields.{fields}
use tale.Export.Validity.{is_collection, validate}
use tale.Export.Csv.{
  leading_columns, metadata_columns, csv_value, csv_columns, csv_escape, line, lines, csv_for_rows,
  header, metadata_values, row_values,
}
use tale.Export.Reading.{Reader, read_csv, read_lines}

map-same : (vs : List Text) → All (λ v. csv_escape v ≡ v) vs → map csv_escape vs ≡ vs
map-same [] h = refl
map-same (v ∷ vs) h = rw (h.0, map-same vs h.1) refl

is_collection-same : (a b : ExportCollection) → is_collection a b ≡ true → a ≡ b
unfolding text_eq
is_collection-same devices devices h = refl
is_collection-same devices _ h = absurd (ground arith)
is_collection-same users users h = refl
is_collection-same users _ h = absurd (ground arith)
is_collection-same routes routes h = refl
is_collection-same routes _ h = absurd (ground arith)
is_collection-same dns dns h = refl
is_collection-same dns _ h = absurd (ground arith)
is_collection-same credential_metadata credential_metadata h = refl
is_collection-same credential_metadata _ h = absurd (ground arith)
is_collection-same audit audit h = refl
is_collection-same audit _ h = absurd (ground arith)
is_collection-same health_findings health_findings h = refl
is_collection-same health_findings _ h = absurd (ground arith)
is_collection-same flow_logs flow_logs h = refl
is_collection-same flow_logs _ h = absurd (ground arith)

length-map {ℓ κ} :
    {A : Type ℓ} {B : Type κ} (f : A → B) (xs : List A) → length (map f xs) ≡ length xs
length-map f [] = refl
length-map f (x ∷ xs) = ap suc (length-map f xs)

-- Two lists of one length before others of one length.
append_fits :
    {A B : Type 0} (xs xs' : List A) (ys ys' : List B)
    → length xs ≡ length ys
    → length xs' ≡ length ys'
    → length (xs ++ xs') ≡ length (ys ++ ys')
append_fits xs xs' ys ys' h h' = omega (arith, length-append xs xs', length-append ys ys', h, h')

module _ (has_time : ℕ → Bool) (format : ℕ → Option Text) (serialize : List Text → Text) where
  -- The names of the columns need no quotes.
  header-same :
      (m : ExportMetadata)
      → map csv_escape (header has_time format serialize m) ≡ header has_time format serialize m
  unfolding header csv_escape
  header-same m =
      elim m.schema
        as (λ c.
          map csv_escape (leading_columns ++ (csv_columns c ++ metadata_columns))
          ≡ leading_columns ++ (csv_columns c ++ metadata_columns)) [
            | devices ↦ refl
            | users ↦ refl
            | routes ↦ refl
            | dns ↦ refl
            | credential_metadata ↦ refl
            | audit ↦ refl
            | health_findings ↦ refl
            | flow_logs ↦ refl
          ]

  csv-lines :
      (m : ExportMetadata) (rows : List ExportRow)
      → csv_for_rows has_time format serialize m rows
        ≡ lines (
            header has_time format serialize m
            ∷ metadata_values has_time format serialize m
            ∷ map (row_values has_time format serialize m) rows)
  unfolding csv_for_rows
  csv-lines m rows =
      let names : List Text = header has_time format serialize m in
      let rest : Text =
        line (metadata_values has_time format serialize m)
        ++ lines (map (row_values has_time format serialize m) rows) in
      sym (append_assoc (join names (codes ",")) (codes "\n") rest)
      ∙ ap (λ cs. join cs (codes ",") ++ codes "\n" ++ rest) (sym (header-same m))

  values_full :
      (m : ExportMetadata) (rows : List ExportRow)
      → All (λ values. is_empty values ≡ false) (map (row_values has_time format serialize m) rows)
  unfolding row_values
  values_full m [] = tt
  values_full m (row ∷ rows) = (refl, values_full m rows)

  -- A reader of CSV, for which outside quotes a line ends at a line feed, a carriage return or both,
  -- gets back from the text of a document the names of the columns, the values of the metadata and the
  -- values of each row, whatever characters they have.
  pub read_csv-csv_for_rows :
      (m : ExportMetadata) (rows : List ExportRow)
      → read_csv (csv_for_rows has_time format serialize m rows)
        ≡ header has_time format serialize m
          ∷ metadata_values has_time format serialize m
          ∷ map (row_values has_time format serialize m) rows
  unfolding header metadata_values
  read_csv-csv_for_rows m rows =
      ap read_csv (csv-lines m rows)
      ∙ ap (λ (r : Reader). r.records)
          (read_lines
            (header has_time format serialize m
              ∷ metadata_values has_time format serialize m
              ∷ map (row_values has_time format serialize m) rows)
            [] (refl, (refl, values_full m rows)))

  -- The fields of a row are the columns of its collection.
  fields-csv_columns :
      (row : ExportRow) → map (λ f. f.0) (fields has_time format row) ≡ csv_columns (collection row)
  fields-csv_columns (device_row id name addresses source observed_at) = refl
  fields-csv_columns (user_row id name role source observed_at) = refl
  fields-csv_columns (route_row id cidr advertiser approval source observed_at) = refl
  fields-csv_columns (dns_row name value source observed_at) = refl
  fields-csv_columns (credential_row id type status created expires source observed_at) = refl
  fields-csv_columns (audit_row event_id event_time action actor target source observed_at) = refl
  fields-csv_columns (finding_row id rule severity title affected sources derived observed_at) =
      refl
  fields-csv_columns (flow_row node logged start end class protocol source destination a b c d) =
      refl

  -- A line of a row has as many fields as the header has names.
  row_fits :
      (m : ExportMetadata) (row : ExportRow)
      → collection row ≡ m.schema
      → length (row_values has_time format serialize m row)
        ≡ length (header has_time format serialize m)
  unfolding row_values header
  row_fits m row same =
      let values : List Text =
        map (λ f. csv_value has_time format serialize f.1) (fields has_time format row) in
      let as_many : length values ≡ length (csv_columns m.schema) =
        length-map (λ f. csv_value has_time format serialize f.1) (fields has_time format row)
        ∙ sym (length-map (λ f. f.0) (fields has_time format row))
        ∙ ap length (fields-csv_columns row)
        ∙ ap (λ c. length (csv_columns c)) same in
      ap (λ n. suc (suc (suc (suc (suc (suc n))))))
        (append_fits values (map (λ column. []) metadata_columns) (csv_columns m.schema)
          metadata_columns as_many refl)

  metadata_fits :
      (m : ExportMetadata)
      → length (metadata_values has_time format serialize m)
        ≡ length (header has_time format serialize m)
  unfolding metadata_values header
  metadata_fits m =
      ap (λ n. suc (suc (suc (suc (suc (suc n))))))
        (append_fits (map (λ column. []) (csv_columns m.schema)) _ (csv_columns m.schema)
          metadata_columns (length-map (λ column. []) (csv_columns m.schema)) refl)

  same_collections :
      (is_utc_text : Text → Bool) (document : ExportDocument)
      → validate has_time is_utc_text document ≡ ok tt
      → any (λ row. not (is_collection (collection row) document.metadata.schema)) document.rows
        ≡ false
  unfolding validate
  same_collections is_utc_text document valid =
      elim (Bool-cases (
        any (λ row. not (is_collection (collection row) document.metadata.schema)) document.rows)) [
          | inl e ↦ absurd (ground (arith, e, valid))
          | inr e ↦ e
        ]

  rows_fit :
      (m : ExportMetadata) (rows : List ExportRow)
      → any (λ row. not (is_collection (collection row) m.schema)) rows ≡ false
      → All
          (λ values. length values ≡ length (header has_time format serialize m))
          (map (row_values has_time format serialize m) rows)
  rows_fit m [] h = tt
  rows_fit m (row ∷ rows) h = (
    row_fits m row (is_collection-same (collection row) m.schema (ground arith)),
    rows_fit m rows (ground arith),
  )

  -- The text of a valid document is a table: a reader of CSV, for which outside quotes a line ends at a
  -- line feed, a carriage return or both, gets as many fields in every line as there are names of
  -- columns in the first.
  pub validate-table :
      (is_utc_text : Text → Bool) (document : ExportDocument)
      → validate has_time is_utc_text document ≡ ok tt
      → All
          (λ values. length values ≡ length (header has_time format serialize document.metadata))
          (read_csv (csv_for_rows has_time format serialize document.metadata document.rows))
  unfolding validate
  validate-table is_utc_text document valid =
      let m : ExportMetadata = document.metadata in
      rw (read_csv-csv_for_rows m document.rows) (
        refl,
        (metadata_fits m, rows_fit m document.rows (same_collections is_utc_text document valid)),
      )
