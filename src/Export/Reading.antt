-- ===== src/Export/Reading.antt =====
-- What a reader of CSV gets back from the text that src/domain/export.rs writes.
use tale.Prelude.{
  ℕ, ◌≡◌, refl, ap, sym, ◌∙◌, List, [], ◌∷◌, ◌++◌, false, if◌then◌else◌, Text, codes, any, map,
  join, foldl, ◌==◌, append-nil, append_assoc, ==_iff, arith, Bool-cases, inl, inr, is_empty, All,
}
use tale.Export.Csv.{is_special, double_quotes, csv_escape, line, lines}

-- A reader of CSV that takes fields as RFC 4180 writes them, and outside quotes ends a line at a line
-- feed, a carriage return, or the two together: the records read, the fields of the present one, and
-- where it is in a field; `returned` is the place behind a carriage return.
pub data Place : Type 0 where
  starting bare inside closing returned : Place

pub record Reader : Type 0 where
  pub records : List (List Text)
  pub fields : List Text
  pub current : Text
  pub place : Place

abbrev next_field : Reader → Reader
next_field r = record r { fields = r.fields ++ r.current ∷ []; current = []; place = starting }

abbrev next_record : Reader → Reader
next_record r = record {
  records = r.records ++ (r.fields ++ r.current ∷ []) ∷ [];
  fields = [];
  current = [];
  place = starting;
}

abbrev outside : Reader → ℕ → Reader
outside r c =
    if c == b','
    then next_field r
    else if c == b'\n'
    then next_record r
    else if c == b'\r'
    then record (next_record r) { place = returned }
    else record r { current = r.current ++ c ∷ []; place = bare }

abbrev opening : Reader → ℕ → Reader
opening r c = if c == b'"' then record r { place = inside } else outside r c

unfoldable pub take_in : Reader → ℕ → Reader
take_in r c = elim r.place [
  | starting ↦ opening r c
  | returned ↦ if c == b'\n' then record r { place = starting } else opening r c
  | bare ↦ outside r c
  | inside ↦
      if c == b'"' then record r { place = closing } else record r { current = r.current ++ c ∷ [] }
  | closing ↦
      if c == b'"' then record r { current = r.current ++ c ∷ []; place = inside } else outside r c
]

abbrev reader : List (List Text) → List Text → Text → Place → Reader
reader records fields current place = record {
  records = records;
  fields = fields;
  current = current;
  place = place;
}

abbrev pub read_csv : Text → List (List Text)
read_csv text = (foldl take_in (reader [] [] [] starting) text).records

-- Single steps.
take_in-inside :
    (records : List (List Text)) (fs : List Text) (current : Text) (c : ℕ)
    → (c == b'"') ≡ false
    → take_in (reader records fs current inside) c ≡ reader records fs (current ++ c ∷ []) inside
unfolding take_in
take_in-inside records fs current c h = rw (take_in, h) refl

take_in-bare :
    (records : List (List Text)) (fs : List Text) (current : Text) (c : ℕ)
    → is_special c ≡ false
    → take_in (reader records fs current bare) c ≡ reader records fs (current ++ c ∷ []) bare
unfolding take_in
take_in-bare records fs current c h =
    let comma : (c == b',') ≡ false = ground arith in
    let newline : (c == b'\n') ≡ false = ground arith in
    let return : (c == b'\r') ≡ false = ground arith in rw (take_in, comma, newline, return) refl

take_in-starting :
    (records : List (List Text)) (fs : List Text) (c : ℕ)
    → is_special c ≡ false
    → take_in (reader records fs [] starting) c ≡ reader records fs (c ∷ []) bare
unfolding take_in
take_in-starting records fs c h =
    let quote : (c == b'"') ≡ false = ground arith in
    let comma : (c == b',') ≡ false = ground arith in
    let newline : (c == b'\n') ≡ false = ground arith in
    let return : (c == b'\r') ≡ false = ground arith in
    rw (take_in, quote, comma, newline, return) refl

current-same :
    (records : List (List Text)) (fs : List Text) (current v w : Text) (c : ℕ) (place : Place)
    → foldl take_in (reader records fs (current ++ c ∷ [] ++ v) place) w
      ≡ foldl take_in (reader records fs (current ++ c ∷ v) place) w
current-same records fs current v w c place = rw (append_assoc current (c ∷ []) v) refl

-- A text inside quotes.
double_quotes-quote :
    (c : ℕ) (v : Text) → c ≡ b'"' → double_quotes (c ∷ v) ≡ b'"' ∷ b'"' ∷ double_quotes v
double_quotes-quote c v e = rw e refl

take_in-quotes :
    (v w : Text) (records : List (List Text)) (fs : List Text) (current : Text)
    → foldl take_in (reader records fs current inside) (double_quotes v ++ w)
      ≡ foldl take_in (reader records fs (current ++ v) inside) w
unfolding take_in
take_in-quotes [] w records fs current = rw (append-nil current) refl
take_in-quotes (c ∷ v) w records fs current = elim (Bool-cases (c == b'"')) [
  | inl e ↦
      let same : c ≡ b'"' = (==_iff c b'"').0 e in
      ap (λ u. foldl take_in (reader records fs current inside) (u ++ w))
        (double_quotes-quote c v same)
      ∙ take_in-quotes v w records fs (current ++ b'"' ∷ [])
      ∙ current-same records fs current v w b'"' inside
      ∙ ap (λ d. foldl take_in (reader records fs (current ++ d ∷ v) inside) w) (sym same)
  | inr e ↦ rw e (
      ap (λ r. foldl take_in r (double_quotes v ++ w)) (take_in-inside records fs current c e)
      ∙ take_in-quotes v w records fs (current ++ c ∷ [])
      ∙ current-same records fs current v w c inside)
]

-- A text of characters that need no quotes.
take_in-plain :
    (v w : Text) (records : List (List Text)) (fs : List Text) (current : Text)
    → any is_special v ≡ false
    → foldl take_in (reader records fs current bare) (v ++ w)
      ≡ foldl take_in (reader records fs (current ++ v) bare) w
take_in-plain [] w records fs current plain = rw (append-nil current) refl
take_in-plain (c ∷ v) w records fs current plain =
    ap (λ r. foldl take_in r (v ++ w)) (take_in-bare records fs current c (ground arith))
    ∙ take_in-plain v w records fs (current ++ c ∷ []) (ground arith)
    ∙ current-same records fs current v w c bare

-- What ends a field, and the reader behind it.
data Stop : Type 0 where
  at_comma at_newline : Stop

abbrev stop_code : Stop → ℕ
stop_code at_comma = b','
stop_code at_newline = b'\n'

abbrev stopped : Stop → List (List Text) → List Text → Text → Reader
stopped at_comma records fs v = reader records (fs ++ v ∷ []) [] starting
stopped at_newline records fs v = reader (records ++ (fs ++ v ∷ []) ∷ []) [] [] starting

take_in-stop :
    (stop : Stop) (records : List (List Text)) (fs : List Text) (v : Text)
    → (take_in (reader records fs [] starting) (stop_code stop) ≡ stopped stop records fs [])
      × (take_in (reader records fs v bare) (stop_code stop) ≡ stopped stop records fs v)
      × (take_in (reader records fs v closing) (stop_code stop) ≡ stopped stop records fs v)
unfolding take_in
take_in-stop at_comma records fs v = (refl, refl, refl)
take_in-stop at_newline records fs v = (refl, refl, refl)

plain_field :
    (v : Text) (stop : Stop) (w : Text) (records : List (List Text)) (fs : List Text)
    → any is_special v ≡ false
    → foldl take_in (reader records fs [] starting) (v ++ stop_code stop ∷ w)
      ≡ foldl take_in (stopped stop records fs v) w
plain_field [] stop w records fs plain =
    ap (λ r. foldl take_in r w) (take_in-stop stop records fs []).0
plain_field (d ∷ v) stop w records fs plain =
    ap (λ r. foldl take_in r (v ++ stop_code stop ∷ w))
      (take_in-starting records fs d (ground arith))
    ∙ take_in-plain v (stop_code stop ∷ w) records fs (d ∷ []) (ground arith)
    ∙ ap (λ r. foldl take_in r w) (take_in-stop stop records fs (d ∷ v)).1

quoted_field :
    (v : Text) (stop : Stop) (w : Text) (records : List (List Text)) (fs : List Text)
    → foldl take_in
        (reader records fs [] starting)
        (b'"' ∷ (double_quotes v ++ b'"' ∷ []) ++ stop_code stop ∷ w)
      ≡ foldl take_in (stopped stop records fs v) w
unfolding take_in
quoted_field v stop w records fs =
    ap (λ u. foldl take_in (reader records fs [] inside) u)
      (append_assoc (double_quotes v) (b'"' ∷ []) (stop_code stop ∷ w))
    ∙ take_in-quotes v (b'"' ∷ stop_code stop ∷ w) records fs []
    ∙ ap (λ r. foldl take_in r w) (take_in-stop stop records fs v).2

-- An escaped field is read back as it was.
escaped_field :
    (v : Text) (stop : Stop) (w : Text) (records : List (List Text)) (fs : List Text)
    → foldl take_in (reader records fs [] starting) (csv_escape v ++ stop_code stop ∷ w)
      ≡ foldl take_in (stopped stop records fs v) w
unfolding csv_escape
escaped_field v stop w records fs = elim (Bool-cases (any is_special v)) [
  | inl e ↦ rw (csv_escape, e) (quoted_field v stop w records fs)
  | inr e ↦ rw (csv_escape, e) (plain_field v stop w records fs e)
]

line-cons :
    (v u : Text) (vs : List Text) (w : Text)
    → line (v ∷ u ∷ vs) ++ w ≡ csv_escape v ++ b',' ∷ (line (u ∷ vs) ++ w)
line-cons v u vs w =
    let tail : Text = join (map csv_escape (u ∷ vs)) (codes ",") in
    ap (λ x. x ++ w) (append_assoc (csv_escape v) (b',' ∷ tail) (codes "\n"))
    ∙ append_assoc (csv_escape v) (b',' ∷ (tail ++ codes "\n")) w

-- A line of fields, of which there is at least one.
read_line :
    (v : Text) (vs : List Text) (w : Text) (records : List (List Text)) (fs : List Text)
    → foldl take_in (reader records fs [] starting) (line (v ∷ vs) ++ w)
      ≡ foldl take_in (reader (records ++ (fs ++ v ∷ vs) ∷ []) [] [] starting) w
read_line v [] w records fs =
    ap (λ u. foldl take_in (reader records fs [] starting) u)
      (append_assoc (csv_escape v) (b'\n' ∷ []) w)
    ∙ escaped_field v at_newline w records fs
read_line v (u ∷ vs) w records fs =
    let rest : Text = line (u ∷ vs) ++ w in
    ap (λ x. foldl take_in (reader records fs [] starting) x) (line-cons v u vs w)
    ∙ escaped_field v at_comma rest records fs
    ∙ read_line u vs w records (fs ++ v ∷ [])
    ∙ ap (λ r. foldl take_in (reader (records ++ r ∷ []) [] [] starting) w)
        (append_assoc fs (v ∷ []) (u ∷ vs))

-- Lines are read as the records that they were written from, if none is empty.
pub read_lines :
    (ls : List (List Text)) (records : List (List Text))
    → All (λ values. is_empty values ≡ false) ls
    → foldl take_in (reader records [] [] starting) (lines ls)
      ≡ reader (records ++ ls) [] [] starting
read_lines [] records full = rw (append-nil records) refl
read_lines ([] ∷ ls) records full = absurd (ground (arith, full.0))
read_lines ((v ∷ vs) ∷ ls) records full =
    read_line v vs (lines ls) records []
    ∙ read_lines ls (records ++ (v ∷ vs) ∷ []) full.1
    ∙ ap (λ r. reader r [] [] starting) (append_assoc records ((v ∷ vs) ∷ []) ls)
