-- ===== src/Filter/Spans.antt =====
-- Where `token_spans` of src/domain/filter.rs cuts an input, and that `tokenize` cuts it there too.
use tale.Prelude.{
  ℕ, ◌+◌, ◌≤◌, ◌<◌, ◌≡◌, List, [], ◌∷◌, ◌++◌, true, not, ◌&&◌, Option, none, some, ◌==◌, Text, len,
  len_utf8, len_utf8_pos, is_char_boundary, char_indices_from, foldl, All, arith, subst, All-append,
  if-keeps,
}
use tale.Filter.Scans.{At, At-start, At-step, At-boundary, scan-Inv}
use tale.Filter.Tokens.{
  is_whitespace, or_at, unwrap_or, Spanner, new_spanner, closed, span_step, token_spans,
}

-- Spans one after the other between two bytes, none of them empty.
abbrev pub Chain : ℕ → List (ℕ × ℕ) → ℕ → Type 0
Chain lo [] hi = lo ≤ hi
Chain lo ((begin, end) ∷ spans) hi = (lo ≤ begin) × (begin < end) × Chain end spans hi

Chain-snoc :
    (lo : ℕ) (spans : List (ℕ × ℕ)) (begin end : ℕ)
    → Chain lo spans begin
    → begin < end
    → Chain lo (spans ++ (begin, end) ∷ []) end
Chain-snoc lo [] begin end h lt = (h, lt, omega arith)
Chain-snoc lo ((b, e) ∷ spans) begin end h lt = (h.0, h.1, Chain-snoc e spans begin end h.2 lt)

Chain-mono :
    (lo : ℕ) (spans : List (ℕ × ℕ)) (hi hi' : ℕ) → Chain lo spans hi → hi ≤ hi' → Chain lo spans hi'
Chain-mono lo [] hi hi' h le = omega arith
Chain-mono lo ((b, e) ∷ spans) hi hi' h le = (h.0, h.1, Chain-mono e spans hi hi' h.2 le)

-- Both ends are boundaries of characters, so that slicing there does not panic.
abbrev pub Sliceable : Text → List (ℕ × ℕ) → Type 0
Sliceable input spans =
    All (λ (b, e). (is_char_boundary input b ≡ true) × (is_char_boundary input e ≡ true)) spans

-- A span that has begun did so before this byte, at a boundary.
abbrev pub Begun : Text → ℕ → Option ℕ → Type 0
Begun input o none = Unit
Begun input o (some begin) = (begin < o) × (is_char_boundary input begin ≡ true)

record Spanned (input v : Text) (o : ℕ) (spans : List (ℕ × ℕ)) (start : Option ℕ) : Type 0 where
  pub here : At input v o
  pub chain : Chain 0 spans (unwrap_or start o)
  pub slices : Sliceable input spans
  pub begun : Begun input o start

Spanned-grows :
    (input : Text) (c : ℕ) (v : Text) (o : ℕ) (spans : List (ℕ × ℕ)) (start : Option ℕ)
    → Spanned input (c ∷ v) o spans start
    → Spanned input v (o + len_utf8 c) spans start
Spanned-grows input c v o spans none h = record {
  here = At-step input c v o h.here;
  chain = Chain-mono 0 spans o (o + len_utf8 c) h.chain (omega arith);
  slices = h.slices;
  begun = tt;
}
Spanned-grows input c v o spans (some begin) h = record {
  here = At-step input c v o h.here;
  chain = h.chain;
  slices = h.slices;
  begun = (omega (arith, h.begun.0), h.begun.1);
}

Spanned-begins :
    (input : Text) (c : ℕ) (v : Text) (o : ℕ) (spans : List (ℕ × ℕ)) (start : Option ℕ)
    → Spanned input (c ∷ v) o spans start
    → Spanned input v (o + len_utf8 c) spans (or_at start o)
Spanned-begins input c v o spans none h = record {
  here = At-step input c v o h.here;
  chain = h.chain;
  slices = h.slices;
  begun = (omega (arith, len_utf8_pos c), At-boundary input (c ∷ v) o h.here);
}
Spanned-begins input c v o spans (some begin) h = Spanned-grows input c v o spans (some begin) h

Spanned-closes :
    (input v : Text) (o : ℕ) (spans : List (ℕ × ℕ)) (start : Option ℕ)
    → Spanned input v o spans start
    → Spanned input v o (closed spans start o) none
Spanned-closes input v o spans none h = h
Spanned-closes input v o spans (some begin) h = record {
  here = h.here;
  chain = Chain-snoc 0 spans begin o h.chain h.begun.0;
  slices =
      All-append (λ (b, e). (is_char_boundary input b ≡ true) × (is_char_boundary input e ≡ true))
        spans ((begin, o) ∷ []) h.slices ((h.begun.1, At-boundary input v o h.here), tt);
  begun = tt;
}

span_step-Spanned :
    (input : Text) (c : ℕ) (v : Text) (o : ℕ) (s : Spanner)
    → Spanned input (c ∷ v) o s.spans s.start
    → Spanned input v (o + len_utf8 c) (span_step s (o, c)).spans (span_step s (o, c)).start
unfolding span_step
span_step-Spanned input c v o s h =
    let K : Spanner → Type 0 = λ s. Spanned input v (o + len_utf8 c) s.spans s.start in
    let grows = Spanned-grows input c v o s.spans s.start h in
    let begins = Spanned-begins input c v o s.spans s.start h in
    let closes =
      Spanned-grows input c v o (closed s.spans s.start o) none
        (Spanned-closes input (c ∷ v) o s.spans s.start h) in
    if-keeps K s.escaped grows (
      if-keeps K ((c == b'\\') && s.quoted) grows (
        if-keeps K (c == b'"') begins (if-keeps K (is_whitespace c && not s.quoted) closes begins)))

-- The spans of an input are not empty, follow one another within it and may be cut out of it.
pub token_spans-Chain :
    (input : Text) → Chain 0 (token_spans input) (len input) × Sliceable input (token_spans input)
unfolding token_spans
token_spans-Chain input =
    let s : Spanner = foldl span_step new_spanner (char_indices_from 0 input) in
    let h : Spanned input [] (0 + len input) s.spans s.start =
      scan-Inv span_step (λ v o s. Spanned input v o s.spans s.start)
        (λ c v o s h. span_step-Spanned input c v o s h) input 0 new_spanner
        (record { here = At-start input; chain = omega arith; slices = tt; begun = tt }) in
    let h' : Spanned input [] (len input) s.spans s.start =
      subst (λ n. Spanned input [] n s.spans s.start) (omega arith) h in
    let e = Spanned-closes input [] (len input) s.spans s.start h' in (e.chain, e.slices)
