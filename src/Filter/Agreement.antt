-- ===== src/Filter/Agreement.antt =====
-- That `tokenize` and `token_spans` of src/domain/filter.rs cut an input into the same tokens.
use tale.Prelude.{
  ℕ, ◌+◌, ◌≡◌, refl, ap, sym, subst, ◌∙◌, List, [], ◌∷◌, ◌++◌, Bool, true, false, not, ◌&&◌, ◌||◌,
  Option, none, some, ◌==◌, if◌then◌else◌, Text, len, len_utf8, is_empty, char_indices_from, foldl,
  ok, err, map, arith, if-relates,
}
use tale.Filter.Scans.{At, At-start, At-step, scan-Inv}
use tale.Filter.Tokens.{
  is_whitespace, FilterError, or_at, unwrap_or, Spanner, new_spanner, closed, span_step,
  token_spans, Lexer, new_lexer, lex_step, tokenize,
}
use tale.Filter.Reading.{Reading, read, Current, Current-begins, token_of, token_snoc}

abbrev reading : Lexer → Reading
reading l = record { text = l.current; quoted = l.quoted; escaped = l.escaped }

abbrev spanner : Lexer → List (ℕ × ℕ) → Spanner
spanner l spans = record { spans = spans; start = l.start; quoted = l.quoted; escaped = l.escaped }

record Agree (input v : Text) (o : ℕ) (l : Lexer) (s : Spanner) : Type 0 where
  pub here : At input v o
  pub same : s ≡ spanner l s.spans
  pub tokens : l.tokens ≡ map (token_of input) s.spans
  pub current : Current input v o l.start (reading l)

-- A step that reads a character into the token.
Agree-reads :
    (input : Text) (c : ℕ) (v : Text) (o : ℕ) (l l' : Lexer) (spans : List (ℕ × ℕ))
    → Agree input (c ∷ v) o l (spanner l spans)
    → l'.tokens ≡ l.tokens
    → l'.start ≡ or_at l.start o
    → reading l' ≡ read (reading l) c
    → Agree input v (o + len_utf8 c) l' (spanner l' spans)
Agree-reads input c v o l l' spans h same_tokens same_start reads = record {
  here = At-step input c v o h.here;
  same = refl;
  tokens = same_tokens ∙ h.tokens;
  current =
      rw (same_start, reads) (Current-begins input c v o l.start (reading l) h.here h.current);
}

-- Inside quotes a token has begun.
quoted_start :
    (input v : Text) (o : ℕ) (start : Option ℕ) (r : Reading) (position : ℕ)
    → Current input v o start r
    → (r.quoted || r.escaped) ≡ true
    → or_at start position ≡ start
quoted_start input v o none r position h e = absurd (ground arith)
quoted_start input v o (some begin) r position h e = refl

-- A step at white space outside quotes.
Agree-closes :
    (input : Text) (c : ℕ) (v : Text) (o : ℕ) (l : Lexer) (spans : List (ℕ × ℕ)) (start : Option ℕ)
    → Agree input
        (c ∷ v)
        o
        (record l { start = start })
        (spanner (record l { start = start }) spans)
    → l.quoted ≡ false
    → l.escaped ≡ false
    → Agree input v
        (o + len_utf8 c)
        (if is_empty l.current then (record l { start = start }) else record l {
          tokens = l.tokens ++ (l.current, unwrap_or start o) ∷ [];
          current = [];
          start = none;
        })
        (record (spanner l spans) { spans = closed spans start o; start = none })
Agree-closes input c v o l spans none h q e =
    let nothing : l.current ≡ [] = ap (λ (r : Reading). r.text) h.current in
    rw nothing (record {
      here = At-step input c v o h.here;
      same = refl;
      tokens = h.tokens;
      current = rw (q, e) refl;
    })
Agree-closes input c v o l spans (some begin) h q e =
    let (u, at, bytes, full, same) = h.current in
    rw full (record {
      here = At-step input c v o h.here;
      same = refl;
      tokens = token_snoc input u (c ∷ v) begin o l.tokens spans (reading l) h.tokens at bytes same;
      current = rw (q, e) refl;
    })

step-Agree :
    (input : Text) (c : ℕ) (v : Text) (o : ℕ) (l : Lexer) (spans : List (ℕ × ℕ))
    → Agree input (c ∷ v) o l (spanner l spans)
    → Agree input v (o + len_utf8 c) (lex_step l (o, c)) (span_step (spanner l spans) (o, c))
unfolding lex_step span_step read
step-Agree input c v o l spans h =
    let reads = λ (l' : Lexer). Agree-reads input c v o l l' spans h in
    let begun = quoted_start input (c ∷ v) o l.start (reading l) o h.current in
    let R = Agree input v (o + len_utf8 c) in
    if-relates R l.escaped
      (λ e.
        reads (record l { current = l.current ++ c ∷ []; escaped = false }) refl
          (sym (begun (ground arith))) (rw e refl))
      (λ e.
        if-relates R ((c == b'\\') && l.quoted)
          (λ e1.
            subst
              (λ start.
                R (record l { start = or_at l.start o; escaped = true })
                  (record (spanner l spans) { start = start; escaped = true }))
              (begun (ground arith))
              (reads (record l { start = or_at l.start o; escaped = true }) refl refl
                (rw (e, e1) refl)))
          (λ e1.
            if-relates R (c == b'"')
              (λ e2.
                reads
                  (record l {
                    quoted = not l.quoted;
                    current = l.current ++ c ∷ [];
                    start = or_at l.start o;
                  })
                  refl refl (rw (e, e1, e2) refl))
              (λ e2.
                if-relates R (is_whitespace c && not l.quoted)
                  (λ e3. Agree-closes input c v o l spans l.start h (ground arith) e)
                  (λ e3.
                    reads (record l { current = l.current ++ c ∷ []; start = or_at l.start o }) refl
                      refl (rw (e, e1, e2) refl)))))

-- Both loops at once.
abbrev both_step : Lexer × Spanner → ℕ × ℕ → Lexer × Spanner
both_step (l, s) p = (lex_step l p, span_step s p)

foldl-both :
    (l : Lexer) (s : Spanner) (ps : List (ℕ × ℕ))
    → foldl both_step (l, s) ps ≡ (foldl lex_step l ps, foldl span_step s ps)
foldl-both l s [] = refl
foldl-both l s (p ∷ ps) = foldl-both (lex_step l p) (span_step s p) ps

both_step-Agree :
    (input : Text) (c : ℕ) (v : Text) (o : ℕ) (b : Lexer × Spanner)
    → Agree input (c ∷ v) o b.0 b.1
    → Agree input v (o + len_utf8 c) (both_step b (o, c)).0 (both_step b (o, c)).1
both_step-Agree input c v o (l, s) h =
    subst (λ s. Agree input v (o + len_utf8 c) (lex_step l (o, c)) (span_step s (o, c)))
      (sym h.same)
      (step-Agree input c v o l s.spans
        (record { here = h.here; same = refl; tokens = h.tokens; current = h.current }))

end_tokens :
    (input : Text) (tokens : List (Text × ℕ)) (spans : List (ℕ × ℕ)) (start : Option ℕ)
    (r : Reading)
    → tokens ≡ map (token_of input) spans
    → Current input [] (len input) start r
    → (if is_empty r.text then tokens else tokens ++ (r.text, unwrap_or start 0) ∷ [])
      ≡ map (token_of input) (closed spans start (len input))
end_tokens input tokens spans none r same h = rw h same
end_tokens input tokens spans (some begin) r same (u, at, bytes, full, reads) =
    rw full (token_snoc input u [] begin (len input) tokens spans r same at bytes reads)

end-Agree :
    (input : Text) (l : Lexer) (s : Spanner)
    → Agree input [] (len input) l s
    → (if is_empty l.current then l.tokens else l.tokens ++ (l.current, unwrap_or l.start 0) ∷ [])
      ≡ map (token_of input) (closed s.spans s.start (len input))
end-Agree input l s h =
    rw (ap (λ (s : Spanner). s.start) h.same)
      (end_tokens input l.tokens s.spans l.start (reading l) h.tokens h.current)

ok_of_accepted :
    (b : Bool) (e : FilterError) (accepted tokens : List (Text × ℕ))
    → (if b then err e else ok accepted) ≡ ok tokens
    → accepted ≡ tokens
ok_of_accepted true e accepted tokens h = cc
ok_of_accepted false e accepted tokens h = cc

-- An input that the tokenizer accepts has for its tokens what stands at its spans, each with the
-- byte at which its span begins, where a backslash inside quotes stands for the character behind it.
pub tokenize-token_spans :
    (input : Text) (tokens : List (Text × ℕ))
    → tokenize input ≡ ok tokens
    → tokens ≡ map (token_of input) (token_spans input)
unfolding tokenize token_spans
tokenize-token_spans input tokens accepted =
    let l : Lexer = foldl lex_step new_lexer (char_indices_from 0 input) in
    let s : Spanner = foldl span_step new_spanner (char_indices_from 0 input) in
    let b : Lexer × Spanner =
      foldl both_step (new_lexer, new_spanner) (char_indices_from 0 input) in
    let h =
      scan-Inv both_step (λ v o b. Agree input v o b.0 b.1) (both_step-Agree input) input 0
        (new_lexer, new_spanner)
        (record { here = At-start input; same = refl; tokens = refl; current = refl }) in
    let h' : Agree input [] (len input) l s =
      subst (λ (b : Lexer × Spanner). Agree input [] (len input) b.0 b.1)
        (foldl-both new_lexer new_spanner (char_indices_from 0 input))
        (subst (λ n. Agree input [] n b.0 b.1) (omega arith) h) in
    sym (ok_of_accepted _ _ _ tokens accepted) ∙ end-Agree input l s h'
