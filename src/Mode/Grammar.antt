-- ===== src/Mode/Grammar.antt =====
-- src/sniffer/mode_command.hpp: the lines that `parse` accepts, as a grammar.
use ch32_tapioca.Prelude.{
  ℕ, ◌<◌, ◌≡◌, ◌↔◌, refl, ap, sym, ◌∙◌, arith, true, false, ◌||◌, List, [], ◌∷◌, ◌++◌, length, drop,
  All, All-append, All-mono, append_assoc, Option-cases, Bool-cases, inl, inr,
}
use ch32_tapioca.Text.{trim, skip_ws, match_keyword, starts_blank, at_end}
use ch32_tapioca.Text.Spans.{
  IsBlank, IsTrailing, blank-IsTrailing, trim-split, trim-append, skip_ws-split, skip_ws-append,
  match_keyword-split,
}
use ch32_tapioca.Mode.{
  CaptureMode, rle, clocked, Command, mode_keyword, rle_keyword, clocked_keyword, token_is,
  parse_mode, parse,
}

abbrev pub keyword : CaptureMode → List ℕ
keyword rle = rle_keyword
keyword clocked = clocked_keyword

-- Blanks, `!mode`, blanks (at least one), the mode's name, and blanks or line ends.
abbrev pub IsModeLine : CaptureMode → List ℕ → Type 0
IsModeLine m line =
    (lead : List ℕ) × (sep : List ℕ) × (trail : List ℕ) × All IsBlank lead
    × All IsBlank sep
    × (0 < length sep)
    × All IsTrailing trail
    × (line ≡ lead ++ (mode_keyword ++ (sep ++ (keyword m ++ trail))))

token_is-split :
    (p kw : List ℕ)
    → token_is p kw ≡ true
    → (rest : List ℕ) × (p ≡ kw ++ rest) × (at_end rest || starts_blank rest ≡ true)
unfolding token_is
token_is-split p kw h = elim (Option-cases (match_keyword p kw)) [
  | inl e ↦ cc (rw (e, token_is) at h)
  | inr (rest, e) ↦ (rest, match_keyword-split p kw rest e, rw (e, token_is) at h)
]

-- What is left is blank if skipping blanks leaves nothing.
skip_ws-All : (p : List ℕ) → at_end (skip_ws p) ≡ true → All IsBlank p
skip_ws-All p h =
    let (lead, blank, split, stop) = skip_ws-split p in
    rw split (All-append IsBlank lead (skip_ws p) blank (none_left (skip_ws p) h))
  where
    none_left : (q : List ℕ) → at_end q ≡ true → All IsBlank q
    none_left [] e = tt
    none_left (c ∷ cs) e = cc

parse_mode-split :
    (p : List ℕ) (m : CaptureMode)
    → parse_mode p ≡ record { valid = true; mode = m }
    → (rest : List ℕ) × All IsBlank rest × (p ≡ keyword m ++ rest)
unfolding parse_mode
parse_mode-split p m h = elim (Bool-cases (token_is p rle_keyword)) [
  | inl is_rle ↦
      let (rest, split, _) = token_is-split p rle_keyword is_rle in
      let h' : record { valid = at_end (skip_ws (drop 3 p)); mode = rle }
          ≡ record { valid = true; mode = m } =
        rw (is_rle) at h in
      let same : rle ≡ m = ap (λ (c : Command). c.mode) h' in
      let blank : at_end (skip_ws rest) ≡ true = rw split at (ap (λ (c : Command). c.valid) h') in
      rw (← same) (rest, skip_ws-All rest blank, split)
  | inr not_rle ↦ elim (Bool-cases (token_is p clocked_keyword)) [
    | inl is_clocked ↦
        let (rest, split, _) = token_is-split p clocked_keyword is_clocked in
        let h' : record { valid = at_end (skip_ws (drop 7 p)); mode = clocked }
            ≡ record { valid = true; mode = m } =
          rw (not_rle, is_clocked) at h in
        let same : clocked ≡ m = ap (λ (c : Command). c.mode) h' in
        let blank : at_end (skip_ws rest) ≡ true = rw split at (ap (λ (c : Command). c.valid) h') in
        rw (← same) (rest, skip_ws-All rest blank, split)
    | inr other ↦ cc (rw (not_rle, other) at h)
  ]
]

parse_mode-keyword : (m : CaptureMode) → parse_mode (keyword m) ≡ record { valid = true; mode = m }
unfolding parse_mode
parse_mode-keyword rle = refl
parse_mode-keyword clocked = refl

parse-IsModeLine :
    (line : List ℕ) (m : CaptureMode)
    → parse line ≡ record { valid = true; mode = m }
    → IsModeLine m line
unfolding parse
parse-IsModeLine line m h =
    let (trail, trailing, line_split) = trim-split line in
    let (lead, leading, lead_split, _) = skip_ws-split (trim line) in
    elim (Option-cases (match_keyword (skip_ws (trim line)) mode_keyword)) [
      | inl e ↦ cc (rw (e, parse) at h)
      | inr (p, e) ↦ elim (Bool-cases (starts_blank p)) [
        | inr stop ↦ cc (rw (e, stop, parse) at h)
        | inl blank ↦
            let (sep, separating, sep_split, sep_stop) = skip_ws-split p in
            let (rest, resting, mode_split) =
              parse_mode-split (skip_ws p) m (rw (e, blank, parse) at h) in
            (
              lead,
              sep,
              rest ++ trail,
              leading,
              separating,
              sep-pos sep p blank sep_stop sep_split,
              All-append IsTrailing rest trail
                  (All-mono IsBlank IsTrailing rest blank-IsTrailing resting) trailing,
              line_split
                  ∙ ap (λ l. l ++ trail)
                      (lead_split
                        ∙ ap (λ l. lead ++ l)
                            (match_keyword-split _ mode_keyword p e
                              ∙ ap (λ l. mode_keyword ++ l)
                                  (sep_split ∙ ap (λ l. sep ++ l) mode_split)))
                  ∙ simp append_assoc,
            )
      ]
    ]
  where
    sep-pos :
        (sep p : List ℕ)
        → starts_blank p ≡ true
        → starts_blank (skip_ws p) ≡ false
        → p ≡ sep ++ skip_ws p
        → 0 < length sep
    sep-pos [] p b stop e = cc
    sep-pos (c ∷ cs) p b stop e = omega arith

-- Trimming stops at the last letter of the mode's name.
trim-keyword :
    (m : CaptureMode) (front trail : List ℕ)
    → All IsTrailing trail
    → trim (front ++ (keyword m ++ trail)) ≡ front ++ keyword m
trim-keyword rle front trail h =
    let word = b'r' ∷ b'l' ∷ [] in
    ap trim (sym (append_assoc front word (b'e' ∷ trail)))
    ∙ trim-append (front ++ word) b'e' trail refl h
    ∙ append_assoc front word (b'e' ∷ [])
trim-keyword clocked front trail h =
    let word = b'c' ∷ b'l' ∷ b'o' ∷ b'c' ∷ b'k' ∷ b'e' ∷ [] in
    ap trim (sym (append_assoc front word (b'd' ∷ trail)))
    ∙ trim-append (front ++ word) b'd' trail refl h
    ∙ append_assoc front word (b'd' ∷ [])

starts_blank-append :
    (sep p : List ℕ) → 0 < length sep → All IsBlank sep → starts_blank (sep ++ p) ≡ true
starts_blank-append [] p h b = absurd (omega arith)
starts_blank-append (c ∷ cs) p h b = b.0

keyword-start : (m : CaptureMode) → starts_blank (keyword m) ≡ false
keyword-start rle = refl
keyword-start clocked = refl

IsModeLine-parse :
    (line : List ℕ) (m : CaptureMode)
    → IsModeLine m line
    → parse line ≡ record { valid = true; mode = m }
unfolding parse
IsModeLine-parse line m (lead, sep, trail, leading, separating, some_sep, trailing, e) =
    let front = lead ++ (mode_keyword ++ sep) in
    let trimmed : trim line ≡ lead ++ (mode_keyword ++ (sep ++ keyword m)) =
      ap trim (e ∙ sym (append_assoc lead (mode_keyword ++ sep) (keyword m ++ trail)))
      ∙ trim-keyword m front trail trailing
      ∙ simp append_assoc in
    let skipped : skip_ws (trim line) ≡ mode_keyword ++ (sep ++ keyword m) =
      ap skip_ws trimmed ∙ skip_ws-append lead (mode_keyword ++ (sep ++ keyword m)) leading refl in
    rw
      (
        skipped,
        parse,
        starts_blank-append sep (keyword m) some_sep separating,
        skip_ws-append sep (keyword m) separating (keyword-start m),
      )
      (parse_mode-keyword m)

-- A line is a valid command for the mode `m` exactly when it is the command for `m`, with blanks round its two
-- words and line ends behind them.
pub parse_iff :
    (line : List ℕ) (m : CaptureMode)
    → (parse line ≡ record { valid = true; mode = m }) ↔ IsModeLine m line
parse_iff line m = (parse-IsModeLine line m, IsModeLine-parse line m)
