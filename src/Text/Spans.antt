-- ===== src/Text/Spans.antt =====
-- What the character loops split off.
use ch32_tapioca.Prelude.{
  ℕ, zero, suc, ◌+◌, ◌≤◌, ◌≡◌, refl, ap, sym, ◌∙◌, arith, true, false, List, [], ◌∷◌, ◌++◌, some,
  length, take, get_or, get_or-append_right, take-suc-get_or, take-append, All-get_or, All,
  All-append, Bool-cases, inl, inr, append_assoc, append-nil, length-append, take_all, ==_refl,
}
use ch32_tapioca.Text.{is_blank, is_trailing, trim_len, trim, skip_ws, match_keyword, starts_blank}

abbrev pub IsBlank : ℕ → Type 0
IsBlank c = is_blank c ≡ true

abbrev pub IsTrailing : ℕ → Type 0
IsTrailing c = is_trailing c ≡ true

pub blank-IsTrailing : (c : ℕ) → IsBlank c → IsTrailing c
blank-IsTrailing c h = ground arith

-- The length kept, and the rest of the first `len` characters.
trim_len-split :
    (line : List ℕ) (len : ℕ)
    → len ≤ length line
    → (trail : List ℕ) × All IsTrailing trail
      × (take len line ≡ take (trim_len line len) line ++ trail)
unfolding trim_len
trim_len-split line zero h = ([], tt, refl)
trim_len-split line (suc len) h = elim (Bool-cases (is_trailing (get_or line len 0))) [
  | inl more ↦
      let (trail, blank, split) = trim_len-split line len (omega arith) in
      rw more (
        trail ++ get_or line len 0 ∷ [],
        All-append IsTrailing trail (get_or line len 0 ∷ []) blank (more, tt),
        take-suc-get_or len line 0 h
            ∙ ap (λ l. l ++ get_or line len 0 ∷ []) split
            ∙ append_assoc (take (trim_len line len) line) trail (get_or line len 0 ∷ []),
      )
  | inr stop ↦ rw stop ([], tt, sym (append-nil _))
]

pub trim-split :
    (line : List ℕ) → (trail : List ℕ) × All IsTrailing trail × (line ≡ trim line ++ trail)
unfolding trim
trim-split line =
    let (trail, blank, split) = trim_len-split line (length line) (omega arith) in
    (trail, blank, sym (take_all (length line) line (omega arith)) ∙ split)

trim_len-append :
    (xs : List ℕ) (c : ℕ) (trail : List ℕ) (k : ℕ)
    → is_trailing c ≡ false
    → All IsTrailing trail
    → k ≤ length trail
    → trim_len (xs ++ c ∷ trail) (suc (length xs + k)) ≡ suc (length xs)
unfolding trim_len
trim_len-append xs c trail zero h blank e =
    let at : get_or (xs ++ c ∷ trail) (length xs + 0) 0 ≡ c =
      get_or-append_right xs (c ∷ trail) 0 0 in
    rw (at, h) (omega arith)
trim_len-append xs c trail (suc k) h blank e =
    let at : get_or (xs ++ c ∷ trail) (length xs + suc k) 0 ≡ get_or trail k 0 =
      get_or-append_right xs (c ∷ trail) (suc k) 0 in
    let gone : is_trailing (get_or trail k 0) ≡ true = All-get_or IsTrailing trail k 0 blank e in
    let back : length xs + suc k ≡ suc (length xs + k) = omega arith in
    rw (at, gone, back) (trim_len-append xs c trail k h blank (omega arith))

-- Trailing characters go, up to the last one that is none.
pub trim-append :
    (xs : List ℕ) (c : ℕ) (trail : List ℕ)
    → is_trailing c ≡ false
    → All IsTrailing trail
    → trim (xs ++ c ∷ trail) ≡ xs ++ c ∷ []
unfolding trim
trim-append xs c trail h blank =
    let line = xs ++ c ∷ trail in
    ap (λ k. take (trim_len line k) line) {x = length line} {y = suc (length xs + length trail)}
      (omega (arith, length-append xs (c ∷ trail)))
    ∙ ap (λ k. take k line) (trim_len-append xs c trail (length trail) h blank (omega arith))
    ∙ ap (take (suc (length xs))) (sym (append_assoc xs (c ∷ []) trail))
    ∙ ap (λ k. take k ((xs ++ c ∷ []) ++ trail)) {x = suc (length xs)} {y = length (xs ++ c ∷ [])}
        (omega (arith, length-append xs (c ∷ [])))
    ∙ take-append (xs ++ c ∷ []) trail

pub skip_ws-split :
    (p : List ℕ)
    → (lead : List ℕ) × All IsBlank lead
      × (p ≡ lead ++ skip_ws p)
      × (starts_blank (skip_ws p) ≡ false)
unfolding skip_ws
skip_ws-split [] = ([], tt, refl, refl)
skip_ws-split (c ∷ cs) = elim (Bool-cases (is_blank c)) [
  | inl more ↦
      let (lead, blank, split, stop) = skip_ws-split cs in
      rw more (c ∷ lead, (more, blank), ap (λ l. c ∷ l) split, stop)
  | inr stop ↦ rw stop ([], tt, refl, stop)
]

pub skip_ws-append :
    (lead p : List ℕ) → All IsBlank lead → starts_blank p ≡ false → skip_ws (lead ++ p) ≡ p
unfolding skip_ws
skip_ws-append [] [] h e = refl
skip_ws-append [] (c ∷ cs) h e = rw e
skip_ws-append (c ∷ lead) p h e = rw h.0 (skip_ws-append lead p h.1 e)

pub match_keyword-split : (p kw rest : List ℕ) → match_keyword p kw ≡ some rest → p ≡ kw ++ rest
unfolding match_keyword
match_keyword-split p [] rest e = cc
match_keyword-split [] (k ∷ ks) rest e = cc
match_keyword-split (c ∷ cs) (k ∷ ks) rest e = ground (arith, match_keyword-split cs ks rest)

pub match_keyword-append : (kw rest : List ℕ) → match_keyword (kw ++ rest) kw ≡ some rest
unfolding match_keyword
match_keyword-append [] rest = refl
match_keyword-append (k ∷ ks) rest = rw (==_refl k) (match_keyword-append ks rest)
