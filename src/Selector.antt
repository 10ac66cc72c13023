-- ===== src/Selector.antt =====
-- src/main_sniffer.cpp: the control plane of the build with both capture modes, `unifiedPollCommand` over the bytes that the
-- USB hands out. The list `switches` records the calls of `unifiedSwitchTo`, which sets the mode.
use ch32_tapioca.Prelude.{
  ℕ, ◌+◌, ◌≤◌, ◌<◌, ◌≡◌, refl, arith, Bool, true, false, not, ◌&&◌, ◌||◌, List, [], ◌∷◌, ◌++◌, ltb,
  ◌==◌, if◌then◌else◌, length, All, append_assoc, append-nil, length-append, ap, ◌∙◌, Bool-cases,
  inl, inr, ==_ne,
}
use ch32_tapioca.Mode.{CaptureMode, rle, clocked, parse}

pub record Selector : Type 0 where
  pub mode : CaptureMode
  pub line : List ℕ
  pub switches : List CaptureMode

abbrev pub line_capacity : ℕ
line_capacity = 24

abbrev pub is_newline : ℕ → Bool
is_newline b = b == 0x0a || b == 0x0d

abbrev pub same_mode : CaptureMode → CaptureMode → Bool
same_mode rle rle = true
same_mode clocked clocked = true
same_mode _ _ = false

abbrev pub switch_to : Selector → CaptureMode → Selector
switch_to s m = record s { mode = m; switches = s.switches ++ m ∷ [] }

-- A complete line.
unfoldable pub run_line : Selector → List ℕ → Selector
run_line s line =
    let c = parse line in if c.valid && not (same_mode c.mode s.mode) then switch_to s c.mode else s

unfoldable pub take_byte : Selector → ℕ → Selector
take_byte s b =
    if is_newline b
    then (if not (length s.line == 0) then record (run_line s s.line) { line = [] } else s)
    else if ltb (length s.line) line_capacity
    then record s { line = s.line ++ b ∷ [] }
    else record s { line = [] }

unfoldable pub poll_command : Selector → List ℕ → Selector
unfolding take_byte
poll_command s [] = s
poll_command s (b ∷ bs) = poll_command (take_byte s b) bs

abbrev pub IsText : ℕ → Type 0
IsText b = is_newline b ≡ false

pub poll_command-append :
    (s : Selector) (xs ys : List ℕ)
    → poll_command s (xs ++ ys) ≡ poll_command (poll_command s xs) ys
unfolding poll_command
poll_command-append s [] ys = refl
poll_command-append s (x ∷ xs) ys = poll_command-append (take_byte s x) xs ys

poll_command-text :
    (s : Selector) (bs : List ℕ)
    → All IsText bs
    → length s.line + length bs ≤ line_capacity
    → poll_command s bs ≡ record s { line = s.line ++ bs }
unfolding poll_command take_byte
poll_command-text s [] t h = rw (append-nil s.line)
poll_command-text s (b ∷ bs) t h =
    let fits : ltb (length s.line) line_capacity ≡ true = ground arith in
    rw (t.0, fits)
      (poll_command-text (record s { line = s.line ++ b ∷ [] }) bs t.1
          (omega (arith, length-append s.line (b ∷ [])))
        ∙ ap (λ l. record s { line = l }) (append_assoc s.line (b ∷ []) bs))

run_line-line :
    (s : Selector) (l bs : List ℕ)
    → record (run_line (record s { line = l }) bs) { line = [] }
      ≡ record (run_line s bs) { line = [] }
unfolding run_line
run_line-line s l bs =
    elim (Bool-cases ((parse bs).valid && not (same_mode (parse bs).mode s.mode))) [
      | inl go ↦ rw go
      | inr stay ↦ rw stay
    ]

-- From an empty buffer, the bytes of a line of 1 to 24 bytes are handed to the parser as a whole at its end,
-- which leaves the buffer empty and does nothing but what that line asks for.
pub poll_command-line :
    (s : Selector) (bs : List ℕ) (nl : ℕ)
    → s.line ≡ []
    → All IsText bs
    → is_newline nl ≡ true
    → 0 < length bs
    → length bs ≤ line_capacity
    → poll_command s (bs ++ nl ∷ []) ≡ record (run_line s bs) { line = [] }
unfolding poll_command take_byte
poll_command-line s bs nl e t n z h =
    let text =
      poll_command-text s bs t (rw e (omega arith)) ∙ ap (λ l. record s { line = l ++ bs }) e in
    poll_command-append s bs (nl ∷ [])
    ∙ ap (λ m. take_byte m nl) text
    ∙ rw (n, ==_ne (length bs) 0 (omega arith)) (run_line-line s bs bs)

-- From an empty buffer, a line of more than 24 bytes is not dropped up to its end: the bytes after the 25th,
-- if they are 1 to 24, are taken as a line of their own, and a command among them is run.
pub poll_command-long_line :
    (s : Selector) (junk : List ℕ) (x : ℕ) (bs : List ℕ) (nl : ℕ)
    → s.line ≡ []
    → All IsText junk
    → length junk ≡ line_capacity
    → is_newline x ≡ false
    → All IsText bs
    → is_newline nl ≡ true
    → 0 < length bs
    → length bs ≤ line_capacity
    → poll_command s (junk ++ x ∷ (bs ++ nl ∷ [])) ≡ record (run_line s bs) { line = [] }
unfolding poll_command take_byte
poll_command-long_line s junk x bs nl e j k nx t n z h =
    let text =
      poll_command-text s junk j (rw e (omega arith)) ∙ ap (λ l. record s { line = l ++ junk }) e in
    let dropped : take_byte (record s { line = junk }) x ≡ record s { line = [] } = rw (nx, k) in
    poll_command-append s junk (x ∷ (bs ++ nl ∷ []))
    ∙ ap (λ m. poll_command m (x ∷ (bs ++ nl ∷ []))) text
    ∙ ap (λ m. poll_command m (bs ++ nl ∷ [])) dropped
    ∙ poll_command-line (record s { line = [] }) bs nl refl t n z h
    ∙ run_line-line s [] bs
