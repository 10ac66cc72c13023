-- ===== src/Mdio/Bridge/Line.antt =====
-- src/mdio/mdio_bridge.hpp: the assembly of a command line, byte by byte. `line_` and `lineLen_` are the list of
-- the bytes taken so far.
use ch32_tapioca.Prelude.{
  ℕ, suc, ◌+◌, ◌≤◌, ◌<◌, ◌≡◌, refl, arith, Bool, true, false, not, ◌||◌, List, [], ◌∷◌, ◌++◌, ltb,
  ◌==◌, if◌then◌else◌, length, All, length-append, append_assoc, append-nil, Bool-cases, ==_ne, ap,
  ◌∙◌, inl, inr, ◌⊎◌,
}

pub data LineEvent : Type 0 where
  no_event ready invalid : LineEvent

pub record CommandLine : Type 0 where
  pub line : List ℕ
  pub discard : Bool

abbrev pub line_capacity : ℕ
line_capacity = 48

abbrev pub is_newline : ℕ → Bool
is_newline b = b == 0x0a || b == 0x0d

unfoldable pub push_command_byte : CommandLine → ℕ → LineEvent × CommandLine
push_command_byte s b =
    if is_newline b
    then (if s.discard
        then (invalid, record { line = []; discard = false })
        else ((if not (length s.line == 0) then ready else no_event), s))
    else if s.discard
    then (no_event, s)
    else if ltb (length s.line) line_capacity
    then (no_event, record s { line = s.line ++ b ∷ [] })
    else (no_event, record { line = []; discard = true })

unfoldable pub reset_command_line : CommandLine → CommandLine
reset_command_line s = record { line = []; discard = false }

abbrev pub IsText : ℕ → Type 0
IsText b = is_newline b ≡ false

-- The bytes of a line, before its end.
abbrev pub push_bytes : CommandLine → List ℕ → CommandLine
push_bytes s [] = s
push_bytes s (b ∷ bs) = push_bytes (push_command_byte s b).1 bs

push_bytes-fits :
    (line bs : List ℕ)
    → All IsText bs
    → length line + length bs ≤ line_capacity
    → push_bytes (record { line = line; discard = false }) bs
      ≡ record { line = line ++ bs; discard = false }
unfolding push_command_byte
push_bytes-fits line [] t h = rw (append-nil line)
push_bytes-fits line (b ∷ bs) t h =
    let fits : ltb (length line) line_capacity ≡ true = ground arith in
    rw (t.0, fits)
      (push_bytes-fits (line ++ b ∷ []) bs t.1 (omega (arith, length-append line (b ∷ [])))
        ∙ ap (λ l. record { line = l; discard = false }) (append_assoc line (b ∷ []) bs))

push_bytes-discard :
    (bs : List ℕ)
    → All IsText bs
    → push_bytes (record { line = []; discard = true }) bs ≡ record { line = []; discard = true }
unfolding push_command_byte
push_bytes-discard [] t = refl
push_bytes-discard (b ∷ bs) t = rw t.0 (push_bytes-discard bs t.1)

push_bytes-long :
    (line bs : List ℕ)
    → All IsText bs
    → length line ≤ line_capacity
    → line_capacity < length line + length bs
    → push_bytes (record { line = line; discard = false }) bs ≡ record { line = []; discard = true }
unfolding push_command_byte
push_bytes-long line [] t h k = absurd (omega arith)
push_bytes-long line (b ∷ bs) t h k = elim (Bool-cases (ltb (length line) line_capacity)) [
  | inl fits ↦
      rw (t.0, fits)
        (push_bytes-long (line ++ b ∷ []) bs t.1 (ground (arith, length-append line (b ∷ [])))
          (omega (arith, length-append line (b ∷ []))))
  | inr full ↦ rw (t.0, full) (push_bytes-discard bs t.1)
]

-- What the end of a line reports, and the bytes that it hands over.
abbrev pub line_of : List ℕ → ℕ → LineEvent × CommandLine
line_of bs nl = push_command_byte (push_bytes (record { line = []; discard = false }) bs) nl

-- From an empty buffer, a line of at most 48 bytes is reported once, at its end, with all its bytes; a longer
-- one is reported as invalid, with none of them; and an empty one is not reported.
line_of_lem :
    (bs : List ℕ) (nl : ℕ)
    → All IsText bs
    → is_newline nl ≡ true
    → ((length bs ≡ 0) × (line_of bs nl ≡ (no_event, record { line = []; discard = false })))
      ⊎ ((0 < length bs)
          × (length bs ≤ line_capacity)
          × (line_of bs nl ≡ (ready, record { line = bs; discard = false })))
      ⊎ ((line_capacity < length bs)
          × (line_of bs nl ≡ (invalid, record { line = []; discard = false })))
unfolding push_command_byte
line_of_lem [] nl t e = rw e (inl (refl, refl))
line_of_lem (b ∷ bs) nl t e = elim (Bool-cases (ltb line_capacity (length (b ∷ bs)))) [
  | inl long ↦
      inr (inr (ground arith, rw (push_bytes-long [] (b ∷ bs) t (omega arith) (ground arith), e)))
  | inr fits ↦ inr (
      inl (
        omega arith,
        ground arith,
        rw (
          push_bytes-fits [] (b ∷ bs) t (ground arith),
          e,
          ==_ne (suc (length bs)) 0 (omega arith),
        ),
      ))
]
