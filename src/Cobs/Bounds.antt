-- ===== src/Cobs/Bounds.antt =====
-- src/util/cobs.hpp: what an encoding is made of, how long it is, and how much the decoder writes.
use ch32_tapioca.Prelude.{
  ℕ, zero, suc, ◌+◌, ◌-◌, ◌*◌, ◌≤◌, ◌<◌, ◌≡◌, ◌≢◌, refl, sym, ap, ltb, not, ◌&&◌, ◌||◌,
  if◌then◌else◌, List, [], ◌∷◌, ◌++◌, arith, ◌==◌, length, take, drop, length-append, length-drop,
  length-take, append-nil, append_assoc, ◌∙◌, ==_ne, inl, inr, some, All, All-append, ◌⊎◌,
  Bool-cases, ==_iff,
}
use ch32_tapioca.Prelude.Words.{IsByte}
use ch32_tapioca.Cobs.{
  Decoded, is_empty, decode_loop, encode, decode, ff_encode, ff_decode, max_encoded, ff_max_encoded,
}
use ch32_tapioca.Cobs.Spec.{grouped, encode-grouped, ff_encode-grouped}

module _ (delim full : ℕ) where
  -- One byte more than the payload, and one for each full group.
  length-grouped :
      (group xs : List ℕ)
      → suc (length group) < full
      → (extra : ℕ) × (length (grouped delim full group xs) ≡ length group + length xs + 1 + extra)
        × (extra * (full - 1) ≤ length group + length xs)
  unfolding grouped
  length-grouped group [] h = (0, omega arith, omega arith)
  length-grouped group (x ∷ xs) h = elim (Bool-cases (x == delim)) [
    | inl hit ↦
        let (e, size, few) = length-grouped [] xs (omega arith) in
        rw hit (e, omega (arith, length-append group (grouped delim full [] xs)), omega arith)
    | inr miss ↦ elim (Bool-cases (suc (suc (length group)) == full)) [
      | inl last ↦
          let (e, size, few) = length-grouped [] xs (omega arith) in
          let top : full ≡ suc (suc (length group)) =
            omega (arith, (==_iff (suc (suc (length group))) full).0 last) in
          rw (miss, last)
            (
              suc e,
              omega (arith, length-append group (x ∷ grouped delim full [] xs)),
              omega (arith, ap (λ k. e * (k - 1)) top, ap (λ k. suc e * (k - 1)) top),
            )
      | inr more ↦
          let (e, size, few) = length-grouped (group ++ x ∷ []) xs (
            ground (arith, length-append group (x ∷ []), ==_iff (suc (suc (length group))) full)) in
          rw (miss, more)
            (
              e,
              omega (arith, length-append group (x ∷ [])),
              omega (arith, length-append group (x ∷ [])),
            )
    ]
  ]

  -- A byte that an encoding may hold: no delimiter.
  abbrev pub IsPlain : ℕ → Type 0
  IsPlain b = IsByte b × (b ≢ delim)

  grouped-IsPlain :
      (group xs : List ℕ)
      → suc (length group) < full
      → (delim ≡ 0) ⊎ (full < delim)
      → full < 256
      → All IsPlain group
      → All IsByte xs
      → All IsPlain (grouped delim full group xs)
  unfolding grouped
  grouped-IsPlain group [] h d f p q = (omega arith, p)
  grouped-IsPlain group (x ∷ xs) h d f p q = ground (
    arith,
    All-append IsPlain group (grouped delim full [] xs) p,
    All-append IsPlain group (x ∷ grouped delim full [] xs) p,
    All-append IsPlain group (x ∷ []) p,
    grouped-IsPlain [] xs,
    grouped-IsPlain (group ++ x ∷ []) xs,
    length-append group (x ∷ []),
  )

  -- What stands between a group and the next one.
  abbrev pub separator : ℕ → List ℕ → List ℕ
  separator code after = if not (code == full) && not (is_empty after) then delim ∷ [] else []

  -- The bytes are whole groups that stand for the payload: every code byte has its `code - 1` bytes behind it.
  pub data Groups : List ℕ → List ℕ → Type 0 where
    done : Groups [] []
    whole_group :
        (code : ℕ) (rest : List ℕ) {payload : List ℕ}
        → code ≢ delim
        → code ≢ 0
        → code - 1 ≤ length rest
        → Groups (drop (code - 1) rest) payload
        → Groups
            (code ∷ rest)
            (take (code - 1) rest ++ (separator code (drop (code - 1) rest) ++ payload))

  -- After some whole groups the bytes have a code byte that is no code, or one that asks for more than there is.
  pub data Broken : List ℕ → Type 0 where
    no_code : (code : ℕ) (rest : List ℕ) → (code ≡ delim) ⊎ (code ≡ 0) → Broken (code ∷ rest)
    cut_off : (code : ℕ) (rest : List ℕ) → length rest < code - 1 → Broken (code ∷ rest)
    later :
        (code : ℕ) (rest : List ℕ)
        → code - 1 ≤ length rest
        → Broken (drop (code - 1) rest)
        → Broken (code ∷ rest)

  -- How a decoder ends.
  abbrev pub Outcome : List ℕ → Decoded → Type 0
  Outcome bytes d =
      (length d.out ≤ length bytes)
      × (((payload : List ℕ) × Groups bytes payload × (d.out ≡ payload) × (d.size ≡ length d.out))
          ⊎ (Broken bytes × (d.size ≡ 0)))

  separator-written :
      (code : ℕ) (after copied : List ℕ)
      → (if not (code == full) && not (is_empty after) then copied ++ delim ∷ [] else copied)
        ≡ copied ++ separator code after
  separator-written code after copied =
      elim (Bool-cases (not (code == full) && not (is_empty after))) [
        | inl between ↦ rw between refl
        | inr last ↦ rw last (sym (append-nil copied))
      ]

  -- On any input the loop ends within its fuel, and never writes more bytes than it was given.
  decode_loop-within :
      (fuel n : ℕ) (bytes out : List ℕ)
      → length bytes ≤ fuel
      → length out + length bytes ≤ n
      → (d : Decoded) × (decode_loop delim full fuel bytes out ≡ some d)
        × (length d.out ≤ n)
        × (((payload : List ℕ) × Groups bytes payload
              × (d.out ≡ out ++ payload)
              × (d.size ≡ length d.out))
            ⊎ (Broken bytes × (d.size ≡ 0)))
  unfolding decode_loop
  decode_loop-within fuel n [] out h k = (
    record { size = length out; out = out },
    refl,
    omega arith,
    inl ([], done, sym (append-nil out), refl),
  )
  decode_loop-within zero n (c ∷ bs) out h k = absurd (omega arith)
  decode_loop-within (suc fuel) n (c ∷ bs) out h k =
      let failed : Decoded = record { size = 0; out = out } in
      elim (Bool-cases (c == delim || c == 0)) [
        | inl bad ↦
            let which : (c ≡ delim) ⊎ (c ≡ 0) = ground (arith, bad) in
            rw bad (failed, refl, omega arith, inr (no_code c bs which, refl))
        | inr good ↦ elim (Bool-cases (ltb (length bs) (c - 1))) [
          | inl short ↦
              rw (good, short)
                (failed, refl, omega arith, inr (cut_off c bs (ground (arith, short)), refl))
          | inr fits ↦
              let after = drop (c - 1) bs in
              let copied = out ++ take (c - 1) bs in
              let written =
                if not (c == full) && not (is_empty after) then copied ++ delim ∷ [] else copied in
              let width : length written + length after ≤ n = ground (
                arith,
                length-append out (take (c - 1) bs),
                length-append copied (delim ∷ []),
                length-take (c - 1) bs,
                length-drop (c - 1) bs,
              ) in
              let enough : c - 1 ≤ length bs = ground (arith, fits) in
              let codes : (c ≢ delim) × (c ≢ 0) = ground (arith, good) in
              let (d, e, less, which) =
                decode_loop-within fuel n after written (omega (arith, length-drop (c - 1) bs))
                  width in
              rw (good, fits)
                (
                  d,
                  e,
                  less,
                  elim which [
                    | inl (payload, groups, all, size) ↦ inl (
                      take (c - 1) bs ++ (separator c after ++ payload),
                      whole_group c bs codes.0 codes.1 enough groups,
                      all
                          ∙ ap (λ l. l ++ payload) (separator-written c after copied)
                          ∙ append_assoc copied (separator c after) payload
                          ∙ append_assoc out (take (c - 1) bs) (separator c after ++ payload),
                      size,
                    )
                    | inr (broken, none_) ↦ inr (later c bs enough broken, none_)
                  ],
                )
        ]
      ]

-- No byte of the 0xFF-keyed encoding of bytes is 0xFF, so 0xFF can end a record, and all of them are bytes.
pub ff_encode-IsPlain :
    (bytes : List ℕ) → All IsByte bytes → All (λ b. IsByte b × (b ≢ 0xff)) (ff_encode bytes)
ff_encode-IsPlain bytes h =
    rw (ff_encode-grouped bytes)
      (grouped-IsPlain 0xff 0xfe [] bytes (omega arith) (inr (omega arith)) (omega arith) tt h)

-- No byte of a 0x00-keyed encoding is 0x00.
pub encode-IsPlain :
    (bytes : List ℕ) → All IsByte bytes → All (λ b. IsByte b × (b ≢ 0x00)) (encode bytes)
encode-IsPlain bytes h =
    rw (encode-grouped bytes)
      (grouped-IsPlain 0x00 0xff [] bytes (omega arith) (inl refl) (omega arith) tt h)

-- Both encodings fit the buffers that `max_encoded` and `ff_max_encoded` size, and each is longer than its
-- payload.
pub encode_size :
    (bytes : List ℕ)
    → (length bytes < length (encode bytes))
      × (length (encode bytes) ≤ max_encoded (length bytes))
      × (length bytes < length (ff_encode bytes))
      × (length (ff_encode bytes) ≤ ff_max_encoded (length bytes))
unfolding max_encoded ff_max_encoded
encode_size bytes =
    let (e, p, q) = length-grouped 0x00 0xff [] bytes (omega arith) in
    let (e', p', q') = length-grouped 0xff 0xfe [] bytes (omega arith) in
    rw (encode-grouped bytes, ff_encode-grouped bytes)
      (omega arith, omega arith, omega arith, omega arith)

-- On every input, malformed or not, both decoders end, and write at most as many bytes as they read. Either the input is whole
-- groups, and the result is the payload that they stand for; or after some whole groups a code byte is 0 or the delimiter or
-- asks for more bytes than there are left, and the result is 0.
pub decode_total :
    (bytes : List ℕ)
    → ((d : Decoded) × (decode bytes ≡ some d) × Outcome 0x00 0xff bytes d)
      × ((d : Decoded) × (ff_decode bytes ≡ some d) × Outcome 0xff 0xfe bytes d)
unfolding decode ff_decode
decode_total bytes = (
  let (d, e, less, which) =
        decode_loop-within 0x00 0xff (length bytes) (length bytes) bytes [] (omega arith)
          (omega arith) in
      (d, e, (less, which)),
  let (d, e, less, which) =
        decode_loop-within 0xff 0xfe (length bytes) (length bytes) bytes [] (omega arith)
          (omega arith) in
      (d, e, (less, which)),
)

module _ (delim full : ℕ) where
  -- A group that is open when a byte is read keeps its place behind its code byte.
  grouped-open :
      (group xs : List ℕ)
      → (code : ℕ) × (rest : List ℕ) × (grouped delim full group xs ≡ code ∷ (group ++ rest))
  unfolding grouped
  grouped-open group [] = (suc (length group), [], rw (append-nil group))
  grouped-open group (x ∷ xs) = elim (Bool-cases (x == delim)) [
    | inl hit ↦ rw hit (suc (length group), grouped delim full [] xs, refl)
    | inr miss ↦ elim (Bool-cases (suc (suc (length group)) == full)) [
      | inl last ↦ rw (miss, last) (full, x ∷ grouped delim full [] xs, refl)
      | inr more ↦
          let (code, rest, e) = grouped-open (group ++ x ∷ []) xs in
          rw (miss, more)
            (code, x ∷ rest, e ∙ ap (λ l. code ∷ l) (append_assoc group (x ∷ []) rest))
    ]
  ]

-- The second byte of an encoding is the first byte of the payload, unless that is the delimiter.
pub ff_encode-head :
    (b : ℕ) (bs : List ℕ)
    → b ≢ 0xff
    → (code : ℕ) × (rest : List ℕ) × (ff_encode (b ∷ bs) ≡ code ∷ b ∷ rest)
ff_encode-head b bs h =
    let (code, rest, e) = grouped-open 0xff 0xfe (b ∷ []) bs in
    (code, rest, ff_encode-grouped (b ∷ bs) ∙ (unfold grouped in rw (==_ne b 0xff h) e))
