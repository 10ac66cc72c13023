-- ===== src/Cobs/RoundTrip.antt =====
-- src/util/cobs.hpp: `decode` undoes `encode`, in both keyings.
use ch32_tapioca.Prelude.{
  ℕ, zero, suc, ◌-◌, ◌≤◌, ◌<◌, ◌≡◌, ◌≢◌, refl, ap, ◌∙◌, sym, List, [], ◌∷◌, ◌++◌, arith, ◌==◌,
  if◌then◌else◌, length, length-append, append_assoc, append-nil, inl, inr, take-append,
  drop-append, Option, some, Bool-cases, ==_iff, ==_ne, ltb, not, ◌&&◌, false, ◌⊎◌,
}
use ch32_tapioca.Cobs.{Decoded, decode_loop, encode, decode, ff_encode, ff_decode}
use ch32_tapioca.Cobs.Spec.{grouped, encode-grouped, ff_encode-grouped}

module _ (delim full : ℕ) where
  -- One round of the decoder on a whole group: its bytes are copied, and a delimiter stands for the
  -- next code byte unless the group was full or the input ends.
  decode_loop-group :
      (fuel : ℕ) (group after out : List ℕ)
      → suc (length group) ≢ delim
      → decode_loop delim full (suc fuel) (suc (length group) ∷ (group ++ after)) out
        ≡ decode_loop delim full fuel after (
            if not (suc (length group) == full) && not (length after == 0)
            then (out ++ group) ++ delim ∷ []
            else out ++ group)
  unfolding decode_loop
  decode_loop-group fuel group after out h =
      let pred : suc (length group) - 1 ≡ length group = omega arith in
      let fits : ltb (length (group ++ after)) (length group) ≡ false =
        ground (arith, length-append group after) in
      rw (
        pred,
        ==_ne (suc (length group)) delim h,
        ==_ne (suc (length group)) 0 (omega arith),
        fits,
        take-append group after,
        drop-append group after,
      )

  decode_loop-nil :
      (fuel : ℕ) (out : List ℕ)
      → decode_loop delim full fuel [] out ≡ some (record { size = length out; out = out })
  unfolding decode_loop
  decode_loop-nil fuel out = refl

  length-grouped_pos : (group xs : List ℕ) → 0 < length (grouped delim full group xs)
  unfolding grouped
  length-grouped_pos group [] = omega arith
  length-grouped_pos group (x ∷ xs) = ground (arith, length-grouped_pos (group ++ x ∷ []) xs)

  -- A group that other groups follow stands for its bytes and a delimiter, or, if it is full, for
  -- its bytes alone.
  decode_loop-closed :
      (fuel : ℕ) (group xs out : List ℕ)
      → suc (length group) ≢ delim
      → suc (length group) ≢ full
      → decode_loop delim full
          (suc fuel)
          (suc (length group) ∷ (group ++ grouped delim full [] xs))
          out
        ≡ decode_loop delim full fuel (grouped delim full [] xs) ((out ++ group) ++ delim ∷ [])
  decode_loop-closed fuel group xs out h k = rw (
    decode_loop-group fuel group (grouped delim full [] xs) out h,
    ==_ne (suc (length group)) full k,
    ==_ne (length (grouped delim full [] xs)) 0 (omega (arith, length-grouped_pos [] xs)),
  )

  decode_loop-full :
      (fuel : ℕ) (group xs out : List ℕ)
      → suc (length group) ≢ delim
      → suc (length group) ≡ full
      → decode_loop delim full (suc fuel) (full ∷ (group ++ grouped delim full [] xs)) out
        ≡ decode_loop delim full fuel (grouped delim full [] xs) (out ++ group)
  decode_loop-full fuel group xs out h k =
      ap (λ c. decode_loop delim full (suc fuel) (c ∷ (group ++ grouped delim full [] xs)) out)
        (sym k)
      ∙ decode_loop-group fuel group (grouped delim full [] xs) out h
      ∙ rw ((==_iff (suc (length group)) full).1 k)

  abbrev all_of : List ℕ → Option Decoded
  all_of out = some (record { size = length out; out = out })

  decode_loop-grouped :
      (fuel : ℕ) (group xs out : List ℕ)
      → suc (length group) < full
      → (delim ≡ 0) ⊎ (full < delim)
      → length (grouped delim full group xs) ≤ fuel
      → decode_loop delim full fuel (grouped delim full group xs) out
        ≡ all_of (out ++ (group ++ xs))
  unfolding grouped
  decode_loop-grouped zero group xs out h d k = absurd (omega (arith, length-grouped_pos group xs))
  decode_loop-grouped (suc fuel) group [] out h d k =
      ap (λ l. decode_loop delim full (suc fuel) (suc (length group) ∷ l) out)
        (sym (append-nil group))
      ∙ decode_loop-group fuel group [] out (omega arith)
      ∙ rw (==_ne (suc (length group)) full (omega arith), append-nil group)
          (decode_loop-nil fuel (out ++ group))
  decode_loop-grouped (suc fuel) group (x ∷ xs) out h d k = elim (Bool-cases (x == delim)) [
    | inl hit ↦
        let k' : suc (length (group ++ grouped delim full [] xs)) ≤ suc fuel = rw hit at k in
        rw
          (
            hit,
            (==_iff x delim).0 hit,
            decode_loop-closed fuel group xs out (omega arith) (omega arith),
          )
          (decode_loop-grouped fuel [] xs ((out ++ group) ++ delim ∷ []) (omega arith) d
              (omega (arith, length-append group (grouped delim full [] xs)))
            ∙ ap all_of
                (append_assoc (out ++ group) (delim ∷ []) xs ∙ append_assoc out group (delim ∷ xs)))
    | inr miss ↦ elim (Bool-cases (suc (suc (length group)) == full)) [
      | inl last ↦
          let k' : suc (length (group ++ x ∷ grouped delim full [] xs)) ≤ suc fuel =
            rw (miss, last) at k in
          let size : suc (length (group ++ x ∷ [])) ≡ full = omega (
            arith,
            length-append group (x ∷ []),
            (==_iff (suc (suc (length group))) full).0 last,
          ) in
          rw
            (
              miss,
              last,
              ← append_assoc group (x ∷ []) (grouped delim full [] xs),
              decode_loop-full fuel (group ++ x ∷ []) xs out (omega arith) size,
            )
            (decode_loop-grouped fuel [] xs (out ++ (group ++ x ∷ [])) (omega arith) d
                (omega (arith, length-append group (x ∷ grouped delim full [] xs)))
              ∙ ap all_of (
                  append_assoc out (group ++ x ∷ []) xs
                  ∙ ap (λ l. out ++ l) (append_assoc group (x ∷ []) xs)))
      | inr more ↦
          let room : suc (length (group ++ x ∷ [])) < full =
            ground (arith, length-append group (x ∷ []), ==_iff (suc (suc (length group))) full) in
          rw (miss, more, ← append_assoc group (x ∷ []) xs)
            (decode_loop-grouped (suc fuel) (group ++ x ∷ []) xs out room d (rw (miss, more) at k))
    ]
  ]

-- Standard COBS: decoding an encoding succeeds, and gives back every payload with its length.
pub decode-encode :
    (bytes : List ℕ) → decode (encode bytes) ≡ some (record { size = length bytes; out = bytes })
unfolding decode
decode-encode bytes =
    rw (encode-grouped bytes)
      (decode_loop-grouped 0x00 0xff _ [] bytes [] (omega arith) (inl refl) (omega arith))

-- COBS on 0xFF: decoding an encoding succeeds, and gives back every payload with its length.
pub ff_decode-ff_encode :
    (bytes : List ℕ)
    → ff_decode (ff_encode bytes) ≡ some (record { size = length bytes; out = bytes })
unfolding ff_decode
ff_decode-ff_encode bytes =
    rw (ff_encode-grouped bytes)
      (decode_loop-grouped 0xff 0xfe _ [] bytes [] (omega arith) (inr (omega arith)) (omega arith))
