-- ===== src/Cobs/Spec.antt =====
-- The encoder of src/util/cobs.hpp as a plain recursion on the groups, with no patched bytes.
use ch32_tapioca.Prelude.{
  ℕ, suc, ◌+◌, ◌%◌, ◌<◌, ◌≡◌, ap, ◌∙◌, List, [], ◌∷◌, ◌++◌, arith, ◌==◌, if◌then◌else◌, length, set,
  length-append, set-append, append_assoc, inl, inr, Bool-cases, ==_iff,
}
use ch32_tapioca.Cobs.{Encoder, close_group, encode_byte, encode_loop, encode, ff_encode}

module _ (delim full : ℕ) where
  -- The encoding of `xs` behind the open group `group`.
  unfoldable pub grouped : List ℕ → List ℕ → List ℕ
  grouped group [] = suc (length group) ∷ group
  grouped group (x ∷ xs) =
      let closed = suc (length group) ∷ (group ++ grouped [] xs) in
      let filled = full ∷ (group ++ x ∷ grouped [] xs) in
      let grown = grouped (group ++ x ∷ []) xs in
      if x == delim then closed else if suc (suc (length group)) == full then filled else grown

  -- The encoder's state when `done` is finished and `group` is open.
  abbrev opened : List ℕ → List ℕ → Encoder
  opened done group = record {
    out = done ++ 0 ∷ group;
    code_index = length done;
    code = suc (length group);
  }

  patch :
      (done group : List ℕ) (v : ℕ) → set (done ++ 0 ∷ group) (length done) v ≡ done ++ v ∷ group
  patch done group v =
      ap (λ i. set (done ++ 0 ∷ group) i v) (omega arith) ∙ set-append done (0 ∷ group) 0 v

  close-opened :
      (done group : List ℕ)
      → close_group (opened done group) ≡ opened (done ++ suc (length group) ∷ group) []
  unfolding close_group
  close-opened done group = ground (
    arith,
    patch done group (suc (length group)),
    length-append done (0 ∷ group),
    length-append done (suc (length group) ∷ group),
  )

  encode_loop-grouped :
      (done group xs : List ℕ)
      → suc (length group) < full
      → full < 256
      → encode_loop delim full (opened done group) xs ≡ done ++ grouped group xs
  unfolding encode_loop grouped encode_byte
  encode_loop-grouped done group [] h k = patch done group (suc (length group))
  encode_loop-grouped done group (x ∷ xs) h k = elim (Bool-cases (x == delim)) [
    | inl hit ↦
        rw (hit, close-opened done group)
          (encode_loop-grouped (done ++ suc (length group) ∷ group) [] xs (omega arith) k
            ∙ append_assoc done (suc (length group) ∷ group) (grouped [] xs))
    | inr miss ↦
        let wrap : (suc (length group) + 1) % 256 ≡ suc (length (group ++ x ∷ [])) =
          omega (arith, length-append group (x ∷ [])) in
        let snoc : length (group ++ x ∷ []) ≡ suc (length group) =
          omega (arith, length-append group (x ∷ [])) in
        elim (Bool-cases (suc (suc (length group)) == full)) [
          | inl last ↦
              rw (miss, append_assoc, wrap, close-opened done (group ++ x ∷ []), snoc, last)
                (rw ((==_iff _ full).0 last) (
                  encode_loop-grouped (done ++ full ∷ (group ++ x ∷ [])) [] xs (omega arith) k
                  ∙ append_assoc done (full ∷ (group ++ x ∷ [])) (grouped [] xs)
                  ∙ ap (λ l. done ++ full ∷ l) (append_assoc group (x ∷ []) (grouped [] xs))))
          | inr more ↦
              rw (miss, append_assoc, wrap, snoc, more)
                (rw (← snoc) (
                  encode_loop-grouped done (group ++ x ∷ []) xs
                    (ground (arith, ==_iff (suc (suc (length group))) full)) k))
        ]
  ]

pub encode-grouped : (xs : List ℕ) → encode xs ≡ grouped 0x00 0xff [] xs
unfolding encode
encode-grouped xs = encode_loop-grouped 0x00 0xff [] [] xs (omega arith) (omega arith)

pub ff_encode-grouped : (xs : List ℕ) → ff_encode xs ≡ grouped 0xff 0xfe [] xs
unfolding ff_encode
ff_encode-grouped xs = encode_loop-grouped 0xff 0xfe [] [] xs (omega arith) (omega arith)
