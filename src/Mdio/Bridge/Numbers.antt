-- ===== src/Mdio/Bridge/Numbers.antt =====
-- src/mdio/mdio_bridge.cpp: the number formats of its `printf` calls, and that mdio_bridge.hpp reads them back.
use ch32_tapioca.Prelude.{
  ℕ, zero, suc, ◌+◌, ◌-◌, ◌*◌, ◌/◌, ◌%◌, ◌≤◌, ◌<◌, ◌≡◌, refl, arith, Bool, true, false, List, [],
  ◌∷◌, ◌++◌, none, some, ltb, ◌==◌, if◌then◌else◌, Option-cases, inl, inr, ◌||◌, ◌⊎◌,
}
use ch32_tapioca.Prelude.Words.{to_u32}
use ch32_tapioca.Mdio.Bridge.Command.{digit_of, parse_digits, parse_uint, has_hex_prefix}

-- `%u` of a number of at most five digits, by the number of digits that are left.
unfoldable pub decimal_loop : ℕ → ℕ → List ℕ
decimal_loop zero v = []
decimal_loop (suc fuel) v =
    let front = decimal_loop fuel (v / 10) in
    (if ltb v 10 then [] else front) ++ (b'0' + v % 10) ∷ []

unfoldable pub decimal : ℕ → List ℕ
unfolding decimal_loop
decimal v = decimal_loop 5 v

abbrev pub hex_digit : ℕ → ℕ
hex_digit d = if ltb d 10 then b'0' + d else b'A' + (d - 10)

-- `0x%04X` of a number of 16 bits.
unfoldable pub hex4 : ℕ → List ℕ
hex4 v =
    b'0'
    ∷ b'x'
    ∷ hex_digit (v / 4096 % 16)
    ∷ hex_digit (v / 256 % 16)
    ∷ hex_digit (v / 16 % 16)
    ∷ hex_digit (v % 16)
    ∷ []

-- Whether a number would go on.
abbrev pub starts_digit : ℕ → List ℕ → Bool
starts_digit base [] = false
starts_digit base (c ∷ cs) = elim (digit_of base c) [ none ↦ false | some _ ↦ true ]

digit_of-hex_digit : (d : ℕ) → d < 16 → digit_of 16 (hex_digit d) ≡ some d
unfolding digit_of
digit_of-hex_digit d h = ground arith

digit_of-decimal : (d : ℕ) → d < 10 → digit_of 10 (b'0' + d) ≡ some d
unfolding digit_of
digit_of-decimal d h = ground arith

parse_digits-some :
    (base limit v : ℕ) (any : Bool) (c d : ℕ) (cs : List ℕ)
    → digit_of base c ≡ some d
    → v * base + d ≤ limit
    → limit < 4294967296
    → parse_digits base limit v any (c ∷ cs) ≡ parse_digits base limit (v * base + d) true cs
unfolding parse_digits
parse_digits-some base limit v any c d cs h fits small =
    let same : to_u32 (v * base + d) ≡ v * base + d = omega arith in
    let no : ltb limit (v * base + d) ≡ false = ground arith in rw (h, parse_digits, same, no)

parse_digits-stop :
    (base limit v : ℕ) (cs : List ℕ)
    → starts_digit base cs ≡ false
    → parse_digits base limit v true cs ≡ some (v, cs)
unfolding parse_digits
parse_digits-stop base limit v [] h = refl
parse_digits-stop base limit v (c ∷ cs) h = elim (Option-cases (digit_of base c)) [
  | inl e ↦ ground arith
  | inr (d, e) ↦ ground arith
]

pub parse_uint-hex4 :
    (v : ℕ) (rest : List ℕ)
    → v < 65536
    → starts_digit 16 rest ≡ false
    → parse_uint 0xffff (hex4 v ++ rest) ≡ some (v, rest)
unfolding parse_uint hex4
parse_uint-hex4 v rest h stop =
    let d3 = v / 4096 % 16 in
    let d2 = v / 256 % 16 in
    let d1 = v / 16 % 16 in
    let d0 = v % 16 in
    let f1 : 0 * 16 + d3 ≡ v / 4096 = omega arith in
    let f2 : v / 4096 * 16 + d2 ≡ v / 256 = omega arith in
    let f3 : v / 256 * 16 + d1 ≡ v / 16 = omega arith in
    let f4 : v / 16 * 16 + d0 ≡ v = omega arith in
    rw
      (
        parse_digits-some 16 0xffff 0 false (hex_digit d3) d3
            (hex_digit d2 ∷ hex_digit d1 ∷ hex_digit d0 ∷ rest)
            (digit_of-hex_digit d3 (omega arith)) (omega arith) (omega arith),
        f1,
        parse_digits-some 16 0xffff (v / 4096) true (hex_digit d2) d2
            (hex_digit d1 ∷ hex_digit d0 ∷ rest) (digit_of-hex_digit d2 (omega arith)) (omega arith)
            (omega arith),
        f2,
        parse_digits-some 16 0xffff (v / 256) true (hex_digit d1) d1 (hex_digit d0 ∷ rest)
            (digit_of-hex_digit d1 (omega arith)) (omega arith) (omega arith),
        f3,
        parse_digits-some 16 0xffff (v / 16) true (hex_digit d0) d0 rest
            (digit_of-hex_digit d0 (omega arith)) (omega arith) (omega arith),
        f4,
      )
      (parse_digits-stop 16 0xffff v rest stop)

decimal-one : (v : ℕ) → v < 10 → decimal v ≡ (b'0' + v) ∷ []
unfolding decimal decimal_loop
decimal-one v h = ground arith

decimal-two : (v : ℕ) → 10 ≤ v → v < 32 → decimal v ≡ (b'0' + v / 10) ∷ (b'0' + v % 10) ∷ []
unfolding decimal decimal_loop
decimal-two v h k = ground arith

-- A character that cannot stand after a decimal: `x` or `X` would make a base of a leading zero.
abbrev pub is_hex_mark : List ℕ → Bool
is_hex_mark [] = false
is_hex_mark (c ∷ cs) = c == b'x' || c == b'X'

pub parse_uint-decimal :
    (v : ℕ) (rest : List ℕ)
    → v < 32
    → starts_digit 10 rest ≡ false
    → is_hex_mark rest ≡ false
    → parse_uint 31 (decimal v ++ rest) ≡ some (v, rest)
unfolding parse_uint
parse_uint-decimal v rest h stop mark = elim (split v) [
  | inl small ↦
      let plain : has_hex_prefix ((b'0' + v) ∷ rest) ≡ false = no_prefix (b'0' + v) rest mark in
      let f0 : 0 * 10 + v ≡ v = omega arith in
      rw
        (
          decimal-one v small,
          plain,
          parse_digits-some 10 31 0 false (b'0' + v) v rest (digit_of-decimal v small) (omega arith)
              (omega arith),
          f0,
        )
        (parse_digits-stop 10 31 v rest stop)
  | inr large ↦
      let t = v / 10 in
      let u = v % 10 in
      let plain : has_hex_prefix ((b'0' + t) ∷ (b'0' + u) ∷ rest) ≡ false =
        no_prefix (b'0' + t) ((b'0' + u) ∷ rest) (ground arith) in
      let f1 : 0 * 10 + t ≡ t = omega arith in
      let f0 : t * 10 + u ≡ v = omega arith in
      rw
        (
          decimal-two v large h,
          plain,
          parse_digits-some 10 31 0 false (b'0' + t) t ((b'0' + u) ∷ rest)
              (digit_of-decimal t (omega arith)) (omega arith) (omega arith),
          f1,
          parse_digits-some 10 31 t true (b'0' + u) u rest (digit_of-decimal u (omega arith))
              (omega arith) (omega arith),
          f0,
        )
        (parse_digits-stop 10 31 v rest stop)
]
  where
    split : (v : ℕ) → (v < 10) ⊎ (10 ≤ v)
    split v = omega arith

    no_prefix :
        (c : ℕ) (rest : List ℕ) → is_hex_mark rest ≡ false → has_hex_prefix (c ∷ rest) ≡ false
    no_prefix c [] h = refl
    no_prefix c (x ∷ xs) h = ground arith

pub decimal-cases :
    (v : ℕ) → v < 32 → (d : ℕ) × (ds : List ℕ) × (d < 10) × (decimal v ≡ (b'0' + d) ∷ ds)
decimal-cases v h = elim (split v) [
  | inl small ↦ (v, [], small, decimal-one v small)
  | inr large ↦ (v / 10, (b'0' + v % 10) ∷ [], omega arith, decimal-two v large h)
]
  where
    split : (v : ℕ) → (v < 10) ⊎ (10 ≤ v)
    split v = omega arith
