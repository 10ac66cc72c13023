-- ===== src/Mdio/Bridge/Command.antt =====
-- src/mdio/mdio_bridge.hpp: the parser of one command line. A `const char*& p` with its `end` is the list of the characters
-- that are left, and a parser that moves `p` returns what is left after it. `none` is `return false`, or in
-- `parse` the `Command` that is not valid.
use ch32_tapioca.Prelude.{
  ℕ, ◌+◌, ◌-◌, ◌*◌, Bool, true, false, ◌&&◌, ◌||◌, not, List, [], ◌∷◌, Option, none, some, ltb, leb,
  ◌==◌, if◌then◌else◌, drop, ◌>>=◌, ◌>>◌, guard,
}
use ch32_tapioca.Prelude.Words.{to_u8, to_u16, to_u32}
use ch32_tapioca.Text.{trim, skip_ws, match_keyword, starts_blank, at_end}

pub data Verb : Type 0 where
  verb_read verb_write verb_print : Verb

pub record Command : Type 0 where
  pub op : Verb
  pub phy : ℕ
  pub mmd_access : Bool
  pub mmd : ℕ
  pub reg : ℕ
  pub val : ℕ

abbrev pub in_range : ℕ → ℕ → ℕ → Bool
in_range low high c = leb low c && leb c high

-- The digit `c` has in a base, or `none` at the `break`.
unfoldable pub digit_of : ℕ → ℕ → Option ℕ
digit_of base c =
    if in_range b'0' b'9' c
    then some (c - b'0')
    else if base == 16 && in_range b'a' b'f' c
    then some (c - b'a' + 10)
    else if base == 16 && in_range b'A' b'F' c
    then some (c - b'A' + 10)
    else none

-- What follows the loop.
abbrev pub parsed : Bool → ℕ → List ℕ → Option (ℕ × List ℕ)
parsed any v p = if any then some (v, p) else none

-- The `while` loop, with `v` and `any`.
unfoldable pub parse_digits : ℕ → ℕ → ℕ → Bool → List ℕ → Option (ℕ × List ℕ)
unfolding digit_of
parse_digits base limit v any [] = parsed any v []
parse_digits base limit v any (c ∷ cs) = elim (digit_of base c) [
  | none ↦ parsed any v (c ∷ cs)
  | some d ↦
      let v' = to_u32 (v * base + d) in
      let rest = parse_digits base limit v' true cs in if ltb limit v' then none else rest
]

abbrev pub has_hex_prefix : List ℕ → Bool
has_hex_prefix (c ∷ x ∷ _) = c == b'0' && (x == b'x' || x == b'X')
has_hex_prefix _ = false

unfoldable pub parse_uint : ℕ → List ℕ → Option (ℕ × List ℕ)
unfolding parse_digits
parse_uint limit p =
    if has_hex_prefix p
    then parse_digits 16 limit 0 false (drop 2 p)
    else parse_digits 10 limit 0 false p

-- `p < end && *p == c`, with the characters after it.
unfoldable pub expect : ℕ → List ℕ → Option (List ℕ)
expect k [] = none
expect k (c ∷ cs) = if c == k then some cs else none

abbrev pub read_keyword : List ℕ
read_keyword = b'r' ∷ b'e' ∷ b'a' ∷ b'd' ∷ []

abbrev pub write_keyword : List ℕ
write_keyword = b'w' ∷ b'r' ∷ b'i' ∷ b't' ∷ b'e' ∷ []

abbrev pub print_keyword : List ℕ
print_keyword = b'p' ∷ b'r' ∷ b'i' ∷ b'n' ∷ b't' ∷ []

-- The chain of `verbIs`.
unfoldable pub parse_verb : List ℕ → Option (Verb × List ℕ)
unfolding match_keyword
parse_verb p = elim (match_keyword p read_keyword) [
  | some rest ↦ some (verb_read, rest)
  | none ↦ elim (match_keyword p write_keyword) [
    | some rest ↦ some (verb_write, rest)
    | none ↦ elim (match_keyword p print_keyword) [
      | some rest ↦ some (verb_print, rest)
      | none ↦ none
    ]
  ]
]

-- `[:<mmd>]`, and whether it is there.
unfoldable pub parse_mmd : List ℕ → Option (Bool × ℕ × List ℕ)
unfolding expect parse_uint
parse_mmd p = elim (expect b':' p) [
  | none ↦ some (false, 0, p)
  | some rest ↦ do (mmd, p) ← parse_uint 31 rest; some (true, mmd, p)
]

-- `[:<mmd>]/<reg>`.
unfoldable pub parse_address : List ℕ → Option (Bool × ℕ × ℕ × List ℕ)
unfolding parse_mmd expect parse_uint
parse_address p = do
  (mmd_access, mmd, p) ← parse_mmd p
  p ← expect b'/' p
  (reg, p) ← parse_uint (if mmd_access then 0xffff else 31) p
  some (mmd_access, mmd, reg, p)

-- `p == end` after blanks, and the fields cast into the command.
unfoldable pub finish : Verb → ℕ → Bool → ℕ → ℕ → ℕ → List ℕ → Option Command
unfolding skip_ws
finish op phy mmd_access mmd reg val p =
    if at_end (skip_ws p)
    then some (record {
      op = op;
      phy = to_u8 phy;
      mmd_access = mmd_access;
      mmd = to_u8 mmd;
      reg = to_u16 reg;
      val = to_u16 val;
    })
    else none

-- From the first operand on.
unfoldable pub parse_operands : Verb → List ℕ → Option Command
unfolding parse_uint parse_address finish skip_ws
parse_operands verb_read p = do
  (phy, p) ← parse_uint 31 p
  (mmd_access, mmd, reg, p) ← parse_address p
  finish verb_read phy mmd_access mmd reg 0 p
parse_operands verb_write p = do
  (phy, p) ← parse_uint 31 p
  (mmd_access, mmd, reg, p) ← parse_address p
  let p = skip_ws p
  guard (not (at_end p))
  (val, p) ← parse_uint 0xffff p
  finish verb_write phy mmd_access mmd reg val p
parse_operands verb_print p = do (phy, p) ← parse_uint 31 p; finish verb_print phy false 0 0 0 p

unfoldable pub parse : List ℕ → Option Command
unfolding parse_operands trim skip_ws expect parse_verb
parse line = do
  p ← expect b'!' (skip_ws (trim line))
  (op, p) ← parse_verb p
  guard (starts_blank p)
  parse_operands op (skip_ws p)
