-- ===== src/Mdio/Bridge/RoundTrip.antt =====
-- src/mdio/mdio_bridge.hpp: `UsbBridge::parse` reads back a command written with the formats of the replies.
use ch32_tapioca.Prelude.{
  ℕ, ◌+◌, ◌%◌, ◌<◌, ◌≡◌, refl, ap, sym, ◌∙◌, arith, Bool, true, false, List, [], ◌∷◌, ◌++◌, take,
  some, append_assoc, append-nil,
}
use ch32_tapioca.Text.{trim, skip_ws, match_keyword, is_trailing, is_blank}
use ch32_tapioca.Text.Spans.{trim-append}
use ch32_tapioca.Mdio.Bridge.Command.{
  Verb, verb_read, verb_write, verb_print, Command, digit_of, parse_uint, expect, parse_mmd,
  parse_address, parse_verb, parse_operands, parse, read_keyword, write_keyword, print_keyword,
}
use ch32_tapioca.Mdio.Bridge.Numbers.{
  decimal, decimal_loop, hex4, hex_digit, starts_digit, is_hex_mark, parse_uint-hex4,
  parse_uint-decimal, decimal-cases,
}
use ch32_tapioca.Mdio.Bridge.Grammar.{IsCommand, IsAddress, finish_lem}

-- `%u:%u/0x%04X` or `%u/%u`, from the part after the PHY on.
unfoldable pub address_text : Bool → ℕ → ℕ → List ℕ
unfolding decimal hex4
address_text true mmd reg = b':' ∷ (decimal mmd ++ b'/' ∷ hex4 reg)
address_text false mmd reg = b'/' ∷ decimal reg

keyword : Verb → List ℕ
keyword verb_read = read_keyword
keyword verb_write = write_keyword
keyword verb_print = print_keyword

operand_text : Command → Verb → List ℕ
unfolding address_text hex4
operand_text c verb_read = address_text c.mmd_access c.mmd c.reg
operand_text c verb_write = address_text c.mmd_access c.mmd c.reg ++ b' ' ∷ hex4 c.val
operand_text c verb_print = []

-- `!read 1/4`, `!write 1:31/0x0300 0x1A2B`, `!print 1`.
unfoldable pub command_text : Command → List ℕ
unfolding keyword decimal operand_text
command_text c = b'!' ∷ (keyword c.op ++ b' ' ∷ (decimal c.phy ++ operand_text c c.op))

-- The text that follows does not continue a number.
abbrev IsStop : List ℕ → Type 0
IsStop rest =
    (starts_digit 16 rest ≡ false) × (starts_digit 10 rest ≡ false) × (is_hex_mark rest ≡ false)

parse_address-text :
    (b : Bool) (mmd reg : ℕ) (rest : List ℕ)
    → IsAddress b mmd reg
    → IsStop rest
    → parse_address (address_text b mmd reg ++ rest) ≡ some (b, mmd, reg, rest)
unfolding parse_address parse_mmd expect address_text
parse_address-text true mmd reg rest a (hex, dec, mark) = rw (
  append_assoc (decimal mmd) (b'/' ∷ hex4 reg) rest,
  parse_uint-decimal mmd (b'/' ∷ (hex4 reg ++ rest)) a.0 refl refl,
  parse_uint-hex4 reg rest a.1 hex,
)
parse_address-text false mmd reg rest a (hex, dec, mark) =
    rw (a.0, parse_uint-decimal reg rest a.1 dec mark)

-- The text ends in a character that `parse` does not trim.
IsSnoc : List ℕ → Type 0
IsSnoc t = (xs : List ℕ) × (c : ℕ) × (is_trailing c ≡ false) × (t ≡ xs ++ c ∷ [])

trim-IsSnoc : (t : List ℕ) → IsSnoc t → trim t ≡ t
unfolding IsSnoc
trim-IsSnoc t (xs, c, plain, e) = rw e (trim-append xs c [] plain tt)

++-IsSnoc : (a b : List ℕ) → IsSnoc b → IsSnoc (a ++ b)
unfolding IsSnoc
++-IsSnoc a b (xs, c, plain, e) =
    (a ++ xs, c, plain, ap (λ t. a ++ t) e ∙ sym (append_assoc a xs (c ∷ [])))

∷-IsSnoc : (x : ℕ) (b : List ℕ) → IsSnoc b → IsSnoc (x ∷ b)
∷-IsSnoc x b h = ++-IsSnoc (x ∷ []) b h

decimal-IsSnoc : (v : ℕ) → IsSnoc (decimal v)
unfolding decimal decimal_loop IsSnoc
decimal-IsSnoc v = (_, b'0' + v % 10, ground arith, refl)

hex4-IsSnoc : (v : ℕ) → IsSnoc (hex4 v)
unfolding hex4 IsSnoc
hex4-IsSnoc v = (take 5 (hex4 v), hex_digit (v % 16), last (v % 16) (omega arith), refl)
  where
    last : (d : ℕ) → d < 16 → is_trailing (hex_digit d) ≡ false
    last d h = ground arith

address-IsSnoc : (b : Bool) (mmd reg : ℕ) → IsSnoc (address_text b mmd reg)
unfolding address_text
address-IsSnoc true mmd reg =
    ∷-IsSnoc b':' _ (++-IsSnoc (decimal mmd) _ (∷-IsSnoc b'/' _ (hex4-IsSnoc reg)))
address-IsSnoc false mmd reg = ∷-IsSnoc b'/' _ (decimal-IsSnoc reg)

operands-IsSnoc : (c : Command) (op : Verb) → IsSnoc (decimal c.phy ++ operand_text c op)
unfolding operand_text
operands-IsSnoc c verb_read = ++-IsSnoc (decimal c.phy) _ (address-IsSnoc c.mmd_access c.mmd c.reg)
operands-IsSnoc c verb_write =
    ++-IsSnoc (decimal c.phy) _
      (++-IsSnoc (address_text c.mmd_access c.mmd c.reg) _ (∷-IsSnoc b' ' _ (hex4-IsSnoc c.val)))
operands-IsSnoc c verb_print = rw (append-nil (decimal c.phy)) (decimal-IsSnoc c.phy)

command-IsSnoc : (c : Command) → IsSnoc (command_text c)
unfolding command_text
command-IsSnoc c =
    ∷-IsSnoc b'!' _ (++-IsSnoc (keyword c.op) _ (∷-IsSnoc b' ' _ (operands-IsSnoc c c.op)))

-- A decimal starts with a digit, which is no blank.
skip_ws-decimal : (v : ℕ) (rest : List ℕ) → v < 32 → skip_ws (decimal v ++ rest) ≡ decimal v ++ rest
unfolding skip_ws
skip_ws-decimal v rest h =
    let (d, ds, small, e) = decimal-cases v h in
    let plain : is_blank (b'0' + d) ≡ false = ground arith in rw (e, plain)

address-stop :
    (b : Bool) (mmd reg : ℕ) (rest : List ℕ)
    → (starts_digit 10 (address_text b mmd reg ++ rest) ≡ false)
      × (is_hex_mark (address_text b mmd reg ++ rest) ≡ false)
unfolding address_text digit_of
address-stop true mmd reg rest = (refl, refl)
address-stop false mmd reg rest = (refl, refl)

hex4_end : (val : ℕ) → val < 65536 → parse_uint 0xffff (skip_ws (hex4 val)) ≡ some (val, [])
unfolding skip_ws hex4
hex4_end val h = parse_uint-hex4 val [] h refl

parse_operands-text :
    (op : Verb) (phy : ℕ) (b : Bool) (mmd reg val : ℕ)
    → let c : Command = record {
      op = op;
      phy = phy;
      mmd_access = b;
      mmd = mmd;
      reg = reg;
      val = val;
    } in
      IsCommand c → parse_operands op (decimal phy ++ operand_text c op) ≡ some c
unfolding parse_operands operand_text
parse_operands-text verb_read phy b mmd reg val (h, a, o) =
    let c : Command = record {
      op = verb_read;
      phy = phy;
      mmd_access = b;
      mmd = mmd;
      reg = reg;
      val = 0;
    } in
    let (stop, mark) = address-stop b mmd reg [] in
    rw (
      o,
      sym (append-nil (address_text b mmd reg)),
      parse_uint-decimal phy (address_text b mmd reg ++ []) h stop mark,
      parse_address-text b mmd reg [] a (refl, refl, refl),
      finish_lem c [] (h, a, refl),
    )
parse_operands-text verb_write phy b mmd reg val (h, a, o) =
    let c : Command = record {
      op = verb_write;
      phy = phy;
      mmd_access = b;
      mmd = mmd;
      reg = reg;
      val = val;
    } in
    let rest = b' ' ∷ hex4 val in
    let (stop, mark) = address-stop b mmd reg rest in
    rw (
      parse_uint-decimal phy (address_text b mmd reg ++ rest) h stop mark,
      parse_address-text b mmd reg rest a (refl, refl, refl),
      hex4_end val o,
      finish_lem c [] (h, a, o),
    )
parse_operands-text verb_print phy true mmd reg val (h, a, (o1, o2, o3)) = absurd (ground arith)
parse_operands-text verb_print phy false mmd reg val (h, a, (o1, o2, o3)) =
    let c : Command = record {
      op = verb_print;
      phy = phy;
      mmd_access = false;
      mmd = 0;
      reg = 0;
      val = 0;
    } in
    rw (
      a.0,
      o2,
      o3,
      parse_uint-decimal phy [] h refl refl,
      finish_lem c [] (h, (refl, omega arith), (refl, refl, refl)),
    )

parse_verb-keyword : (op : Verb) (rest : List ℕ) → parse_verb (keyword op ++ rest) ≡ some (op, rest)
unfolding parse_verb keyword match_keyword
parse_verb-keyword verb_read rest = refl
parse_verb-keyword verb_write rest = refl
parse_verb-keyword verb_print rest = refl

command_text-start :
    (c : Command)
    → expect b'!' (skip_ws (command_text c))
      ≡ some (keyword c.op ++ b' ' ∷ (decimal c.phy ++ operand_text c c.op))
unfolding expect skip_ws command_text
command_text-start c = refl

skip_ws-blank : (rest : List ℕ) → skip_ws (b' ' ∷ rest) ≡ skip_ws rest
unfolding skip_ws
skip_ws-blank rest = refl

-- Every command whose fields are in range is read back from its text, the numbers being written in the formats
-- of the replies.
pub parse-command_text : (c : Command) → IsCommand c → parse (command_text c) ≡ some c
unfolding parse
parse-command_text c ok =
    let (h, a, o) = ok in
    let rest = decimal c.phy ++ operand_text c c.op in
    rw
      (
        trim-IsSnoc (command_text c) (command-IsSnoc c),
        command_text-start c,
        parse_verb-keyword c.op (b' ' ∷ rest),
        skip_ws-blank rest,
        skip_ws-decimal c.phy (operand_text c c.op) h,
      )
      (parse_operands-text c.op c.phy c.mmd_access c.mmd c.reg c.val ok)
