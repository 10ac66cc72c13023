-- ===== src/Mdio/Bridge/Grammar.antt =====
-- src/mdio/mdio_bridge.hpp: what `UsbBridge::parse` accepts.
use ch32_tapioca.Prelude.{
  ℕ, ◌+◌, ◌*◌, ◌≤◌, ◌<◌, ◌≡◌, refl, subst, arith, Bool, true, false, not, List, [], ◌∷◌, Option,
  none, some, if◌then◌else◌, Option-cases, Bool-cases, inl, inr, drop, ◌⊎◌, guard, >>=-eq-some,
}
use ch32_tapioca.Prelude.Words.{to_u8, to_u16, to_u32}
use ch32_tapioca.Text.{trim, skip_ws, starts_blank, at_end}
use ch32_tapioca.Mdio.Bridge.Command.{
  Verb, verb_read, verb_write, verb_print, Command, digit_of, parse_digits, parse_uint, expect,
  parse_mmd, parse_address, parse_verb, parse_operands, finish, parse,
}

parse_digits-bound :
    (base limit v : ℕ) (any : Bool) (p : List ℕ) (w : ℕ) (rest : List ℕ)
    → v ≤ limit
    → parse_digits base limit v any p ≡ some (w, rest)
    → w ≤ limit
unfolding parse_digits
parse_digits-bound base limit v any [] w rest h e = ground arith
parse_digits-bound base limit v any (c ∷ cs) w rest h e = elim (Option-cases (digit_of base c)) [
  | inl stop ↦ ground arith
  | inr (d, go) ↦
      ground (arith, parse_digits-bound base limit (to_u32 (v * base + d)) true cs w rest)
]

-- A number that parses is at most the limit.
pub parse_uint-bound :
    (limit : ℕ) (p : List ℕ) (r : ℕ × List ℕ) → parse_uint limit p ≡ some r → r.0 ≤ limit
unfolding parse_uint
parse_uint-bound limit p (w, rest) e = ground (
  arith,
  parse_digits-bound 16 limit 0 false p w rest,
  parse_digits-bound 16 limit 0 false (drop 2 p) w rest,
  parse_digits-bound 10 limit 0 false p w rest,
)

-- The address is in range for its kind of access.
abbrev pub IsAddress : Bool → ℕ → ℕ → Type 0
IsAddress true mmd reg = (mmd < 32) × (reg < 65536)
IsAddress false mmd reg = (mmd ≡ 0) × (reg < 32)

abbrev pub IsOperand : Verb → Command → Type 0
IsOperand verb_read c = c.val ≡ 0
IsOperand verb_write c = c.val < 65536
IsOperand verb_print c = (c.mmd_access ≡ false) × (c.reg ≡ 0) × (c.val ≡ 0)

-- All fields are in the range of their kind, and those that the kind does not have are 0.
abbrev pub IsCommand : Command → Type 0
IsCommand c = (c.phy < 32) × IsAddress c.mmd_access c.mmd c.reg × IsOperand c.op c

abbrev IsMmd : Option (Bool × ℕ × List ℕ) → Type 0
IsMmd none = Unit {0}
IsMmd (some r) = ((r.0 ≡ false) × (r.1 ≡ 0)) ⊎ ((r.0 ≡ true) × (r.1 < 32))

parse_mmd-IsMmd : (p : List ℕ) → IsMmd (parse_mmd p)
unfolding parse_mmd
parse_mmd-IsMmd p = elim (Option-cases (expect b':' p)) [
  | inl e1 ↦ rw (parse_mmd, e1) (inl (refl, refl))
  | inr (rest, e1) ↦ elim (Option-cases (parse_uint 31 rest)) [
    | inl e2 ↦ rw (parse_mmd, e1, e2) tt
    | inr (m, e2) ↦
        let bound = parse_uint-bound 31 rest m e2 in
        rw (parse_mmd, e1, e2) (inr (refl, omega arith))
  ]
]

parse_mmd-bound :
    (p : List ℕ) (r : Bool × ℕ × List ℕ)
    → parse_mmd p ≡ some r
    → ((r.0 ≡ false) × (r.1 ≡ 0)) ⊎ ((r.0 ≡ true) × (r.1 < 32))
parse_mmd-bound p r e = subst IsMmd e (parse_mmd-IsMmd p)

IsAddress-of :
    (b : Bool) (mmd reg : ℕ)
    → ((b ≡ false) × (mmd ≡ 0)) ⊎ ((b ≡ true) × (mmd < 32))
    → reg ≤ (if b then 0xffff else 31)
    → IsAddress b mmd reg
IsAddress-of true mmd reg h k = ground arith
IsAddress-of false mmd reg h k = ground arith

parse_address-bound :
    (p : List ℕ) (r : Bool × ℕ × ℕ × List ℕ) → parse_address p ≡ some r → IsAddress r.0 r.1 r.2
unfolding parse_address
parse_address-bound p r e =
    let (m, at_mmd, e1) = >>=-eq-some (parse_mmd p) _ e in
    let (q, slash, e2) = >>=-eq-some (expect b'/' m.2) _ e1 in
    let (n, at_reg, e3) = >>=-eq-some (parse_uint (if m.0 then 0xffff else 31) q) _ e2 in
    let bound = parse_uint-bound (if m.0 then 0xffff else 31) q n at_reg in
    subst
      (λ (o : Option (Bool × ℕ × ℕ × List ℕ)). elim o [
        | none ↦ Unit {0}
        | some t ↦ IsAddress t.0 t.1 t.2
      ])
      e3 (IsAddress-of m.0 m.1 n.0 (parse_mmd-bound p m at_mmd) bound)

abbrev IsSomeCommand : Option Command → Type 0
IsSomeCommand none = Unit {0}
IsSomeCommand (some c) = IsCommand c

IsAddress-small : (b : Bool) (mmd reg : ℕ) → IsAddress b mmd reg → (mmd < 256) × (reg < 65536)
IsAddress-small true mmd reg h = omega arith
IsAddress-small false mmd reg h = omega arith

IsOperand-small : (op : Verb) (c : Command) → IsOperand op c → c.val < 65536
IsOperand-small verb_read c h = omega arith
IsOperand-small verb_write c h = omega arith
IsOperand-small verb_print c h = omega arith

-- The casts change nothing.
pub finish_lem :
    (c : Command) (p : List ℕ)
    → IsCommand c
    → finish c.op c.phy c.mmd_access c.mmd c.reg c.val p
      ≡ (if at_end (skip_ws p) then some c else none)
unfolding finish
finish_lem c p (h, a, o) =
    let (mmd, reg) = IsAddress-small c.mmd_access c.mmd c.reg a in
    let val = IsOperand-small c.op c o in
    let e1 : to_u8 c.phy ≡ c.phy = omega arith in
    let e2 : to_u8 c.mmd ≡ c.mmd = omega arith in
    let e3 : to_u16 c.reg ≡ c.reg = omega arith in
    let e4 : to_u16 c.val ≡ c.val = omega arith in rw (e1, e2, e3, e4)

finish-IsCommand :
    (c : Command) (p : List ℕ)
    → IsCommand c
    → IsSomeCommand (finish c.op c.phy c.mmd_access c.mmd c.reg c.val p)
finish-IsCommand c p ok = elim (Bool-cases (at_end (skip_ws p))) [
  | inl end ↦ rw (finish_lem c p ok, end) ok
  | inr more ↦ rw (finish_lem c p ok, more) tt
]

to_IsCommand : (o : Option Command) (c : Command) → IsSomeCommand o → o ≡ some c → IsCommand c
to_IsCommand o c h e = subst IsSomeCommand e h

operands-IsCommand :
    (op : Verb) (p : List ℕ) (c : Command) → parse_operands op p ≡ some c → IsCommand c
unfolding parse_operands
operands-IsCommand verb_read p c e =
    let (phy, at_phy, e1) = >>=-eq-some (parse_uint 31 p) _ e in
    let (a, at_a, e2) = >>=-eq-some (parse_address phy.1) _ e1 in
    let bound = parse_uint-bound 31 p phy at_phy in
    let c' : Command = record {
      op = verb_read;
      phy = phy.0;
      mmd_access = a.0;
      mmd = a.1;
      reg = a.2;
      val = 0;
    } in
    to_IsCommand _ c (finish-IsCommand c' a.3 (omega arith, parse_address-bound phy.1 a at_a, refl))
      e2
operands-IsCommand verb_write p c e =
    let (phy, at_phy, e1) = >>=-eq-some (parse_uint 31 p) _ e in
    let (a, at_a, e2) = >>=-eq-some (parse_address phy.1) _ e1 in
    let (g, there, e3) = >>=-eq-some (guard (not (at_end (skip_ws a.3)))) _ e2 in
    let (v, at_v, e4) = >>=-eq-some (parse_uint 0xffff (skip_ws a.3)) _ e3 in
    let bound = parse_uint-bound 31 p phy at_phy in
    let bound' = parse_uint-bound 0xffff (skip_ws a.3) v at_v in
    let c' : Command = record {
      op = verb_write;
      phy = phy.0;
      mmd_access = a.0;
      mmd = a.1;
      reg = a.2;
      val = v.0;
    } in
    to_IsCommand _ c
      (finish-IsCommand c' v.1 (omega arith, parse_address-bound phy.1 a at_a, omega arith)) e4
operands-IsCommand verb_print p c e =
    let (phy, at_phy, e1) = >>=-eq-some (parse_uint 31 p) _ e in
    let bound = parse_uint-bound 31 p phy at_phy in
    let c' : Command = record {
      op = verb_print;
      phy = phy.0;
      mmd_access = false;
      mmd = 0;
      reg = 0;
      val = 0;
    } in
    to_IsCommand _ c
      (finish-IsCommand c' phy.1 (omega arith, (refl, omega arith), (refl, refl, refl))) e1

-- Whatever the characters of a line, a command that `parse` accepts has its fields in the range of its kind,
-- and 0 in those that its kind does not have.
pub parse-IsCommand : (line : List ℕ) (c : Command) → parse line ≡ some c → IsCommand c
unfolding parse
parse-IsCommand line c e =
    let (p, mark, e1) = >>=-eq-some (expect b'!' (skip_ws (trim line))) _ e in
    let (v, verb, e2) = >>=-eq-some (parse_verb p) _ e1 in
    let (g, blank, e3) = >>=-eq-some (guard (starts_blank v.1)) _ e2 in
    operands-IsCommand v.0 (skip_ws v.1) c e3
