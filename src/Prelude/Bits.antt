-- ===== src/Prelude/Bits.antt =====
-- `bit_and` by a mask, as a remainder.
use Prim.Native.Nat.{
  ℕ, zero, suc, ◌+◌, ◌-◌, ◌*◌, ◌/◌, ◌%◌, ◌≤◌, ◌<◌, min, bit_and, digits, bit_and-bitwise,
}
use mathlib.Core.Path.{◌≡◌, refl, ap, sym, ◌∙◌}
use native.Mathlib.Decide.{ℕ_discrete}
use native.Mathlib.Omega.{arith}

-- `bit_and` digit by digit, while the fuel lasts.
abbrev meet : ℕ → ℕ → ℕ → ℕ
meet fuel x y = digits (λ _. 0) min fuel x y

-- More fuel than the first number changes nothing. The bound `k` on the fuel is what the recursion is on.
spare : (k fuel x y : ℕ) → fuel ≤ k → x ≤ fuel → meet fuel x y ≡ meet x x y
spare k zero zero y below room = refl
spare k zero (suc x) y below room = absurd (omega arith)
spare k (suc fuel) zero y below room = refl
spare zero (suc fuel) (suc x) y below room = absurd (omega arith)
spare (suc k) (suc fuel) (suc x) y below room =
    let left = spare k fuel (suc x / 2) (y / 2) (omega arith) (omega arith) in
    let right = spare k x (suc x / 2) (y / 2) (omega arith) (omega arith) in
    omega (arith, left, right)

-- The last binary digit is the lesser one, and the digits before it are those of the halves.
low_digit : (x y : ℕ) → bit_and x y ≡ bit_and (x / 2) (y / 2) * 2 + min (x % 2) (y % 2)
low_digit x y = elim (ℕ_discrete x 0) [
  | yes none ↦ omega (
    arith,
    none,
    ap (λ t. bit_and t y) none,
    ap (λ t. bit_and (t / 2) (y / 2)) none,
    bit_and-bitwise 0 y,
    bit_and-bitwise 0 (y / 2),
  )
  | no some ↦
      let more : x ≡ suc (x - 1) = omega arith in
      let whole = bit_and-bitwise x y ∙ ap (λ t. meet t t y) more in
      let halves = bit_and-bitwise (x / 2) (y / 2) in
      let same = spare x (x - 1) (suc (x - 1) / 2) (y / 2) (omega arith) (omega arith) in
      let back : meet (suc (x - 1) / 2) (suc (x - 1) / 2) (y / 2) ≡ meet (x / 2) (x / 2) (y / 2) =
        ap (λ t. meet (t / 2) (t / 2) (y / 2)) (sym more) in
      omega (arith, whole, halves, same, back)
]

halving : (P : ℕ → Type 0) → P 0 → ((x : ℕ) → 0 < x → P (x / 2) → P x) → (k x : ℕ) → x ≤ k → P x
halving P base step k zero h = base
halving P base step zero (suc x) h = absurd (omega arith)
halving P base step (suc k) (suc x) h =
    step (suc x) (omega arith) (halving P base step k (suc x / 2) (omega arith))

meet-none : (x : ℕ) → bit_and x 0 ≡ 0
meet-none x =
    halving (λ t. bit_and t 0 ≡ 0) refl (λ t h e. omega (arith, low_digit t 0, e)) x x (omega arith)

meet-same : (x : ℕ) → bit_and x x ≡ x
meet-same x =
    halving (λ t. bit_and t t ≡ t) refl (λ t h e. omega (arith, low_digit t t, e)) x x (omega arith)

-- Twice a modulus takes one more binary digit.
mod_double : (a d : ℕ) → 0 < d → a % (d * 2) ≡ a / 2 % d * 2 + a % 2
mod_double a d h = grind arith

mask-mod_fuel :
    (n c : ℕ) → c ≤ n → 0 < c → bit_and c (c - 1) ≡ 0 → (a : ℕ) → bit_and a (c - 1) ≡ a % c
mask-mod_fuel zero c h p e a = absurd (omega arith)
mask-mod_fuel (suc n) c h p e a = elim (ℕ_discrete (c % 2) 0) [
  | yes even ↦
      let half : (c - 1) / 2 ≡ c / 2 - 1 = omega arith in
      let whole : c ≡ c / 2 * 2 = omega arith in
      let top : bit_and (c / 2) (c / 2 - 1) ≡ 0 =
        rw (← half) (omega (arith, low_digit c (c - 1))) in
      omega (
        arith,
        low_digit a (c - 1),
        ap (bit_and (a / 2)) half,
        mask-mod_fuel n (c / 2) (omega arith) (omega arith) top (a / 2),
        mod_double a (c / 2) (omega arith),
        ap (λ k. a % k) whole,
      )
  | no odd ↦
      let half : (c - 1) / 2 ≡ c / 2 = omega arith in
      let one : c ≡ 1 =
        omega (arith, low_digit c (c - 1), ap (bit_and (c / 2)) half, meet-same (c / 2)) in
      rw one (omega (arith, meet-none a))
]

-- `pos & (c - 1)` is `pos % c` for every `c` that the test `c & (c - 1)` calls a power of two.
pub mask-mod : (c : ℕ) → 0 < c → bit_and c (c - 1) ≡ 0 → (a : ℕ) → bit_and a (c - 1) ≡ a % c
mask-mod c p e a = mask-mod_fuel c c (omega arith) p e a
