-- ===== src/Ring/Slots.antt =====
-- src/util/ring.hpp: which slot a cursor stands for.
use Prim.Native.Nat.{bit_and}
use native.Mathlib.Nat.{mod-eq_of_lt, mod-eq-sub-mod, mod-add-mod}
use ch32_tapioca.Prelude.{
  ℕ, ◌+◌, ◌-◌, ◌%◌, ◌≤◌, ◌<◌, ◌≡◌, ◌≢◌, ap, sym, ◌∙◌, ◌⊎◌, inl, inr, arith, ◌==◌, Bool-cases,
  ==_iff, dec_lt,
}
use ch32_tapioca.Prelude.Bits.{mask-mod}
use ch32_tapioca.Prelude.Words.{add32, IsU32}
use ch32_tapioca.Ring.{index}

-- The static assertions on `Capacity`.
pub record IsCapacity (capacity : ℕ) : Type 0 where
  pub positive : 0 < capacity
  pub small : capacity ≤ 2147483648

-- Both branches of `index` compute a remainder.
pub index-mod : (capacity pos : ℕ) → 0 < capacity → index capacity pos ≡ pos % capacity
unfolding index
index-mod c pos h = elim (Bool-cases (bit_and c (c - 1) == 0)) [
  | inl mask ↦ rw mask (mask-mod c h ((==_iff _ 0).0 mask) pos)
  | inr no_mask ↦ rw no_mask
]

pub index-lt : (capacity pos : ℕ) → 0 < capacity → index capacity pos < capacity
index-lt c pos h = rw (index-mod c pos h) (omega arith)

-- The cursors of one lap from `t` on do not meet the wrap of `uint32_t`, or the wrap does not matter.
abbrev pub IsSteady : ℕ → ℕ → Type 0
IsSteady capacity t = (4294967296 % capacity ≡ 0) ⊎ (t + capacity ≤ 4294967296)

-- A wrap by a multiple of the capacity does not move the slot.
wrap-mod : (c x : ℕ) → 0 < c → 4294967296 % c ≡ 0 → 4294967296 ≤ x → (x - 4294967296) % c ≡ x % c
wrap-mod c x p d h =
    ap (λ k. k % c) (omega (arith, d))
    ∙ mod-add-mod 4294967296 c (x - 4294967296)
    ∙ ap (λ k. k % c) (omega arith)

pub slot-mod :
    (c t i : ℕ)
    → 0 < c
    → IsU32 t
    → c ≤ 2147483648
    → IsSteady c t
    → i < c
    → index c (add32 t i) ≡ (t + i) % c
slot-mod c t i p u s st h = index-mod c (add32 t i) p ∙ elim (dec_lt (t + i) 4294967296) [
  | yes below ↦ ap (λ k. k % c) (omega arith)
  | no past ↦
      let wrapped : add32 t i ≡ t + i - 4294967296 = omega arith in
      let divides : 4294967296 % c ≡ 0 = omega arith in
      rw wrapped (wrap-mod c (t + i) p divides (omega arith))
]

pub add-mod-ne : (c a d : ℕ) → 0 < c → 0 < d → d < c → (a + d) % c ≢ a % c
add-mod-ne c a d p q h e = elim (dec_lt (a % c + d) c) [
  | yes below ↦ omega (arith, mod-add-mod a c d, e, mod-eq_of_lt below)
  | no past ↦ omega (
    arith,
    mod-add-mod a c d,
    mod-eq-sub-mod {n = a % c + d} {m = c} (omega arith),
    mod-eq_of_lt {n = a % c + d - c} {m = c} (omega arith),
  )
]

-- Two cursors of one lap have different slots.
pub slot-ne :
    (c t i j : ℕ)
    → 0 < c
    → IsU32 t
    → c ≤ 2147483648
    → IsSteady c t
    → i < j
    → j < c
    → index c (add32 t i) ≢ index c (add32 t j)
slot-ne c t i j p u s st h k e = add-mod-ne c (t + i) (j - i) p (omega arith) (omega arith) (
    ap (λ n. n % c) (omega arith)
    ∙ sym (slot-mod c t j p u s st k)
    ∙ sym e
    ∙ slot-mod c t i p u s st (omega arith))
