-- ===== src/Time/Micros.antt =====
-- src/hal/time.cpp: `micros` against the instants of its reads.
use ch32_tapioca.Prelude.{
  ℕ, zero, suc, ◌+◌, ◌*◌, ◌/◌, ◌%◌, ◌≤◌, ◌<◌, ◌≡◌, ◌≢◌, ◌∙◌, ap₂, sym, ap, refl, arith, true, false,
  ◌==◌, Bool-cases, inl, inr,
}
use ch32_tapioca.Prelude.Words.{add32}
use ch32_tapioca.Time.{Timer, advance, on_update, run, micros}

step-counts :
    (t : Timer) (n : ℕ)
    → t.counter ≡ n % 1000
    → t.update ≡ false
    → t.millis ≡ n / 1000 % 4294967296
    → let u = on_update (advance t) in
      (u.counter ≡ suc n % 1000) × (u.update ≡ false) × (u.millis ≡ suc n / 1000 % 4294967296)
unfolding advance on_update
step-counts t n c f m = elim (Bool-cases (t.counter == 999)) [
  | inl wraps ↦ rw wraps (ground (arith, c, wraps), refl, ground (arith, c, m, wraps))
  | inr below ↦ rw (below, f) (ground (arith, c, below), refl, ground (arith, c, m, below))
]

same_number : (a b : ℕ) → (a == b) ≡ true → a ≡ b
same_number a b same = ground (arith, same)

run_lem :
    (n : ℕ)
    → ((run n).counter ≡ n % 1000)
      × ((run n).update ≡ false)
      × ((run n).millis ≡ n / 1000 % 4294967296)
unfolding run
run_lem zero = (omega arith, refl, omega arith)
run_lem (suc n) = let (c, f, m) = run_lem n in step-counts (run n) n c f m

joined : (n : ℕ) → add32 (n / 1000 % 4294967296 * 1000) (n % 1000) ≡ n % 4294967296
joined n = omega arith

same_ms :
    (a b : ℕ)
    → a ≤ b
    → b < a + 1000
    → a / 1000 % 4294967296 ≡ b / 1000 % 4294967296
    → a / 1000 ≡ b / 1000
same_ms a b after soon same = omega (arith, after, soon, same)

other_ms :
    (a b c : ℕ)
    → a ≤ b
    → b ≤ c
    → c < a + 1000
    → a / 1000 % 4294967296 ≢ b / 1000 % 4294967296
    → b / 1000 ≡ c / 1000
other_ms a b c first next soon other = omega (arith, first, next, soon, other)

-- Where the interrupt comes at once and the four reads of `micros` are made in order within less than a millisecond, its result is
-- an instant between the first and the last of them, in microseconds modulo 2 ^ 32, also when a millisecond ends in
-- between.
pub micros_lem :
    (a b c d : ℕ)
    → a ≤ b
    → b ≤ c
    → c ≤ d
    → d < a + 1000
    → (n : ℕ) × (a ≤ n) × (n ≤ d) × (micros (run a) (run b) (run c) (run d) ≡ n % 4294967296)
unfolding micros
micros_lem a b c d ab bc cd soon =
    let (ca, fa, ma) = run_lem a in
    let (cb, fb, mb) = run_lem b in
    let (cc_, fc, mc) = run_lem c in
    let (cd_, fd, md) = run_lem d in
    elim (Bool-cases ((run a).millis == (run c).millis)) [
      | inl same ↦
          let equal =
            same_ms a c (omega (arith, ab, bc)) (omega (arith, cd, soon))
              (sym ma ∙ same_number (run a).millis (run c).millis same ∙ mc) in
          let between : a / 1000 ≡ b / 1000 = omega (arith, equal, ab, bc) in
          (
            b,
            ab,
            omega (arith, bc, cd),
            rw same (
                ap₂ add32 (ap (λ q. q * 1000) (ma ∙ ap (λ q. q % 4294967296) between)) cb
                ∙ joined b),
          )
      | inr other ↦
          let later =
            other_ms a c d (omega (arith, ab, bc)) cd soon
              (λ e. ground (arith, other, ma, mc, e)) in
          (
            d,
            omega (arith, ab, bc, cd),
            omega arith,
            rw other (
                ap₂ add32 (ap (λ q. q * 1000) (mc ∙ ap (λ q. q % 4294967296) later)) cd_
                ∙ joined d),
          )
    ]
