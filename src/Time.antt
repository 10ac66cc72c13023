-- ===== src/Time.antt =====
-- src/hal/time.cpp: the milliseconds that the interrupt of TIM2 counts, and `micros` over its counter. The set-up of the timer is
-- left out of `init`. `advance` is the timer in a microsecond: it counts to 999 and then raises its flag.
pub mod Micros
use ch32_tapioca.Prelude.{ℕ, zero, suc, ◌+◌, ◌*◌, Bool, true, false, not, ◌==◌, if◌then◌else◌}
use ch32_tapioca.Prelude.Words.{add32}

pub record Timer : Type 0 where
  pub counter : ℕ
  pub update : Bool
  pub millis : ℕ

-- As after `init`.
abbrev pub fresh : Timer
fresh = record { counter = 0; update = false; millis = 0 }

unfoldable pub advance : Timer → Timer
advance t =
    let wraps = t.counter == 999 in
    record t {
      counter = if wraps then 0 else t.counter + 1;
      update = if wraps then true else t.update;
    }

-- `TIM2_UP_IRQHandler`.
unfoldable pub on_update : Timer → Timer
on_update t = if t.update then record t { millis = add32 t.millis 1; update = false } else t

-- `n` microseconds in which the interrupt comes at once.
unfoldable pub run : ℕ → Timer
unfolding advance on_update
run zero = fresh
run (suc n) = on_update (advance (run n))

-- `micros`, with the timer at the instants of its four reads.
unfoldable pub micros : Timer → Timer → Timer → Timer → ℕ
micros r1 r2 r3 r4 =
    let m1 = r1.millis in
    let m2 = r3.millis in
    if not (m1 == m2) then add32 (m2 * 1000) r4.counter else add32 (m1 * 1000) r2.counter
