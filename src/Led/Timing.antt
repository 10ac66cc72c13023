-- ===== src/Led/Timing.antt =====
-- src/util/led_blinker.cpp: the times of a blink, over the wrap of the millisecond counter.
use ch32_tapioca.Prelude.{
  ℕ, ◌≤◌, ◌<◌, ◌≡◌, refl, arith, Bool, true, false, not, ◌==◌, if◌then◌else◌, List, [], ◌∷◌, All,
  ltb, ap, ◌∙◌, ==_ne,
}
use ch32_tapioca.Prelude.Words.{IsU32, add32}
use ch32_tapioca.Led.{
  Led, BlinkCommand, on, off, expired, set_led, start, run_phase, tick, uint32_max,
}

-- With a delay and an elapsed time below 2 ^ 31 ms, the deadline has expired exactly when the delay has elapsed,
-- whether or not the counter has wrapped.
pub expired_iff :
    (at delay elapsed : ℕ)
    → IsU32 at
    → delay < 2147483648
    → elapsed < 2147483648
    → expired (add32 at elapsed) (add32 at delay) ≡ not (ltb elapsed delay)
unfolding expired
expired_iff at delay elapsed a d e = ground arith

-- The LED is lit: its pin has the level that the wiring needs.
abbrev pub IsLit : Led → Bool → Type 0
IsLit l state = l.pin_high ≡ (if l.direct then state else not state)

-- Ticks at the given times after `at`.
abbrev pub tick_all : Led → ℕ → List ℕ → Led
tick_all l at [] = l
tick_all l at (t ∷ ts) = tick_all (tick l (add32 at t)) at ts

if-same {ℓ} : {A : Type ℓ} (b : Bool) {x y : A} → y ≡ x → (if b then x else y) ≡ x
if-same true e = refl
if-same false e = e

tick-waits : (l : Led) (now : ℕ) → l.phase ≡ on → expired now l.deadline ≡ false → tick l now ≡ l
unfolding tick run_phase
tick-waits l now p early =
    let stays : run_phase l now on ≡ l = rw (run_phase, early) in
    if-same (not l.initialized) (ap (run_phase l now) p ∙ stays)

waits_on :
    (l : Led) (at : ℕ) (ts : List ℕ) (delay : ℕ)
    → IsU32 at
    → delay < 2147483648
    → l.phase ≡ on
    → l.deadline ≡ add32 at delay
    → All (λ t. t < delay) ts
    → tick_all l at ts ≡ l
waits_on l at [] delay a d p e f = refl
waits_on l at (t ∷ ts) delay a d p e f =
    let less : ltb t delay ≡ true = ground (arith, f.0) in
    let early : expired (add32 at t) l.deadline ≡ false =
      ap (expired (add32 at t)) e ∙ expired_iff at delay t a d (omega (arith, f.0)) ∙ ap not less in
    ap (λ m. tick_all m at ts) (tick-waits l (add32 at t) p early)
    ∙ waits_on l at ts delay a d p e f.1

-- The LED while it is on.
abbrev lit : Led → BlinkCommand → ℕ → Led
lit l cmd at = record l {
  current = cmd;
  pin_high = if l.direct then true else false;
  deadline = add32 at cmd.time_on;
  phase = on;
}

start-lit :
    (l : Led) (cmd : BlinkCommand) (at : ℕ)
    → 0 < cmd.time_on
    → cmd.time_on < 2147483648
    → start l cmd at ≡ lit l cmd at
unfolding start set_led
start-lit l cmd at z d =
    rw (==_ne cmd.time_on uint32_max (omega arith), ==_ne cmd.time_on 0 (omega arith))

-- A blink of `time_on` ms, above 0 and below 2 ^ 31, of an initialized LED that starts at `at`: the LED is lit
-- at each tick before `time_on` ms have elapsed, and goes out at a tick after, less than 2 ^ 31 ms from the
-- start; the pause that follows is that of the command or, if it has none, the least one. The counter may wrap
-- meanwhile.
pub blink_lem :
    (l : Led) (cmd : BlinkCommand) (at : ℕ) (ts : List ℕ) (t : ℕ)
    → l.initialized ≡ true
    → IsU32 at
    → 0 < cmd.time_on
    → cmd.time_on < 2147483648
    → All (λ t. t < cmd.time_on) ts
    → cmd.time_on ≤ t
    → t < 2147483648
    → let shown = tick_all (start l cmd at) at ts in
      let out = tick shown (add32 at t) in
      IsLit shown true
      × (shown.phase ≡ on)
      × IsLit out false
      × (out.phase ≡ off)
      × (out.deadline
          ≡ add32 (add32 at t) (if cmd.time_off == 0 then l.min_time_off else cmd.time_off))
unfolding tick run_phase set_led
blink_lem l cmd at ts t i a z d f after s =
    let shown : tick_all (start l cmd at) at ts ≡ lit l cmd at =
      ap (λ m. tick_all m at ts) (start-lit l cmd at z d)
      ∙ waits_on (lit l cmd at) at ts cmd.time_on a d refl refl f in
    let late : ltb t cmd.time_on ≡ false = ground arith in
    let over : expired (add32 at t) (add32 at cmd.time_on) ≡ true =
      expired_iff at cmd.time_on t a d s ∙ ap not late in
    let pause : (if not (cmd.time_off == 0) then cmd.time_off else l.min_time_off)
        ≡ (if cmd.time_off == 0 then l.min_time_off else cmd.time_off) =
      ground arith in
    rw (shown, i, over) (refl, refl, refl, refl, ap (add32 (add32 at t)) pause)
