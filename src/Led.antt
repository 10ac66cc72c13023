-- ===== src/Led.antt =====
-- src/util/led_blinker.hpp and led_blinker.cpp: `LedBlinker`. The pin is a Boolean member, and `Time::millis()` an argument.
-- `init` leaves out the set-up of the port. The queue is a `Ring` of capacity 10.
pub mod Timing
use ch32_tapioca.Prelude.{ℕ, Bool, true, false, not, ◌&&◌, Option, none, some, ◌==◌, if◌then◌else◌}
use ch32_tapioca.Prelude.Words.{add32, sub32, nonneg32}
use ch32_tapioca.Ring.{Ring, push_item, pop_item, empty}

pub record BlinkCommand : Type 0 where
  pub time_on : ℕ
  pub time_off : ℕ

pub data Phase : Type 0 where
  idle on off : Phase

pub record Led : Type 0 where
  pub direct : Bool
  pub initialized : Bool
  pub min_time_off : ℕ
  pub queue : Ring BlinkCommand
  pub current : BlinkCommand
  pub phase : Phase
  pub deadline : ℕ
  pub pin_high : Bool

abbrev pub queue_size : ℕ
queue_size = 10

abbrev pub uint32_max : ℕ
uint32_max = 0xffffffff

-- `(int32_t)(now - deadline) >= 0`.
unfoldable pub expired : ℕ → ℕ → Bool
expired now deadline = nonneg32 (sub32 now deadline)

unfoldable pub set_led : Led → Bool → Led
set_led l state = record l { pin_high = if l.direct then state else not state }

unfoldable pub init : Led → Led
unfolding set_led
init l = set_led (record l { initialized = true }) false

unfoldable pub blink_for : Led → ℕ → ℕ → Bool × Led
blink_for l time_on time_off =
    let r = push_item queue_size l.queue (record { time_on = time_on; time_off = time_off }) in
    (r.0, record l { queue = r.1 })

unfoldable pub blink : Led → ℕ → Bool × Led
unfolding blink_for
blink l time_on = blink_for l time_on 0

unfoldable pub turn_on : Led → Bool × Led
unfolding blink
turn_on l = blink l uint32_max

unfoldable pub turn_off : Led → Bool × Led
unfolding blink
turn_off l = blink l 0

unfoldable pub start : Led → BlinkCommand → ℕ → Led
unfolding set_led
start l cmd now =
    let m = record l { current = cmd } in
    if cmd.time_on == uint32_max
    then record (set_led m true) { phase = idle }
    else if cmd.time_on == 0
    then record (set_led m false) { phase = idle }
    else record (set_led m true) { deadline = add32 now cmd.time_on; phase = on }

-- `tick` from the phase on.
unfoldable pub run_phase : Led → ℕ → Phase → Led
unfolding start expired set_led
run_phase l now idle =
    let r = pop_item queue_size l.queue in
    let m = record l { queue = r.1 } in elim r.0 [ none ↦ m | some cmd ↦ start m cmd now ]
run_phase l now on =
    let time_off = if not (l.current.time_off == 0) then l.current.time_off else l.min_time_off in
    if not (expired now l.deadline)
    then l
    else record (set_led l false) { deadline = add32 now time_off; phase = off }
run_phase l now off = if not (expired now l.deadline) then l else record l { phase = idle }

unfoldable pub tick : Led → ℕ → Led
unfolding run_phase
tick l now = if not l.initialized then l else run_phase l now l.phase
