-- ===== src/Examples/Services.antt =====
-- src/sniffer/clocked_sniffer.cpp and src/sniffer/rle_sniffer.cpp at concrete inputs.
use ch32_tapioca.Prelude.{
  ℕ, ◌+◌, ◌≤◌, ◌<◌, ◌≡◌, refl, arith, Bool, true, false, List, [], ◌∷◌, ◌++◌, length, if◌then◌else◌,
  take, ◌==◌,
}
use ch32_tapioca.Ring.{size}
use ch32_tapioca.Ring.Queue.{IsValid, contents}
use ch32_tapioca.Usb.Device.{tx_capacity}
use ch32_tapioca.Usb.Bulk.{Status}
use ch32_tapioca.Usb.Bulk.Stream.{Runs}
use ch32_tapioca.Clocked.{Clocked}
use ch32_tapioca.Clocked.Service.{Pass, drain_loop, closing, close_idle, ship_count, ship}
use ch32_tapioca.Clocked.Service.Burst.{fifo, Outcome, drain_loop_lem}
use ch32_tapioca.Clocked.Service.Bytes.{open_bytes}
use ch32_tapioca.Clocked.Service.Idle.{partial_byte, Closed, close_idle_lem}
use ch32_tapioca.Clocked.Service.Ship.{ship_lem}
use ch32_tapioca.Rle.Service
use ch32_tapioca.Rle.Service.{Service, drain_ram}
use ch32_tapioca.Rle.Service.Pass.{service_lem}
use ch32_tapioca.Clocked
use ch32_tapioca.Clocked.Service.Sound.{IsSound, service-IsSound}
use ch32_tapioca.Rle.Drain.{Sniffer}
use ch32_tapioca.Rle.Service.Stream.{filtered}
use ch32_tapioca.Rle.Service.Markers.{Loss, Gap}
use ch32_tapioca.Rle.Service.Loss.{Beat}
use ch32_tapioca.Examples.Capture.{clocked_state, staged-IsValid}
use ch32_tapioca.Examples.Usb.{sdk, filled, filled-IsValid, nothing_more}

-- The FIFO counts up, and the clock shows a microsecond more at each call.
abbrev counting : ℕ → ℕ
counting i = i

-- Five bytes of the FIFO behind a burst of two, across the end of its slots.
abbrev pass : Pass
pass = record { sniffer = record clocked_state { sniff_tail = 14 }; reads = 0 }

drain_loop_lem_example :
    Outcome pass.sniffer
      (open_bytes pass.sniffer ++ fifo counting 14 5)
      (drain_loop counting counting 5 pass).sniffer
drain_loop_lem_example =
    drain_loop_lem counting counting 5 pass staged-IsValid (omega arith) (omega arith)

-- Three bits are left in the accumulator.
close_idle_lem_example :
    let x = closing clocked_state 2000 13 3 in
    (x.burst ≡ (0xaa ∷ 0xff ∷ []) ++ partial_byte 13 3)
    × (x.tail_bits ≡ (if 3 == 0 then 3 else 3))
    × Closed clocked_state x (close_idle clocked_state 2000 13 3)
close_idle_lem_example = close_idle_lem clocked_state 2000 13 3 staged-IsValid (omega arith)

abbrev no_events : ℕ → Bool × Status
no_events i = (false, nothing_more)

-- Three bytes are staged.
abbrev three_staged : Clocked
three_staged = record clocked_state { ring = record { head = 3; tail = 0; buf = λ i. i } }

three-IsValid : IsValid 2048 three_staged.ring
unfolding size
three-IsValid = record {
  fits = record { positive = omega arith; small = omega arith };
  head_word = omega arith;
  tail_word = omega arith;
  within = omega arith;
}

ship_lem_example :
    let n = ship_count three_staged filled in
    let (s', u') = ship sdk no_events three_staged filled in
    (p : List ℕ) × Runs sdk filled (take n (contents 2048 three_staged.ring)) p u'
    × (contents 2048 three_staged.ring
        ≡ take n (contents 2048 three_staged.ring) ++ contents 2048 s'.ring)
    × (contents tx_capacity filled.tx ++ take n (contents 2048 three_staged.ring)
        ≡ p ++ contents tx_capacity u'.tx)
    × IsValid 2048 s'.ring
    × IsValid tx_capacity u'.tx
    × (n ≤ 192)
    × (0 < size three_staged.ring → size filled.tx < tx_capacity → 0 < n)
ship_lem_example = ship_lem sdk no_events three_staged filled three-IsValid filled-IsValid refl

-- Two records are in the RAM ring, one has been lost, and a burst is open.
abbrev pub service_state : Service
service_state = record {
  drain = record {
    ring = λ i. 5;
    head = 2;
    tail = 0;
    sniff_tail = 0;
    sniff_slot = 0;
    ovf_pioc = 0;
    ram_drop = 1;
    ram_hi = 2;
    max_gap = 0;
  };
  sniff_last_ms = 10;
  sniff_active = true;
  loss_seen = 0;
  tx_min_free = 100;
  loop_calls = 0;
  cap_run = 0;
  cap_piped = false;
  mode_hb_ms = 0;
}

abbrev marker : List ℕ
marker = b'[' ∷ b'a' ∷ []

service_lem_example :
    let s0 = record service_state { loop_calls = 1 } in
    let out = (filtered 40 s0 filled).out in
    let (s1, u1, saw) = drain_ram sdk no_events 40 s0 filled in
    let s2 = record s1 { drain = s1.drain } in
    let (s', u') =
      Service.service sdk no_events (λ (d : Sniffer). d) 40 marker 20 service_state filled in
    (p : List ℕ) × (loss : List ℕ) × (gap : List ℕ) × (beat : List ℕ) × Runs sdk filled out p u1
    × (contents tx_capacity filled.tx ++ (out ++ (loss ++ (gap ++ beat)))
        ≡ p ++ contents tx_capacity u'.tx)
    × (contents tx_capacity u'.tx ≡ contents tx_capacity u1.tx ++ (loss ++ (gap ++ beat)))
    × IsValid tx_capacity u'.tx
    × Loss s2 u1 loss s'.loss_seen
    × Gap s2 saw 20 (size u1.tx + length loss) gap
    × Beat marker
        (record s2 { sniff_active = s'.sniff_active })
        (size u1.tx + length loss + length gap)
        20
        beat
service_lem_example =
    service_lem sdk no_events (λ (d : Sniffer). d) 40 marker 20 service_state filled filled-IsValid
      refl

service-IsSound_example :
    let (s', u') =
      Clocked.Service.service sdk no_events counting counting 9 (clocked_state, filled) in
    IsSound s' × IsValid tx_capacity u'.tx
service-IsSound_example =
    service-IsSound sdk no_events counting counting 9 clocked_state filled
      (record { valid = staged-IsValid; small = omega arith }) filled-IsValid refl
