-- ===== src/Examples/Capture.antt =====
-- src/sniffer/rle_sniffer.cpp, src/sniffer/clocked_sniffer.cpp and src/util/led_blinker.cpp at concrete inputs.
use ch32_tapioca.Prelude.{
  ℕ, ◌-◌, ◌+◌, ◌≡◌, refl, arith, true, false, [], ◌∷◌, ◌++◌, ◌==◌, if◌then◌else◌,
}
use ch32_tapioca.Prelude.Words.{to_u16, add32}
use ch32_tapioca.Rle.Drain.{Sniffer, drain_pioc, ring_count, ring_space, at_most}
use ch32_tapioca.Rle.Drain.Cursor.{IsFifo, IsAligned, drain_pioc-IsAligned}
use ch32_tapioca.Rle.Drain.Copies.{gap_of, window, records_from, drain_pioc-copies}
use ch32_tapioca.Rle.Squelch.{Filter, filter_all, boundary, filter_all-gap}
use ch32_tapioca.Led.{Led, BlinkCommand, on, off, idle, start, tick}
use ch32_tapioca.Led.Timing.{IsLit, tick_all, blink_lem}
use ch32_tapioca.Ring.{Ring, size}
use ch32_tapioca.Ring.Queue.{IsValid}
use ch32_tapioca.Clocked.{Clocked, flags}

abbrev sniffer : Sniffer
sniffer = record {
  ring = λ i. 0;
  head = 0;
  tail = 0;
  sniff_tail = 250;
  sniff_slot = 10;
  ovf_pioc = 0;
  ram_drop = 0;
  ram_hi = 0;
  max_gap = 0;
}

-- The head register says 260 records, and the record `i` is the byte 5.
abbrev registers : ℕ → ℕ
registers i = if i == 0x21 then 4 else 5

abbrev records : ℕ → ℕ
records i = 5

fifo : IsFifo registers records 260
fifo = (refl, λ i h k. ground arith)

drain_pioc-IsAligned_example : IsAligned (drain_pioc sniffer registers) 260
drain_pioc-IsAligned_example =
    drain_pioc-IsAligned sniffer registers records 250 260 fifo (refl, refl) (omega arith)
      (omega arith)

-- Two bytes of the RAM ring have not been read.
abbrev holding : Sniffer
holding = record sniffer { ring = λ i. 0x40; head = 3; tail = 1 }

drain_pioc-copies_example :
    let r = drain_pioc holding registers in
    let gap = gap_of 250 260 in
    let taken = at_most gap (ring_space holding) in
    (window r.ring 1 (ring_count holding + taken)
      ≡ window holding.ring 1 (ring_count holding) ++ records_from records (260 - gap) taken)
    × (ring_count r ≡ ring_count holding + taken)
    × (r.head ≡ to_u16 (3 + taken))
    × (r.tail ≡ 1)
    × (r.ram_drop ≡ add32 0 (gap - taken))
drain_pioc-copies_example =
    drain_pioc-copies holding registers records 250 260 fifo (refl, refl) (omega arith)
      (omega arith) (omega arith) (omega arith) (omega arith)

abbrev fresh : Filter
fresh = record {
  cap_run = 0;
  cap_piped = false;
  sniff_active = false;
  saw_activity = false;
  out = [];
  taken = 0;
}

-- Four continuation bytes under a bound of 3.
filter_all-gap_example :
    let r = filter_all 3 fresh ((128 ∷ 128 ∷ 128 ∷ 128 ∷ []) ++ 9 ∷ []) in
    (r.out ≡ 128 ∷ 128 ∷ boundary ∷ []) × (r.cap_run ≡ 0) × (r.cap_piped ≡ false)
filter_all-gap_example =
    filter_all-gap 3 fresh (128 ∷ 128 ∷ 128 ∷ 128 ∷ []) 9 (omega arith) (omega arith) refl refl
      (omega arith) (omega arith)

abbrev led : Led
led = record {
  direct = false;
  initialized = true;
  min_time_off = 20;
  queue = record { head = 0; tail = 0; buf = λ i. record { time_on = 0; time_off = 0 } };
  current = record { time_on = 0; time_off = 0 };
  phase = idle;
  deadline = 0;
  pin_high = true;
}

abbrev flash : BlinkCommand
flash = record { time_on = 50; time_off = 0 }

-- Lit across the wrap of the counter.
blink_lem_example :
    let shown = tick_all (start led flash 4294967290) 4294967290 (1 ∷ 49 ∷ []) in
    let out = tick shown (add32 4294967290 50) in
    IsLit shown true
    × (shown.phase ≡ on)
    × IsLit out false
    × (out.phase ≡ off)
    × (out.deadline ≡ add32 (add32 4294967290 50) 20)
blink_lem_example =
    blink_lem led flash 4294967290 (1 ∷ 49 ∷ []) 50 refl (omega arith) (omega arith) (omega arith)
      (omega arith) (omega arith) (omega arith)

abbrev staged : Ring ℕ
staged = record { head = 3; tail = 3; buf = λ i. 0 }

pub staged-IsValid : IsValid 2048 staged
unfolding size
staged-IsValid = record {
  fits = record { positive = omega arith; small = omega arith };
  head_word = omega arith;
  tail_word = omega arith;
  within = omega arith;
}

abbrev pub clocked_state : Clocked
clocked_state = record {
  ring = staged;
  ovf_ram = 0;
  ovf_pioc = 2;
  burst = 0xaa ∷ 0xff ∷ [];
  burst_t0 = 1000;
  burst_last = 1040;
  burst_onset = 0;
  burst_open = true;
  need_terminal = false;
  tail_bits = 3;
  sniff_tail = 0;
  sniff_last_ms = 0;
  partial_seen_ms = 0;
  partial_seen_bits = 0;
  mode_hb_ms = 0;
}

-- Bit 0 for the PIOC, and three valid bits in the last byte.
flags_run : flags clocked_state false ≡ 25
unfolding flags
flags_run = refl
