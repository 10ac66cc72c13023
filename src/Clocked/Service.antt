-- ===== src/Clocked/Service.antt =====
-- src/sniffer/clocked_sniffer.cpp: `service`, without the telemetry under DIAG. The registers of the PIOC are a function from
-- addresses to bytes. `micros i` is what the call number `i` of `Time::micros` in one `service` returns. `restartPioc` touches
-- only the hardware.
pub mod Bytes
pub mod Burst
pub mod Idle
pub mod Ship
pub mod Sound
use ch32_tapioca.Prelude.{
  ℕ, zero, suc, ◌+◌, ◌-◌, ◌*◌, ◌/◌, ◌%◌, ◌^◌, Bool, true, false, not, ◌&&◌, ◌||◌, List, [], ◌∷◌,
  ◌++◌, ltb, leb, ◌==◌, if◌then◌else◌, length, take,
}
use ch32_tapioca.Prelude.Words.{to_u8, to_u16, sub8, add32, sub32, nonneg32}
use ch32_tapioca.Ring.{Ring, size, read_contig, read_ptr, read_run, read_commit}
use ch32_tapioca.Usb.Device.{UsbCdc, Sdk, write_space, tx_reserve, tx_commit}
use ch32_tapioca.Usb.Bulk.{Status}
use ch32_tapioca.Usb.Bulk.Pump.{pump_times}
use ch32_tapioca.Clocked.{Clocked, ring_size, burst_max, emit_record, emit_mode_marker}

abbrev pub ring_slots : ℕ
ring_slots = 16

abbrev pub ring_head : ℕ
ring_head = 0x3f

abbrev pub onset_n : ℕ
onset_n = 8

abbrev pub burst_tcap_us : ℕ
burst_tcap_us = 50000

abbrev pub pump_every : ℕ
pump_every = 16

abbrev pub drain_max : ℕ
drain_max = 192

-- The members, and how often the clock has been read.
pub record Pass : Type 0 where
  pub sniffer : Clocked
  pub reads : ℕ

-- `d > 0xFFFF ? 0xFFFF : (uint16_t)d`.
abbrev pub cap16 : ℕ → ℕ
cap16 d = if ltb 0xffff d then 0xffff else to_u16 d

open_burst : (ℕ → ℕ) → Pass → Pass
open_burst micros p = if p.sniffer.burst_open then p else record {
  sniffer = record (p.sniffer) {
    burst_open = true;
    burst = [];
    burst_onset = 0;
    burst_t0 = micros p.reads;
  };
  reads = p.reads + 1;
}

add_byte : ℕ → Clocked → Clocked
add_byte b s = if ltb (length s.burst) burst_max then record s { burst = s.burst ++ b ∷ [] } else s

note_onset : (ℕ → ℕ) → Pass → Pass
note_onset micros p =
    if length p.sniffer.burst == onset_n
    then record {
      sniffer = record (p.sniffer) {
        burst_onset = cap16 (sub32 (micros p.reads) p.sniffer.burst_t0);
      };
      reads = p.reads + 1;
    }
    else p

-- The cut at the payload cap.
pub split : (ℕ → ℕ) → Pass → Pass
split micros p =
    if leb burst_max (length p.sniffer.burst)
    then record {
      sniffer = emit_record (record (p.sniffer) { burst_last = micros p.reads }) true;
      reads = p.reads + 1;
    }
    else p

-- One byte of the FIFO.
unfoldable pub take_byte : (ℕ → ℕ) → Pass → ℕ → Pass
unfolding open_burst add_byte note_onset split
take_byte micros p b =
    let q = open_burst micros p in
    split micros (note_onset micros (record q { sniffer = add_byte b q.sniffer }))

-- `while (sniffTail_ != h)`, which takes `(uint8_t)(h - sniffTail_)` rounds.
unfoldable pub drain_loop : (ℕ → ℕ) → (ℕ → ℕ) → ℕ → Pass → Pass
unfolding take_byte
drain_loop micros dr zero p = p
drain_loop micros dr (suc n) p =
    let t = p.sniffer.sniff_tail in
    let q = record p { sniffer = record (p.sniffer) { sniff_tail = to_u8 (t + 1) } } in
    drain_loop micros dr n (take_byte micros q (dr (0x20 + t % ring_slots)))

-- The skip to the oldest valid slot after an overrun.
unfoldable pub skip_lapped : Clocked → ℕ → Clocked
skip_lapped s h =
    if ltb ring_slots (sub8 h s.sniff_tail)
    then record s { ovf_pioc = to_u16 (s.ovf_pioc + 1); sniff_tail = sub8 h ring_slots }
    else s

-- The first stage, up to the note of the last byte.
unfoldable pub drain_fifo : (ℕ → ℕ) → (ℕ → ℕ) → ℕ → Clocked → Pass
unfolding drain_loop skip_lapped
drain_fifo micros dr now_ms s =
    let h = dr ring_head in
    let s0 = skip_lapped s h in
    let n = sub8 h s0.sniff_tail in
    let p = drain_loop micros dr n (record { sniffer = s0; reads = 0 }) in
    if not (n == 0)
    then record {
      sniffer = record (p.sniffer) { burst_last = micros p.reads; sniff_last_ms = now_ms };
      reads = p.reads + 1;
    }
    else p

-- `for (v = acc; v >>= 1;) kbits++;`, on fuel: a byte takes at most 7 rounds.
unfoldable pub count_bits : ℕ → ℕ → ℕ
count_bits zero v = 0
count_bits (suc fuel) v = let rest = count_bits fuel (v / 2) in if v / 2 == 0 then 0 else suc rest

unfoldable pub watch_partial : Clocked → ℕ → ℕ → Clocked
watch_partial s now_ms kbits =
    let first = s.partial_seen_bits == 0 in
    if not (kbits == 0)
    then record s {
      partial_seen_ms = if first then now_ms else s.partial_seen_ms;
      partial_seen_bits = kbits;
    }
    else record s { partial_seen_bits = 0 }

-- The valid bits of the accumulator, from the top of the byte down.
unfoldable pub flush_partial : Clocked → ℕ → ℕ → Clocked
flush_partial s acc kbits =
    if not (kbits == 0) && ltb (length s.burst) burst_max
    then record s {
      burst = s.burst ++ to_u8 (acc % 2 ^ kbits * 2 ^ (8 - kbits)) ∷ [];
      tail_bits = kbits;
    }
    else s

-- The record that closes a burst, or a chain of continued records. `now` is what the clock shows if it is read.
unfoldable pub closing : Clocked → ℕ → ℕ → ℕ → Clocked
unfolding flush_partial
closing s now acc kbits =
    let f = flush_partial s acc kbits in
    if f.burst_open
    then f
    else record f { burst_open = true; burst_last = now; burst_t0 = now; burst_onset = 0 }

unfoldable pub close_idle : Clocked → ℕ → ℕ → ℕ → Clocked
unfolding closing
close_idle s now acc kbits =
    let y = record (emit_record (closing s now acc kbits) false) { tail_bits = 0 } in
    if not (kbits == 0) then record y { sniff_tail = 0; partial_seen_bits = 0 } else y

-- The end of a burst, at an idle gap or at the cap on its time.
unfoldable pub finalize : (ℕ → ℕ) → Pass → ℕ → ℕ → ℕ → Clocked
unfolding close_idle
finalize micros p now_ms acc kbits =
    let s = p.sniffer in
    let partial_only_idle =
      not (kbits == 0)
      && not s.burst_open
      && not s.need_terminal
      && ltb 3 (sub32 now_ms s.partial_seen_ms) in
    let idle = ltb 3 (sub32 now_ms s.sniff_last_ms) in
    let tcap = s.burst_open && ltb burst_tcap_us (sub32 (micros p.reads) s.burst_t0) in
    if s.burst_open || s.need_terminal || partial_only_idle
    then (if idle || partial_only_idle
        then close_idle s (micros p.reads) acc kbits
        else if tcap
        then emit_record s false
        else s)
    else s

abbrev pub heartbeat : Clocked → ℕ → Clocked
heartbeat s now_ms =
    if nonneg32 (sub32 now_ms s.mode_hb_ms)
    then record (emit_mode_marker s) { mode_hb_ms = add32 now_ms 1000 }
    else s

-- Everything up to the second stage.
unfoldable pub capture : (ℕ → ℕ) → (ℕ → ℕ) → ℕ → Clocked → Clocked
unfolding drain_fifo count_bits watch_partial finalize
capture micros dr now_ms s =
    let p = drain_fifo micros dr now_ms (heartbeat s now_ms) in
    let acc = dr 0x3e in
    let kbits = count_bits 8 acc in
    finalize micros (record p { sniffer = watch_partial p.sniffer now_ms kbits }) now_ms acc kbits

abbrev pub at_most : ℕ → ℕ → ℕ
at_most n limit = if ltb limit n then limit else n

-- How many bytes the second stage moves.
unfoldable pub ship_count : Clocked → UsbCdc → ℕ
ship_count s u =
    let budget = at_most (to_u16 (write_space u)) drain_max in
    at_most
      (at_most (at_most (to_u16 (size s.ring)) budget) (to_u16 (read_contig ring_size s.ring)))
      (tx_reserve u)

-- The second stage. `events i` is what the peripheral has done before pump `i`. The loop pumps before every sixteenth byte; the
-- bytes that it stores are not in the queue before the commit, so that the stores stand there.
unfoldable pub ship : Sdk → (ℕ → Bool × Status) → Clocked → UsbCdc → Clocked × UsbCdc
unfolding ship_count pump_times
ship k events s u =
    let n = ship_count s u in
    let bytes = read_run s.ring.buf (read_ptr ring_size s.ring) n in
    let v = pump_times k events ((n + 15) / pump_every) u in
    (record s { ring = read_commit s.ring n }, tx_commit v bytes)

unfoldable pub service :
    Sdk → (ℕ → Bool × Status) → (ℕ → ℕ) → (ℕ → ℕ) → ℕ → Clocked × UsbCdc → Clocked × UsbCdc
unfolding capture ship
service k events micros dr now_ms (s, u) = ship k events (capture micros dr now_ms s) u
