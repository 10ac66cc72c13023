-- ===== src/Rle/Service.antt =====
-- src/sniffer/rle_sniffer.cpp: `service`, `begin` and `stop`, without the telemetry under DIAG, in the build with both modes. The
-- drain interrupt may run at any time: `interrupts` is what it does to its members between the drain of the RAM ring
-- and the later reads of them. The set-up of the PIOC and of the timer is left out. `marker` is the text that `snprintf` makes,
-- and `cap_idle_k` is `CAP_IDLE_K`.
pub mod Stream
pub mod Markers
pub mod Loss
pub mod Pass
use ch32_tapioca.Prelude.{
  ℕ, zero, suc, ◌+◌, ◌-◌, ◌*◌, ◌/◌, ◌%◌, Bool, true, false, not, ◌&&◌, ◌||◌, List, [], ◌∷◌, ◌++◌,
  Option, some, ltb, leb, ◌==◌, if◌then◌else◌, length,
}
use ch32_tapioca.Prelude.Words.{to_u16, sub32, add32, nonneg32}
use ch32_tapioca.Framer.{frame_meta}
use ch32_tapioca.Usb.Device.{UsbCdc, Sdk, write_space, write, tx_reserve, tx_commit}
use ch32_tapioca.Usb.Bulk.{Status}
use ch32_tapioca.Usb.Bulk.Pump.{pump_times}
use ch32_tapioca.Rle.Drain.{Sniffer, ring_size, ring_count, at_most}
use ch32_tapioca.Rle.Squelch.{Filter, filter}

-- `drain` has the members that the interrupt shares.
pub record Service : Type 0 where
  pub drain : Sniffer
  pub sniff_last_ms : ℕ
  pub sniff_active : Bool
  pub loss_seen : ℕ
  pub tx_min_free : ℕ
  pub loop_calls : ℕ
  pub cap_run : ℕ
  pub cap_piped : Bool
  pub mode_hb_ms : ℕ

abbrev pub drain_cap : ℕ
drain_cap = 192

-- `ring_[(uint16_t)(t + i) & RING_MASK]` for the next `n` values of `i`.
unfoldable pub ring_bytes : (ℕ → ℕ) → ℕ → ℕ → ℕ → List ℕ
ring_bytes ring t i zero = []
ring_bytes ring t i (suc n) = ring (to_u16 (t + i) % ring_size) ∷ ring_bytes ring t (suc i) n

unfoldable pub drain_count : Service → UsbCdc → ℕ
drain_count s u = at_most (ring_count s.drain) (at_most (to_u16 (write_space u)) drain_cap)

abbrev pub start_filter : Service → Filter
start_filter s = record {
  cap_run = s.cap_run;
  cap_piped = s.cap_piped;
  sniff_active = s.sniff_active;
  saw_activity = false;
  out = [];
  taken = 0;
}

-- The loop pumps at every sixteenth index that it reaches, also at the one where it leaves for want of room.
abbrev pub pump_count : ℕ → ℕ → ℕ
pump_count taken n = if ltb taken n then taken / 16 + 1 else (n + 15) / 16

-- The drain of the RAM ring, with `sawActivity`.
unfoldable pub drain_ram :
    Sdk → (ℕ → Bool × Status) → ℕ → Service → UsbCdc → Service × UsbCdc × Bool
unfolding ring_bytes drain_count
drain_ram k events cap_idle_k s u =
    let n = drain_count s u in
    let cap = tx_reserve u in
    let f = filter cap_idle_k cap (start_filter s) (ring_bytes s.drain.ring s.drain.tail 0 n) in
    let s' = record s {
      drain = record (s.drain) { tail = to_u16 (s.drain.tail + f.taken) };
      cap_run = f.cap_run;
      cap_piped = f.cap_piped;
      sniff_active = f.sniff_active;
    } in
    if n == 0 || cap == 0
    then (s, u, false)
    else (s', tx_commit (pump_times k events (pump_count f.taken n) u) f.out, f.saw_activity)

unfoldable pub note_space : Service → UsbCdc → Service
note_space s u =
    let f = to_u16 (write_space u) in
    record s { tx_min_free = if ltb f s.tx_min_free then f else s.tx_min_free }

-- The loss marker; what has been lost is seen only once the marker is in the stream.
unfoldable pub mark_loss : Service → UsbCdc → Service × UsbCdc
mark_loss s u =
    let rd = s.drain.ram_drop in
    let (n, v) = write u (0xfd ∷ []) in
    if rd == s.loss_seen then (s, u) else (if n == 1 then record s { loss_seen = rd } else s, v)

unfoldable pub note_activity : Service → Bool → ℕ → Service
note_activity s saw_activity now_ms =
    if saw_activity || ltb 0 (ring_count s.drain)
    then record s { sniff_last_ms = now_ms; sniff_active = true }
    else s

-- `emitBoundary`.
unfoldable pub emit_boundary : UsbCdc → Bool × UsbCdc
emit_boundary u = let (n, v) = write u (0xff ∷ []) in (n == 1, v)

unfoldable pub close_gap : Service → UsbCdc → ℕ → Service × UsbCdc
unfolding emit_boundary
close_gap s u now_ms =
    let (done, v) = emit_boundary u in
    if s.sniff_active && ring_count s.drain == 0 && ltb 3 (sub32 now_ms s.sniff_last_ms)
    then (if done then record s { sniff_active = false } else s, v)
    else (s, u)

unfoldable pub emit_mode_marker : List ℕ → UsbCdc → UsbCdc
emit_mode_marker marker u =
    let block = frame_meta (some marker) in
    let w = length block in
    if length marker == 0
    then u
    else if not (w == 0) && leb (w + 1) (write_space u)
    then (write u (0xff ∷ block)).1
    else u

unfoldable pub heartbeat : List ℕ → Service → UsbCdc → ℕ → Service × UsbCdc
unfolding emit_mode_marker
heartbeat marker s u now_ms =
    if not s.sniff_active && nonneg32 (sub32 now_ms s.mode_hb_ms)
    then (record s { mode_hb_ms = add32 now_ms 1000 }, emit_mode_marker marker u)
    else (s, u)

-- `service` after the drain of the RAM ring.
unfoldable pub after_drain : List ℕ → ℕ → Bool → Service → UsbCdc → Service × UsbCdc
unfolding note_space mark_loss note_activity close_gap heartbeat
after_drain marker now_ms saw_activity s u =
    let (s1, u1) = mark_loss (note_space s u) u in
    let (s2, u2) = close_gap (note_activity s1 saw_activity now_ms) u1 now_ms in
    heartbeat marker s2 u2 now_ms

unfoldable pub service :
    Sdk
    → (ℕ → Bool × Status)
    → (Sniffer → Sniffer)
    → ℕ
    → List ℕ
    → ℕ
    → Service
    → UsbCdc
    → Service × UsbCdc
unfolding drain_ram after_drain
service k events interrupts cap_idle_k marker now_ms s u =
    let (s1, u1, saw) =
      drain_ram k events cap_idle_k (record s { loop_calls = add32 s.loop_calls 1 }) u in
    after_drain marker now_ms saw (record s1 { drain = interrupts s1.drain }) u1

unfoldable pub begin : List ℕ → ℕ → Service → UsbCdc → Service × UsbCdc
unfolding emit_mode_marker
begin marker now_ms s u = (
  record s {
    drain = record (s.drain) {
      sniff_tail = 0;
      sniff_slot = 0;
      head = 0;
      tail = 0;
      ovf_pioc = 0;
      ram_drop = 0;
      ram_hi = 0;
      max_gap = 0;
    };
    sniff_last_ms = now_ms;
    sniff_active = false;
    loss_seen = 0;
    tx_min_free = 0xffff;
    cap_run = 0;
    cap_piped = false;
    mode_hb_ms = add32 now_ms 1000;
  },
  emit_mode_marker marker u,
)

unfoldable pub stop : Service → Service
stop s = record s {
  drain = record (s.drain) { head = 0; tail = 0 };
  sniff_active = false;
  cap_run = 0;
  cap_piped = false;
}
