-- ===== src/Clocked.antt =====
-- src/sniffer/clocked_sniffer.hpp and clocked_sniffer.cpp: the burst records of `ClockedSniffer`. `burstBuf_` and `burstN_` are
-- the list of the bytes taken so far. `emitRecord` writes its 12 header bytes itself, as it does here. The flag bits do not
-- overlap, so `|` is a sum. `begin` and `stop` leave out the set-up of the PIOC; `begin` takes the HEAD register that it reads
-- after it.
pub mod Records
pub mod Lifecycle
pub mod Service
use ch32_tapioca.Prelude.{
  ℕ, ◌+◌, ◌*◌, ◌/◌, ◌%◌, Bool, true, false, not, ◌&&◌, List, [], ◌∷◌, ◌++◌, Option, some, ltb, leb,
  ◌==◌, if◌then◌else◌, length,
}
use ch32_tapioca.Prelude.Words.{to_u8, to_u16, add32, sub32}
use ch32_tapioca.Ring.{Ring, free, push_all, clear}
use ch32_tapioca.Framer.{frame_record, frame_meta}

-- The members, without the telemetry.
pub record Clocked : Type 0 where
  pub ring : Ring ℕ
  pub ovf_ram : ℕ
  pub ovf_pioc : ℕ
  pub burst : List ℕ
  pub burst_t0 : ℕ
  pub burst_last : ℕ
  pub burst_onset : ℕ
  pub burst_open : Bool
  pub need_terminal : Bool
  pub tail_bits : ℕ
  pub sniff_tail : ℕ
  pub sniff_last_ms : ℕ
  pub partial_seen_ms : ℕ
  pub partial_seen_bits : ℕ
  pub mode_hb_ms : ℕ

abbrev pub ring_size : ℕ
ring_size = 2048

abbrev pub burst_max : ℕ
burst_max = 768

unfoldable pub ring_space : Clocked → ℕ
ring_space s = to_u16 (free ring_size s.ring)

unfoldable pub ring_push : Clocked → List ℕ → Clocked
ring_push s bytes =
    let r = push_all ring_size s.ring bytes in
    if r.0 then record s { ring = r.1 } else record s { ovf_ram = to_u16 (s.ovf_ram + 1) }

abbrev pub duration : Clocked → ℕ
duration s = let d = sub32 s.burst_last s.burst_t0 in if ltb 0xffff d then 0xffff else to_u16 d

abbrev pub bit : Bool → ℕ → ℕ
bit b v = if b then v else 0

unfoldable pub flags : Clocked → Bool → ℕ
flags s continued =
    bit (not (s.ovf_pioc == 0)) 1
    + bit (not (s.ovf_ram == 0)) 2
    + bit continued 4
    + to_u8 (s.tail_bits % 8 * 8)

unfoldable pub record_bytes : Clocked → Bool → List ℕ
unfolding flags
record_bytes s continued =
    let t = s.burst_t0 in
    let n = length s.burst in
    0x01
    ∷ to_u8 t
    ∷ to_u8 (t / 256)
    ∷ to_u8 (t / 65536)
    ∷ to_u8 (t / 16777216)
    ∷ to_u8 (duration s)
    ∷ to_u8 (duration s / 256)
    ∷ to_u8 s.burst_onset
    ∷ to_u8 (s.burst_onset / 256)
    ∷ flags s continued
    ∷ to_u8 n
    ∷ to_u8 (n / 256)
    ∷ s.burst

unfoldable pub emit_record : Clocked → Bool → Clocked
emit_record s continued =
    let enc = frame_record (record_bytes s continued) in
    let kept = record (ring_push s enc) { ovf_pioc = 0; ovf_ram = 0; need_terminal = continued } in
    let lost = record s { ovf_ram = to_u16 (s.ovf_ram + 1) } in
    if not s.burst_open && not (s.need_terminal && not continued)
    then s
    else record (if leb (to_u16 (length enc)) (ring_space s) then kept else lost) {
      burst_open = false;
      burst = [];
    }

-- The text "[MODE clocked wire=2]".
abbrev pub marker : List ℕ
marker =
    0x5b ∷ 0x4d ∷ 0x4f ∷ 0x44 ∷ 0x45 ∷ 0x20 ∷ 0x63 ∷ 0x6c ∷ 0x6f ∷ 0x63 ∷ 0x6b ∷ 0x65 ∷ 0x64 ∷ 0x20
    ∷ 0x77 ∷ 0x69 ∷ 0x72 ∷ 0x65 ∷ 0x3d ∷ 0x32 ∷ 0x5d ∷ []

unfoldable pub emit_mode_marker : Clocked → Clocked
emit_mode_marker s =
    let out = frame_meta (some marker) in
    let w = length out in if not (w == 0) && leb w (ring_space s) then ring_push s out else s

unfoldable pub begin : Clocked → ℕ → ℕ → Clocked
begin s head now_ms =
    let s0 = record s {
      sniff_tail = head;
      sniff_last_ms = now_ms;
      partial_seen_ms = now_ms;
      partial_seen_bits = 0;
      ring = clear s.ring;
      ovf_ram = 0;
      ovf_pioc = 0;
      burst_open = false;
      burst = [];
      need_terminal = false;
      tail_bits = 0;
    } in
    record (emit_mode_marker (ring_push s0 (0xff ∷ []))) { mode_hb_ms = add32 now_ms 1000 }

unfoldable pub stop : Clocked → Clocked
stop s = record s {
  ring = clear s.ring;
  burst_open = false;
  burst = [];
  need_terminal = false;
  tail_bits = 0;
  partial_seen_bits = 0;
}
