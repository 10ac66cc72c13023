-- ===== src/Clocked/Service/Sound.antt =====
-- src/sniffer/clocked_sniffer.cpp: the invariant of `service`.
use ch32_tapioca.Prelude.{
  ℕ, zero, suc, ◌+◌, ◌%◌, ◌≤◌, ◌<◌, ◌≡◌, ◌∙◌, sym, ap, subst, refl, arith, Bool, true, false, not,
  ◌&&◌, ◌||◌, List, [], ◌∷◌, leb, ltb, ◌==◌, if◌then◌else◌, if-elim, length, length-append, inl,
  inr, some,
}
use ch32_tapioca.Prelude.Words.{to_u8, to_u16, sub8, sub32, add32, nonneg32}
use ch32_tapioca.Framer.{frame_meta}
use ch32_tapioca.Ring.{push_all}
use ch32_tapioca.Ring.Queue.{IsValid, push_all_lem}
use ch32_tapioca.Usb.Device.{UsbCdc, Sdk, tx_capacity}
use ch32_tapioca.Usb.Bulk.{Status}
use ch32_tapioca.Clocked.{
  Clocked, ring_size, burst_max, emit_record, emit_mode_marker, ring_push, ring_space, marker,
}
use ch32_tapioca.Clocked.Records.{emit_record_lem}
use ch32_tapioca.Clocked.Service.{
  Pass, split, take_byte, drain_loop, drain_fifo, skip_lapped, watch_partial, closing, close_idle,
  finalize, capture, heartbeat, count_bits, ship, service, ring_slots, ring_head, burst_tcap_us,
}
use ch32_tapioca.Clocked.Service.Bytes.{open_bytes, collect, collect-Holds, take_byte-split}
use ch32_tapioca.Clocked.Service.Ship.{ship_lem}
use ch32_tapioca.Clocked.Service.Idle.{closing-ready}

-- The staging ring is valid, and a burst is below the payload cap.
pub record IsSound (s : Clocked) : Type 0 where
  pub valid : IsValid ring_size s.ring
  pub small : length s.burst < burst_max

same-IsSound : (s t : Clocked) → t.ring ≡ s.ring → t.burst ≡ s.burst → IsSound s → IsSound t
same-IsSound s t ring burst h = record {
  valid = subst (IsValid ring_size) (sym ring) h.valid;
  small = subst (λ l. length l < burst_max) (sym burst) h.small;
}

emit_record-IsSound :
    (x : Clocked) (continued : Bool)
    → x.burst_open ≡ true
    → IsValid ring_size x.ring
    → length x.burst ≤ burst_max
    → IsSound (emit_record x continued)
emit_record-IsSound x continued opened valid few =
    let (shut, empty, outcome) = emit_record_lem x continued opened valid few in
    record {
      valid = elim outcome [
        | inl (fits, staged, still, ram, pioc, owed) ↦ still
        | inr (full, same, ram, pioc, owed) ↦ subst (IsValid ring_size) (sym same) valid
      ];
      small = subst (λ l. length l < burst_max) (sym empty) (omega arith);
    }

open_small : (s : Clocked) → length s.burst < burst_max → length (open_bytes s) < burst_max
open_small s small =
    if-elim (λ (l : List ℕ). length l < burst_max) s.burst_open s.burst [] (λ o. small)
      (λ c. omega arith)

take_byte-IsSound :
    (micros : ℕ → ℕ) (p : Pass) (b : ℕ) → IsSound p.sniffer → IsSound (take_byte micros p b).sniffer
unfolding split
take_byte-IsSound micros p b h =
    let q = collect micros p b in
    let (bytes, opened, kept) = collect-Holds micros p b (open_small p.sniffer h.small) in
    let valid = subst (IsValid ring_size) (sym kept.same_ring) h.valid in
    let count = ap length bytes ∙ length-append (open_bytes p.sniffer) (b ∷ []) in
    let below = open_small p.sniffer h.small in
    let few : length q.sniffer.burst ≤ burst_max = omega (arith, count, below) in
    subst (λ (r : Pass). IsSound r.sniffer) (sym (take_byte-split micros p b))
      (if-elim (λ (r : Pass). IsSound r.sniffer) (leb burst_max (length q.sniffer.burst))
        (record {
          sniffer = emit_record (record (q.sniffer) { burst_last = micros q.reads }) true;
          reads = q.reads + 1;
        })
        q
        (λ full.
          emit_record-IsSound (record (q.sniffer) { burst_last = micros q.reads }) true opened valid
            few)
        (λ more. record { valid = valid; small = ground (arith, more) }))

drain_loop-IsSound :
    (micros dr : ℕ → ℕ) (n : ℕ) (p : Pass)
    → IsSound p.sniffer
    → IsSound (drain_loop micros dr n p).sniffer
unfolding drain_loop
drain_loop-IsSound micros dr zero p h = h
drain_loop-IsSound micros dr (suc n) p h =
    let t = p.sniffer.sniff_tail in
    let q = record p { sniffer = record (p.sniffer) { sniff_tail = to_u8 (t + 1) } } in
    drain_loop-IsSound micros dr n (take_byte micros q (dr (0x20 + t % ring_slots))) (
      take_byte-IsSound micros q (dr (0x20 + t % ring_slots))
        (same-IsSound p.sniffer q.sniffer refl refl h))

skip_lapped-IsSound : (s : Clocked) (h : ℕ) → IsSound s → IsSound (skip_lapped s h)
unfolding skip_lapped
skip_lapped-IsSound s h sound = same-IsSound s (skip_lapped s h) (ground arith) (ground arith) sound

drain_fifo-IsSound :
    (micros dr : ℕ → ℕ) (now_ms : ℕ) (s : Clocked)
    → IsSound s
    → IsSound (drain_fifo micros dr now_ms s).sniffer
unfolding drain_fifo
drain_fifo-IsSound micros dr now_ms s sound =
    let s0 = skip_lapped s (dr ring_head) in
    let n = sub8 (dr ring_head) s0.sniff_tail in
    let p = drain_loop micros dr n (record { sniffer = s0; reads = 0 }) in
    let q : Pass = record {
      sniffer = record (p.sniffer) { burst_last = micros p.reads; sniff_last_ms = now_ms };
      reads = p.reads + 1;
    } in
    let drained =
      drain_loop-IsSound micros dr n (record { sniffer = s0; reads = 0 })
        (skip_lapped-IsSound s (dr ring_head) sound) in
    if-elim (λ (r : Pass). IsSound r.sniffer) (not (n == 0)) q p
      (λ got. same-IsSound p.sniffer q.sniffer refl refl drained) (λ none_. drained)

heartbeat-IsSound : (s : Clocked) (now_ms : ℕ) → IsSound s → IsSound (heartbeat s now_ms)
unfolding emit_mode_marker ring_push
heartbeat-IsSound s now_ms sound =
    let out = frame_meta (some marker) in
    let r = push_all ring_size s.ring out in
    let valid : IsValid ring_size r.1 = elim (push_all_lem ring_size sound.valid (inl refl) out) [
      | inl (fits, done, staged, still) ↦ still
      | inr (full, failed, same) ↦ subst (IsValid ring_size) (sym same) sound.valid
    ] in
    let pushed : IsSound (ring_push s out) =
      if-elim (λ (t : Clocked). IsSound t) r.0 (record s { ring = r.1 })
        (record s { ovf_ram = to_u16 (s.ovf_ram + 1) })
        (λ done. record { valid = valid; small = sound.small })
        (λ full. same-IsSound s (record s { ovf_ram = to_u16 (s.ovf_ram + 1) }) refl refl sound) in
    let marked : IsSound (emit_mode_marker s) =
      if-elim (λ (t : Clocked). IsSound t)
        (not (length out == 0) && leb (length out) (ring_space s)) (ring_push s out) s
        (λ room. pushed) (λ full. sound) in
    let beat = record (emit_mode_marker s) { mode_hb_ms = add32 now_ms 1000 } in
    if-elim (λ (t : Clocked). IsSound t) (nonneg32 (sub32 now_ms s.mode_hb_ms)) beat s
      (λ due. same-IsSound (emit_mode_marker s) beat refl refl marked) (λ early. sound)

close_idle-IsSound :
    (s : Clocked) (now acc kbits : ℕ) → IsSound s → IsSound (close_idle s now acc kbits)
unfolding close_idle
close_idle-IsSound s now acc kbits sound =
    let x = closing s now acc kbits in
    let (opened, ring, few) = closing-ready s now acc kbits sound.small in
    let r = emit_record x false in
    let emitted =
      emit_record-IsSound x false opened (subst (IsValid ring_size) (sym ring) sound.valid) few in
    let y : Clocked = record r { tail_bits = 0 } in
    let z : Clocked = record y { sniff_tail = 0; partial_seen_bits = 0 } in
    if-elim (λ (t : Clocked). IsSound t) (not (kbits == 0)) z y
      (λ bits. same-IsSound r z refl refl emitted) (λ none_. same-IsSound r y refl refl emitted)

and_left : (a b : Bool) → (a && b) ≡ true → a ≡ true
and_left true b h = refl
and_left false b h = h

finalize-IsSound :
    (micros : ℕ → ℕ) (p : Pass) (now_ms acc kbits : ℕ)
    → IsSound p.sniffer
    → IsSound (finalize micros p now_ms acc kbits)
unfolding finalize
finalize-IsSound micros p now_ms acc kbits sound =
    let s = p.sniffer in
    let only =
      not (kbits == 0)
      && not s.burst_open
      && not s.need_terminal
      && ltb 3 (sub32 now_ms s.partial_seen_ms) in
    let idle = ltb 3 (sub32 now_ms s.sniff_last_ms) in
    let late = ltb burst_tcap_us (sub32 (micros p.reads) s.burst_t0) in
    let closed = close_idle s (micros p.reads) acc kbits in
    let cut = if s.burst_open && late then emit_record s false else s in
    let timed : IsSound cut =
      if-elim (λ (t : Clocked). IsSound t) (s.burst_open && late) (emit_record s false) s
        (λ over.
          emit_record-IsSound s false (and_left s.burst_open late over) sound.valid
            (omega (arith, sound.small)))
        (λ early. sound) in
    let ended : IsSound (if idle || only then closed else cut) =
      if-elim (λ (t : Clocked). IsSound t) (idle || only) closed cut
        (λ gap. close_idle-IsSound s (micros p.reads) acc kbits sound) (λ busy. timed) in
    if-elim (λ (t : Clocked). IsSound t) (s.burst_open || s.need_terminal || only)
      (if idle || only then closed else cut) s (λ open_. ended) (λ shut. sound)

capture-IsSound :
    (micros dr : ℕ → ℕ) (now_ms : ℕ) (s : Clocked)
    → IsSound s
    → IsSound (capture micros dr now_ms s)
unfolding capture watch_partial
capture-IsSound micros dr now_ms s sound =
    let p = drain_fifo micros dr now_ms (heartbeat s now_ms) in
    let acc = dr 0x3e in
    let kbits = count_bits 8 acc in
    let w = watch_partial p.sniffer now_ms kbits in
    let drained =
      drain_fifo-IsSound micros dr now_ms (heartbeat s now_ms) (heartbeat-IsSound s now_ms sound) in
    finalize-IsSound micros (record p { sniffer = w }) now_ms acc kbits
      (same-IsSound p.sniffer w (ground arith) (ground arith) drained)

ship-burst :
    (k : Sdk) (events : ℕ → Bool × Status) (s : Clocked) (u : UsbCdc)
    → (ship k events s u).0.burst ≡ s.burst
unfolding ship
ship-burst k events s u = refl

-- A whole `service` keeps the staging ring valid, the burst below the payload cap and the stream valid, whatever the FIFO, the
-- clock and the host do, with no bus reset pending.
pub service-IsSound :
    (k : Sdk) (events : ℕ → Bool × Status) (micros dr : ℕ → ℕ) (now_ms : ℕ) (s : Clocked)
    (u : UsbCdc)
    → IsSound s
    → IsValid tx_capacity u.tx
    → u.fg_bus_rst ≡ false
    → let (s', u') = service k events micros dr now_ms (s, u) in
      IsSound s' × IsValid tx_capacity u'.tx
unfolding service
service-IsSound k events micros dr now_ms s u sound valid calm =
    let c = capture micros dr now_ms s in
    let kept = capture-IsSound micros dr now_ms s sound in
    let (p, runs, taken, stream, still, open_, few, progress) =
      ship_lem k events c u kept.valid valid calm in
    (
      record {
        valid = still;
        small = subst (λ l. length l < burst_max) (sym (ship-burst k events c u)) kept.small;
      },
      open_,
    )
