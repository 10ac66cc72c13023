-- ===== src/Rle/Service/Pass.antt =====
-- src/sniffer/rle_sniffer.cpp: `service` as a whole.
use ch32_tapioca.Prelude.{ℕ, ◌+◌, ◌≡◌, ◌∙◌, sym, ap, Bool, false, List, ◌++◌, length, append_assoc}
use ch32_tapioca.Prelude.Words.{add32}
use ch32_tapioca.Ring.{size}
use ch32_tapioca.Ring.Queue.{IsValid, contents}
use ch32_tapioca.Usb.Device.{UsbCdc, Sdk, tx_capacity}
use ch32_tapioca.Usb.Bulk.{Status}
use ch32_tapioca.Usb.Bulk.Stream.{Runs}
use ch32_tapioca.Rle.Drain.{Sniffer}
use ch32_tapioca.Rle.Service.{Service, drain_ram, service}
use ch32_tapioca.Rle.Service.Stream.{filtered, drain_ram_lem}
use ch32_tapioca.Rle.Service.Markers.{Loss, Gap}
use ch32_tapioca.Rle.Service.Loss.{Beat, after_drain_lem}

-- One `service` adds to the stream, behind what is there, what the filter makes of the records that it takes from the RAM ring,
-- then at most a loss marker, a boundary and the mode marker, and nothing else. `p` are the bytes of the packets that a run of
-- the code's ticks and pumps sends meanwhile; with them no byte is lost or moved, and after that run every byte of the stream
-- is still there, with what is added behind it. The loss marker comes exactly if records have been lost that no marker has
-- told and there is room for it, and only then they count as told. The boundary comes exactly if the drain saw no activity, a
-- burst was open, the RAM ring is empty, the last activity is more than 3 ms ago, and there is room. The mode marker comes
-- exactly if no burst is open then, its time has come, its text makes a block, and there is room. The drain interrupt may
-- do anything to its members in between. This is for a valid stream and with no bus reset pending.
pub service_lem :
    (k : Sdk) (events : ℕ → Bool × Status) (interrupts : Sniffer → Sniffer) (cap_idle_k : ℕ)
    (marker : List ℕ) (now_ms : ℕ) (s : Service) (u : UsbCdc)
    → IsValid tx_capacity u.tx
    → u.fg_bus_rst ≡ false
    → let s0 = record s { loop_calls = add32 s.loop_calls 1 } in
      let out = (filtered cap_idle_k s0 u).out in
      let (s1, u1, saw) = drain_ram k events cap_idle_k s0 u in
      let s2 = record s1 { drain = interrupts s1.drain } in
      let (s', u') = service k events interrupts cap_idle_k marker now_ms s u in
      (p : List ℕ) × (loss : List ℕ) × (gap : List ℕ) × (beat : List ℕ) × Runs k u out p u1
      × (contents tx_capacity u.tx ++ (out ++ (loss ++ (gap ++ beat)))
          ≡ p ++ contents tx_capacity u'.tx)
      × (contents tx_capacity u'.tx ≡ contents tx_capacity u1.tx ++ (loss ++ (gap ++ beat)))
      × IsValid tx_capacity u'.tx
      × Loss s2 u1 loss s'.loss_seen
      × Gap s2 saw now_ms (size u1.tx + length loss) gap
      × Beat marker
          (record s2 { sniff_active = s'.sniff_active })
          (size u1.tx + length loss + length gap)
          now_ms
          beat
unfolding service
service_lem k events interrupts cap_idle_k marker now_ms s u valid calm =
    let s0 : Service = record s { loop_calls = add32 s.loop_calls 1 } in
    let out = (filtered cap_idle_k s0 u).out in
    let (s1, u1, saw) = drain_ram k events cap_idle_k s0 u in
    let s2 : Service = record s1 { drain = interrupts s1.drain } in
    let (p, runs, stream, still) = drain_ram_lem k events cap_idle_k s0 u valid calm in
    let (loss, gap, beat, added, ok, told, closed, beats) =
      after_drain_lem marker now_ms saw s2 u1 still in
    let more = loss ++ (gap ++ beat) in
    (
      p,
      loss,
      gap,
      beat,
      runs,
      sym (append_assoc (contents tx_capacity u.tx) out more)
          ∙ ap (λ l. l ++ more) stream
          ∙ append_assoc p (contents tx_capacity u1.tx) more
          ∙ ap (λ l. p ++ l) (sym added),
      added,
      ok,
      told,
      closed,
      beats,
    )
