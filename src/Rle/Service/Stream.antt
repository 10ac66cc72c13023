-- ===== src/Rle/Service/Stream.antt =====
-- src/sniffer/rle_sniffer.cpp: the drain of the RAM ring into the USB stream.
use ch32_tapioca.Prelude.{
  ℕ, zero, suc, ◌≤◌, ◌≡◌, ◌∙◌, sym, ap, subst, refl, arith, Bool, true, false, ◌||◌, List, [], ◌++◌,
  ◌==◌, leb, length, Bool-cases, append-nil, inl, inr,
}
use ch32_tapioca.Ring.Queue.{IsValid, contents}
use ch32_tapioca.Usb.Device.{UsbCdc, Sdk, tx_capacity, tx_reserve}
use ch32_tapioca.Usb.Bulk.{Status}
use ch32_tapioca.Usb.Bulk.Pump.{pump_times, pump_times-Sent, Drains-reserve}
use ch32_tapioca.Usb.Bulk.Stream.{Runs, Runs-stream}
use ch32_tapioca.Rle.Squelch.{Filter, filter, filter-length}
use ch32_tapioca.Rle.Service.{Service, ring_bytes, drain_count, start_filter, pump_count, drain_ram}

-- What the filter makes of the bytes that a call takes on.
abbrev pub filtered : ℕ → Service → UsbCdc → Filter
filtered cap_idle_k s u =
    filter cap_idle_k (tx_reserve u) (start_filter s)
      (ring_bytes s.drain.ring s.drain.tail 0 (drain_count s u))

idle-out :
    (k cap : ℕ) (f : Filter) (ring : ℕ → ℕ) (t n : ℕ)
    → f.out ≡ []
    → (n == 0 || cap == 0) ≡ true
    → (filter k cap f (ring_bytes ring t 0 n)).out ≡ []
unfolding ring_bytes filter
idle-out k cap f ring t zero empty idle = empty
idle-out k cap f ring t (suc n) empty idle =
    let none_ : leb cap (length f.out) ≡ true = ground (arith, ap length empty) in rw none_ empty

-- The drain puts what the filter makes of the RAM ring, in order, behind what the stream had: with the packets that it sends
-- meanwhile, nothing is lost or moved, and the stream stays valid. `p` are the bytes of the packets. This is for a valid stream and with no bus reset pending.
pub drain_ram_lem :
    (k : Sdk) (events : ℕ → Bool × Status) (cap_idle_k : ℕ) (s : Service) (u : UsbCdc)
    → IsValid tx_capacity u.tx
    → u.fg_bus_rst ≡ false
    → let (s', u', saw) = drain_ram k events cap_idle_k s u in
      (p : List ℕ) × Runs k u (filtered cap_idle_k s u).out p u'
      × (contents tx_capacity u.tx ++ (filtered cap_idle_k s u).out
          ≡ p ++ contents tx_capacity u'.tx)
      × IsValid tx_capacity u'.tx
unfolding drain_ram
drain_ram_lem k events cap_idle_k s u valid calm =
    let n = drain_count s u in
    let cap = tx_reserve u in
    let f = filtered cap_idle_k s u in
    elim (Bool-cases (n == 0 || cap == 0)) [
      | inl idle ↦
          let nothing =
            idle-out cap_idle_k cap (start_filter s) s.drain.ring s.drain.tail n refl idle in
          rw idle (
            [],
            subst (λ l. Runs k u l [] u) (sym nothing) Runs.here,
            ap (λ l. contents tx_capacity u.tx ++ l) nothing
                ∙ append-nil (contents tx_capacity u.tx),
            valid,
          )
      | inr busy ↦
          let pumps = pump_count f.taken n in
          let v = pump_times k events pumps u in
          let (p, runs, d) = pump_times-Sent k events pumps u calm valid in
          let room =
            filter-length cap_idle_k cap (start_filter s) (ring_bytes s.drain.ring s.drain.tail 0 n)
              (omega arith) in
          let fits : length f.out ≤ tx_reserve v =
            omega (arith, room, Drains-reserve u v valid d) in
          let (stream, still) = Runs-stream k u valid (Runs.commit_step f.out fits runs) in
          rw busy (p, Runs.commit_step f.out fits runs, stream, still)
    ]
