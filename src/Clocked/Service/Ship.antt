-- ===== src/Clocked/Service/Ship.antt =====
-- src/sniffer/clocked_sniffer.cpp: the second stage of `service` moves the staged records to the USB stream.
use ch32_tapioca.Prelude.{
  ℕ, ◌+◌, ◌/◌, ◌≤◌, ◌<◌, ◌≡◌, ◌∙◌, sym, ap, subst, refl, arith, Bool, false, List, ◌++◌, length,
  take, take-append-drop, inl, length-take,
}
use ch32_tapioca.Prelude.Words.{to_u16}
use ch32_tapioca.Ring.{size, read_run, read_ptr, read_contig}
use ch32_tapioca.Ring.Queue.{IsValid, contents, length-contents, free_lem}
use ch32_tapioca.Ring.Contiguous.{
  read_contig_bounds, read_contig_positive, free_contig_bounds, read_commit_lem,
}
use ch32_tapioca.Usb.Device.{UsbCdc, Sdk, tx_capacity, tx_reserve, tx_commit, write_space}
use ch32_tapioca.Usb.Bulk.{Status}
use ch32_tapioca.Usb.Bulk.Pump.{Drains-reserve, pump_times, pump_times-Sent}
use ch32_tapioca.Usb.Bulk.Stream.{Runs, Runs-stream}
use ch32_tapioca.Clocked.{Clocked, ring_size}
use ch32_tapioca.Clocked.Service.{ship_count, ship, at_most, pump_every, drain_max}

at_most_bounds :
    (n limit : ℕ)
    → (at_most n limit ≤ n) × (at_most n limit ≤ limit) × (0 < n → 0 < limit → 0 < at_most n limit)
at_most_bounds n limit = (ground arith, ground arith, λ p q. ground arith)

module _ (s : Clocked) (u : UsbCdc) (valid : IsValid ring_size s.ring)
    (open_ : IsValid tx_capacity u.tx) where
  abbrev budget : ℕ
  budget = at_most (to_u16 (write_space u)) drain_max

  abbrev wanted : ℕ
  wanted = at_most (to_u16 (size s.ring)) budget

  abbrev contiguous : ℕ
  contiguous = at_most wanted (to_u16 (read_contig ring_size s.ring))

  ship_count_bounds :
      let n = ship_count s u in (n ≤ read_contig ring_size s.ring) × (n ≤ tx_reserve u) × (n ≤ 192)
  unfolding ship_count
  ship_count_bounds =
      let (b0, b1, b2) = at_most_bounds (to_u16 (write_space u)) drain_max in
      let (w0, w1, w2) = at_most_bounds (to_u16 (size s.ring)) budget in
      let (c0, c1, c2) = at_most_bounds wanted (to_u16 (read_contig ring_size s.ring)) in
      let (n0, n1, n2) = at_most_bounds contiguous (tx_reserve u) in
      (omega (arith, n0, c1), omega (arith, n1), omega (arith, n0, c0, w1, b1))

  ship_count_positive : 0 < size s.ring → size u.tx < tx_capacity → 0 < ship_count s u
  unfolding ship_count write_space tx_reserve
  ship_count_positive some_ room =
      let (b0, b1, b2) = at_most_bounds (to_u16 (write_space u)) drain_max in
      let (w0, w1, w2) = at_most_bounds (to_u16 (size s.ring)) budget in
      let (c0, c1, c2) = at_most_bounds wanted (to_u16 (read_contig ring_size s.ring)) in
      let (n0, n1, n2) = at_most_bounds contiguous (tx_reserve u) in
      let left = free_lem tx_capacity open_ (inl refl) in
      let (few, fit, more) = free_contig_bounds tx_capacity open_ (inl refl) in
      let run = read_contig_positive ring_size valid (inl refl) some_ in
      let (most, inside) = read_contig_bounds ring_size valid (inl refl) in
      n2
        (c2 (w2 (omega (arith, valid.within)) (b2 (omega (arith, left)) (omega arith)))
          (omega (arith, run, most, valid.within)))
        (more room)

-- The second stage takes at most 192 bytes from the front of the staging ring, as many as it counts, and puts them in order
-- behind what the stream had, in a run of the stream whose packets are `p`: the bytes of the packets and those that wait are, in
-- order, those that waited and those taken, so that nothing is lost or moved. Both rings stay valid. It
-- makes progress: where there is something staged and room in the stream, it takes a byte or more. This is for valid
-- rings and with no bus reset pending.
pub ship_lem :
    (k : Sdk) (events : ℕ → Bool × Status) (s : Clocked) (u : UsbCdc)
    → IsValid ring_size s.ring
    → IsValid tx_capacity u.tx
    → u.fg_bus_rst ≡ false
    → let n = ship_count s u in
      let (s', u') = ship k events s u in
      (p : List ℕ) × Runs k u (take n (contents ring_size s.ring)) p u'
      × (contents ring_size s.ring
          ≡ take n (contents ring_size s.ring) ++ contents ring_size s'.ring)
      × (contents tx_capacity u.tx ++ take n (contents ring_size s.ring)
          ≡ p ++ contents tx_capacity u'.tx)
      × IsValid ring_size s'.ring
      × IsValid tx_capacity u'.tx
      × (n ≤ 192)
      × (0 < size s.ring → size u.tx < tx_capacity → 0 < n)
unfolding ship
ship_lem k events s u valid open_ calm =
    let n = ship_count s u in
    let (contig, reserve, most) = ship_count_bounds s u valid open_ in
    let bytes = read_run s.ring.buf (read_ptr ring_size s.ring) n in
    let v = pump_times k events ((n + 15) / pump_every) u in
    let (front, rest, still) = read_commit_lem ring_size valid (inl refl) n contig in
    let (p, runs, d) = pump_times-Sent k events ((n + 15) / pump_every) u calm open_ in
    let len : length bytes ≡ n =
      ap length front
      ∙ length-take n (contents ring_size s.ring)
      ∙ omega (
        arith,
        length-contents ring_size s.ring,
        (read_contig_bounds ring_size valid (inl refl)).0,
        contig,
      ) in
    let fits : length bytes ≤ tx_reserve v =
      omega (arith, len, reserve, Drains-reserve u v open_ d) in
    let (stream, ok) = Runs-stream k u open_ (Runs.commit_step bytes fits runs) in
    (
      p,
      subst (λ l. Runs k u l p (tx_commit v bytes)) front (Runs.commit_step bytes fits runs),
      sym (
          ap (λ l. take n (contents ring_size s.ring) ++ l) rest
          ∙ take-append-drop n (contents ring_size s.ring)),
      ap (λ l. contents tx_capacity u.tx ++ l) (sym front) ∙ stream,
      still,
      ok,
      most,
      ship_count_positive s u valid open_,
    )
