-- ===== src/Clocked/Service/Idle.antt =====
-- src/sniffer/clocked_sniffer.cpp: the end of a burst at an idle gap.
use ch32_tapioca.Prelude.{
  ℕ, ◌+◌, ◌-◌, ◌*◌, ◌%◌, ◌^◌, ◌≤◌, ◌<◌, ◌≡◌, ◌∙◌, sym, ap, subst, refl, arith, true, false, not,
  List, [], ◌∷◌, ◌++◌, ltb, ◌==◌, if◌then◌else◌, if-elim, length, length-append, append-nil,
  Bool-cases, inl, inr, ◌⊎◌,
}
use ch32_tapioca.Prelude.Words.{to_u8, to_u16}
use ch32_tapioca.Ring.{Ring, size}
use ch32_tapioca.Ring.Queue.{IsValid, contents}
use ch32_tapioca.Framer.{frame_record}
use ch32_tapioca.Clocked.{Clocked, ring_size, burst_max, record_bytes, emit_record}
use ch32_tapioca.Clocked.Records.{emit_record_lem}
use ch32_tapioca.Clocked.Service.{flush_partial, closing, close_idle}

-- The byte of the valid bits, if there are any.
abbrev pub partial_byte : ℕ → ℕ → List ℕ
partial_byte acc kbits = if kbits == 0 then [] else to_u8 (acc % 2 ^ kbits * 2 ^ (8 - kbits)) ∷ []

flush_partial_lem :
    (s : Clocked) (acc kbits : ℕ)
    → length s.burst < burst_max
    → let f = flush_partial s acc kbits in
      (f.burst ≡ s.burst ++ partial_byte acc kbits)
      × (f.tail_bits ≡ (if kbits == 0 then s.tail_bits else kbits))
      × (f.ring ≡ s.ring)
      × (f.ovf_ram ≡ s.ovf_ram)
      × (f.ovf_pioc ≡ s.ovf_pioc)
      × (f.need_terminal ≡ s.need_terminal)
unfolding flush_partial
flush_partial_lem s acc kbits small =
    let room : ltb (length s.burst) burst_max ≡ true = ground arith in
    elim (Bool-cases (kbits == 0)) [
      | inl none_ ↦ rw none_ (sym (append-nil s.burst), refl, refl, refl, refl, refl)
      | inr some_ ↦ rw (some_, room) (refl, refl, refl, refl, refl, refl)
    ]

closing_lem :
    (s : Clocked) (now acc kbits : ℕ)
    → let f = flush_partial s acc kbits in
      let x = closing s now acc kbits in
      (x.burst ≡ f.burst)
      × (x.burst_open ≡ true)
      × (x.tail_bits ≡ f.tail_bits)
      × (x.ring ≡ f.ring)
      × (x.ovf_ram ≡ f.ovf_ram)
      × (x.ovf_pioc ≡ f.ovf_pioc)
      × (x.need_terminal ≡ f.need_terminal)
unfolding closing
closing_lem s now acc kbits =
    let f = flush_partial s acc kbits in
    if-elim
      (λ (x : Clocked).
        (x.burst ≡ f.burst)
        × (x.burst_open ≡ true)
        × (x.tail_bits ≡ f.tail_bits)
        × (x.ring ≡ f.ring)
        × (x.ovf_ram ≡ f.ovf_ram)
        × (x.ovf_pioc ≡ f.ovf_pioc)
        × (x.need_terminal ≡ f.need_terminal))
      f.burst_open f _ (λ opened. (refl, opened, refl, refl, refl, refl, refl))
      (λ shut. (refl, refl, refl, refl, refl, refl, refl))

-- What the record `x` that closes the burst of `s` leaves.
abbrev pub Closed : Clocked → Clocked → Clocked → Type 0
Closed s x y =
    (y.burst_open ≡ false)
    × (y.burst ≡ [])
    × (y.tail_bits ≡ 0)
    × (((length (frame_record (record_bytes x false)) ≤ ring_size - size s.ring)
          × (contents ring_size y.ring
              ≡ contents ring_size s.ring ++ frame_record (record_bytes x false))
          × (y.ovf_ram ≡ 0)
          × (y.ovf_pioc ≡ 0)
          × (y.need_terminal ≡ false))
        ⊎ ((ring_size - size s.ring < length (frame_record (record_bytes x false)))
            × (y.ring ≡ s.ring)
            × (y.ovf_ram ≡ to_u16 (s.ovf_ram + 1))
            × (y.ovf_pioc ≡ s.ovf_pioc)
            × (y.need_terminal ≡ s.need_terminal)))

length-partial_byte : (acc kbits : ℕ) → length (partial_byte acc kbits) ≤ 1
length-partial_byte acc kbits = ground arith

-- The closing record is open, in the ring of the burst and not above the cap.
pub closing-ready :
    (s : Clocked) (now acc kbits : ℕ)
    → length s.burst < burst_max
    → let x = closing s now acc kbits in
      (x.burst_open ≡ true) × (x.ring ≡ s.ring) × (length x.burst ≤ burst_max)
closing-ready s now acc kbits small =
    let (b0, t0, r0, o0, p0, n0) = flush_partial_lem s acc kbits small in
    let (b1, open_, t1, r1, o1, p1, n1) = closing_lem s now acc kbits in
    let count = length-append s.burst (partial_byte acc kbits) in
    let one = length-partial_byte acc kbits in
    (open_, r1 ∙ r0, omega (arith, ap length (b1 ∙ b0), count, one, small))

-- At an idle gap, for a burst below the cap and a valid staging ring: a last record is made, not continued, whose payload is
-- the burst and, where the accumulator holds valid bits, one byte of them from the top down, with their number as its count
-- of bits. If its frame fits, it is staged, the loss counters are cleared and no terminal record is owed; if not, the loss is counted
-- and what is owed stays. Either way the burst is closed and empty, and the count of bits is 0 for the next record.
pub close_idle_lem :
    (s : Clocked) (now acc kbits : ℕ)
    → IsValid ring_size s.ring
    → length s.burst < burst_max
    → let x = closing s now acc kbits in
      (x.burst ≡ s.burst ++ partial_byte acc kbits)
      × (x.tail_bits ≡ (if kbits == 0 then s.tail_bits else kbits))
      × Closed s x (close_idle s now acc kbits)
unfolding close_idle
close_idle_lem s now acc kbits valid small =
    let (b0, t0, r0, o0, p0, n0) = flush_partial_lem s acc kbits small in
    let (b1, open_, t1, r1, o1, p1, n1) = closing_lem s now acc kbits in
    let x = closing s now acc kbits in
    let ring = r1 ∙ r0 in
    let fits : length x.burst ≤ burst_max = omega (
      arith,
      ap length (b1 ∙ b0),
      length-append s.burst (partial_byte acc kbits),
      length-partial_byte acc kbits,
      small,
    ) in
    let (shut, empty, outcome) =
      emit_record_lem x false open_ (subst (IsValid ring_size) (sym ring) valid) fits in
    let z = record (emit_record x false) { tail_bits = 0 } in
    let done : Closed s x z = (
      shut,
      empty,
      refl,
      elim outcome [
        | inl (room, staged, still, ram, pioc, owed) ↦ inl (
          subst (λ (r : Ring ℕ). length (frame_record (record_bytes x false)) ≤ ring_size - size r)
              ring room,
          staged ∙ ap (λ r. contents ring_size r ++ frame_record (record_bytes x false)) ring,
          ram,
          pioc,
          owed,
        )
        | inr (full, same, ram, pioc, owed) ↦ inr (
          subst (λ (r : Ring ℕ). ring_size - size r < length (frame_record (record_bytes x false)))
              ring full,
          same ∙ ring,
          ram ∙ ap (λ (n : ℕ). to_u16 (n + 1)) (o1 ∙ o0),
          pioc ∙ p1 ∙ p0,
          owed ∙ n1 ∙ n0,
        )
      ],
    ) in
    (
      b1 ∙ b0,
      t1 ∙ t0,
      if-elim (λ (y : Clocked). Closed s x y) (not (kbits == 0))
          (record z { sniff_tail = 0; partial_seen_bits = 0 }) z (λ some_. done) (λ none_. done),
    )
