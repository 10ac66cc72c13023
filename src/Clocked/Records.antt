-- ===== src/Clocked/Records.antt =====
-- src/sniffer/clocked_sniffer.cpp: what `emitRecord` stages.
use ch32_tapioca.Prelude.{
  ℕ, ◌+◌, ◌-◌, ◌≤◌, ◌<◌, ◌≡◌, refl, ap, arith, Bool, true, false, not, ◌&&◌, List, [], ◌∷◌, ◌++◌,
  leb, length, length-append, ◌⊎◌, inl, inr, Bool-cases,
}
use ch32_tapioca.Prelude.Words.{to_u16}
use ch32_tapioca.Cobs.{ff_encode, ff_max_encoded}
use ch32_tapioca.Cobs.Bounds.{encode_size}
use ch32_tapioca.Framer.{frame_record}
use ch32_tapioca.Ring.{size, free}
use ch32_tapioca.Ring.Queue.{IsValid, contents, push_all_lem}
use ch32_tapioca.Clocked.{
  Clocked, ring_size, burst_max, ring_space, ring_push, record_bytes, emit_record,
}

length-record_bytes :
    (s : Clocked) (continued : Bool) → length (record_bytes s continued) ≡ length s.burst + 12
unfolding record_bytes
length-record_bytes s continued = omega arith

pub length-frame :
    (s : Clocked) (continued : Bool)
    → length s.burst ≤ burst_max
    → length (frame_record (record_bytes s continued)) ≤ 800
unfolding frame_record ff_max_encoded
length-frame s continued h =
    let (_, _, _, fits) = encode_size (record_bytes s continued) in
    omega (
      arith,
      length-record_bytes s continued,
      length-append (ff_encode (record_bytes s continued)) (0xff ∷ []),
      fits,
    )

pub ring_space_lem :
    (s : Clocked) → IsValid ring_size s.ring → ring_space s ≡ ring_size - size s.ring
unfolding ring_space
ring_space_lem s v = let within = v.within in unfold free in omega (arith, within)

ring_push-fits :
    (s : Clocked) (bytes : List ℕ)
    → IsValid ring_size s.ring
    → length bytes ≤ ring_size - size s.ring
    → (contents ring_size (ring_push s bytes).ring ≡ contents ring_size s.ring ++ bytes)
      × IsValid ring_size (ring_push s bytes).ring
unfolding ring_push
ring_push-fits s bytes v h = elim (push_all_lem ring_size v (inl refl) bytes) [
  | inl (_, ok, appended, valid) ↦ rw (ring_push, ok) (appended, valid)
  | inr (long, _, _) ↦ absurd (omega (arith, long, h))
]

-- An open burst of at most 768 bytes, with a valid ring: if its frame fits the free space of the ring, it is appended as a
-- whole, both overflow counters are cleared, and a terminal record is owed exactly if this one is
-- continued; if not, the ring, the counter of the PIOC and what is owed stay, and the loss is counted. The burst is closed and
-- empty in both cases.
pub emit_record_lem :
    (s : Clocked) (continued : Bool)
    → s.burst_open ≡ true
    → IsValid ring_size s.ring
    → length s.burst ≤ burst_max
    → let enc = frame_record (record_bytes s continued) in
      let r = emit_record s continued in
      (r.burst_open ≡ false)
      × (r.burst ≡ [])
      × (((length enc ≤ ring_size - size s.ring)
            × (contents ring_size r.ring ≡ contents ring_size s.ring ++ enc)
            × IsValid ring_size r.ring
            × (r.ovf_ram ≡ 0)
            × (r.ovf_pioc ≡ 0)
            × (r.need_terminal ≡ continued))
          ⊎ ((ring_size - size s.ring < length enc)
              × (r.ring ≡ s.ring)
              × (r.ovf_ram ≡ to_u16 (s.ovf_ram + 1))
              × (r.ovf_pioc ≡ s.ovf_pioc)
              × (r.need_terminal ≡ s.need_terminal)))
unfolding emit_record
emit_record_lem s continued o v h =
    let enc = frame_record (record_bytes s continued) in
    let small = length-frame s continued h in
    let same : to_u16 (length enc) ≡ length enc = omega (arith, small) in
    let space = ring_space_lem s v in
    let going : (not s.burst_open && not (s.need_terminal && not continued)) ≡ false =
      ap (λ b. not b && not (s.need_terminal && not continued)) o in
    elim (Bool-cases (leb (length enc) (ring_size - size s.ring))) [
      | inl fits ↦
          let (ring, valid) = ring_push-fits s enc v (ground (arith, fits)) in
          rw (emit_record, going, same, space, fits)
            (refl, refl, inl (ground (arith, fits), ring, valid, refl, refl, refl))
      | inr full ↦
          rw (emit_record, going, same, space, full)
            (refl, refl, inr (ground (arith, full), refl, refl, refl, refl))
    ]
