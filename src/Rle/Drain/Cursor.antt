-- ===== src/Rle/Drain/Cursor.antt =====
-- src/sniffer/rle_sniffer.cpp: the two cursors of `drainPioc` stay on the same record of the PIOC's FIFO.
use ch32_tapioca.Prelude.{ℕ, ◌+◌, ◌-◌, ◌%◌, ◌≤◌, ◌<◌, ◌≡◌, arith, ltb, Bool-cases, inl, inr}
use ch32_tapioca.Prelude.Words.{sub8}
use ch32_tapioca.Rle.Drain.{Sniffer, ring_slots, ring_base, ring_head, reduce, drain_pioc}

-- The FIFO after the blob has produced `produced` records since it started: the head counts them modulo 256, and the
-- last 30 stand in their slots.
abbrev pub IsFifo : (ℕ → ℕ) → (ℕ → ℕ) → ℕ → Type 0
IsFifo dr item produced =
    (dr ring_head ≡ produced % 256)
    × ((i : ℕ)
        → i < produced
        → produced ≤ i + ring_slots
        → dr (ring_base + i % ring_slots) ≡ item i)

-- Both cursors stand at the record `consumed`.
abbrev pub IsAligned : Sniffer → ℕ → Type 0
IsAligned s consumed = (s.sniff_tail ≡ consumed % 256) × (s.sniff_slot ≡ consumed % ring_slots)

pub reduce-mod : (advance : ℕ) → advance < 256 → reduce 9 advance ≡ advance % 30
unfolding reduce
reduce-mod advance h = ground arith

-- A drain that comes before the head has gone round its 256 counts leaves both cursors at the head, if they
-- stood at the same record before: the 8-bit count and the slot of 30 keep in step, after an overrun too.
pub drain_pioc-IsAligned :
    (s : Sniffer) (dr item : ℕ → ℕ) (consumed produced : ℕ)
    → IsFifo dr item produced
    → IsAligned s consumed
    → consumed ≤ produced
    → produced < consumed + 256
    → IsAligned (drain_pioc s dr) produced
unfolding drain_pioc
drain_pioc-IsAligned s dr item consumed produced (at_head, slots) (t, c) le lt =
    let gap = produced - consumed in
    let raw : sub8 (dr ring_head) s.sniff_tail ≡ gap = omega arith in
    elim (Bool-cases (ltb ring_slots gap)) [
      | inl over ↦
          let red = reduce-mod gap (omega arith) in rw (raw, over, red) (omega arith, ground arith)
      | inr fits ↦ rw (raw, fits) (ground arith, ground arith)
    ]
