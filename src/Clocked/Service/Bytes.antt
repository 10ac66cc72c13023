-- ===== src/Clocked/Service/Bytes.antt =====
-- src/sniffer/clocked_sniffer.cpp: one byte of the FIFO in `service`.
use ch32_tapioca.Prelude.{
  ℕ, ◌+◌, ◌≤◌, ◌<◌, ◌≡◌, ◌∙◌, sym, ap, subst, refl, arith, Bool, true, false, List, [], ◌∷◌, ◌++◌,
  ltb, leb, ◌==◌, if◌then◌else◌, if-elim, length, length-append, Bool-cases, inl, inr, ◌⊎◌,
}
use ch32_tapioca.Prelude.Words.{to_u16}
use ch32_tapioca.Ring.Queue.{IsValid, contents}
use ch32_tapioca.Framer.{frame_record}
use ch32_tapioca.Clocked.{Clocked, ring_size, burst_max, ring_push, record_bytes, emit_record}
use ch32_tapioca.Clocked.Records.{emit_record_lem}
use ch32_tapioca.Clocked.Service.{Pass, open_burst, add_byte, note_onset, split, take_byte, onset_n}

-- The bytes of the burst that is open.
abbrev pub open_bytes : Clocked → List ℕ
open_bytes s = if s.burst_open then s.burst else []

-- What a byte leaves alone where no record is cut.
pub record Kept (x y : Clocked) : Type 0 where
  pub same_ring : y.ring ≡ x.ring
  pub same_ram : y.ovf_ram ≡ x.ovf_ram
  pub same_pioc : y.ovf_pioc ≡ x.ovf_pioc
  pub same_terminal : y.need_terminal ≡ x.need_terminal
  pub same_bits : y.tail_bits ≡ x.tail_bits
  pub same_tail : y.sniff_tail ≡ x.sniff_tail

Kept-trans : (x y z : Clocked) → Kept x y → Kept y z → Kept x z
Kept-trans x y z a b = record {
  same_ring = b.same_ring ∙ a.same_ring;
  same_ram = b.same_ram ∙ a.same_ram;
  same_pioc = b.same_pioc ∙ a.same_pioc;
  same_terminal = b.same_terminal ∙ a.same_terminal;
  same_bits = b.same_bits ∙ a.same_bits;
  same_tail = b.same_tail ∙ a.same_tail;
}

-- `y` is `x` with an open burst of the bytes `bs`.
abbrev Holds : Clocked → List ℕ → Clocked → Type 0
Holds x bs y = (y.burst ≡ bs) × (y.burst_open ≡ true) × Kept x y

open_burst-Holds :
    (micros : ℕ → ℕ) (p : Pass)
    → Holds p.sniffer (open_bytes p.sniffer) (open_burst micros p).sniffer
unfolding open_burst
open_burst-Holds micros p =
    let s = p.sniffer in
    if-elim (λ (q : Pass). Holds s (open_bytes s) q.sniffer) s.burst_open _ _
      (λ opened. (sym (ap (λ b. if b then s.burst else []) opened), opened, ground arith))
      (λ shut. (sym (ap (λ b. if b then s.burst else []) shut), refl, ground arith))

note_onset-Holds :
    (micros : ℕ → ℕ) (p : Pass)
    → p.sniffer.burst_open ≡ true
    → Holds p.sniffer p.sniffer.burst (note_onset micros p).sniffer
unfolding note_onset
note_onset-Holds micros p opened = elim (Bool-cases (length p.sniffer.burst == onset_n)) [
  | inl onset ↦ rw onset (refl, opened, ground arith)
  | inr other ↦ rw other (refl, opened, ground arith)
]

-- Up to the cut, a byte goes to the end of the burst.
pub collect : (ℕ → ℕ) → Pass → ℕ → Pass
unfolding open_burst add_byte note_onset
collect micros p b =
    let q = open_burst micros p in note_onset micros (record q { sniffer = add_byte b q.sniffer })

pub collect-Holds :
    (micros : ℕ → ℕ) (p : Pass) (b : ℕ)
    → length (open_bytes p.sniffer) < burst_max
    → Holds p.sniffer (open_bytes p.sniffer ++ b ∷ []) (collect micros p b).sniffer
unfolding collect add_byte
collect-Holds micros p b small =
    let q = open_burst micros p in
    let (bytes, opened, kept) = open_burst-Holds micros p in
    let room : ltb (length q.sniffer.burst) burst_max ≡ true =
      ground (arith, ap length bytes, small) in
    let r = record q { sniffer = record (q.sniffer) { burst = q.sniffer.burst ++ b ∷ [] } } in
    let (bytes', opened', kept') = note_onset-Holds micros r opened in
    let middle : Kept q.sniffer r.sniffer = ground arith in
    rw room (
      bytes' ∙ ap (λ l. l ++ b ∷ []) bytes,
      opened',
      Kept-trans p.sniffer r.sniffer _ (Kept-trans p.sniffer q.sniffer r.sniffer kept middle) kept',
    )

pub Holds-open : (x : Clocked) (bs : List ℕ) (y : Clocked) → Holds x bs y → open_bytes y ≡ bs
Holds-open x bs y (bytes, opened, kept) = ap (λ b. if b then y.burst else []) opened ∙ bytes

pub take_byte-split :
    (micros : ℕ → ℕ) (p : Pass) (b : ℕ) → take_byte micros p b ≡ split micros (collect micros p b)
unfolding take_byte collect
take_byte-split micros p b = refl

pub take_byte-small :
    (micros : ℕ → ℕ) (p : Pass) (b : ℕ)
    → length (open_bytes p.sniffer) + 1 < burst_max
    → Holds p.sniffer (open_bytes p.sniffer ++ b ∷ []) (take_byte micros p b).sniffer
unfolding split
take_byte-small micros p b small =
    let h = collect-Holds micros p b (omega (arith, small)) in
    let more : leb burst_max (length (collect micros p b).sniffer.burst) ≡ false =
      ground (arith, ap length h.0, length-append (open_bytes p.sniffer) (b ∷ []), small) in
    rw (take_byte-split micros p b, more) h

-- The outcome of a cut: the record is staged, and a terminal record is owed, or the loss is counted.
abbrev pub Cut : Clocked → Clocked → Clocked → Type 0
Cut s x y =
    ((contents ring_size y.ring ≡ contents ring_size s.ring ++ frame_record (record_bytes x true))
      × IsValid ring_size y.ring
      × (y.need_terminal ≡ true))
    ⊎ ((y.ring ≡ s.ring) × (y.ovf_ram ≡ to_u16 (s.ovf_ram + 1)))

emit_record-Cut :
    (s x : Clocked)
    → x.burst_open ≡ true
    → IsValid ring_size s.ring
    → length x.burst ≤ burst_max
    → x.ring ≡ s.ring
    → x.ovf_ram ≡ s.ovf_ram
    → Cut s x (emit_record x true) × ((emit_record x true).burst_open ≡ false)
emit_record-Cut s x opened valid small ring ram =
    let (shut, empty, outcome) =
      emit_record_lem x true opened (subst (IsValid ring_size) (sym ring) valid) small in
    elim outcome [
      | inl (fits, staged, still, none_, no_pioc, owed) ↦ (
        inl (
          staged ∙ ap (λ r. contents ring_size r ++ frame_record (record_bytes x true)) ring,
          still,
          owed,
        ),
        shut,
      )
      | inr (full, same, lost, pioc, owed) ↦
          (inr (same ∙ ring, lost ∙ ap (λ (n : ℕ). to_u16 (n + 1)) ram), shut)
    ]

ring_push-tail : (s : Clocked) (bytes : List ℕ) → (ring_push s bytes).sniff_tail ≡ s.sniff_tail
unfolding ring_push
ring_push-tail s bytes = ground arith

emit_record-tail :
    (s : Clocked) (continued : Bool) → (emit_record s continued).sniff_tail ≡ s.sniff_tail
unfolding emit_record
emit_record-tail s continued =
    ground (arith, ring_push-tail s (frame_record (record_bytes s continued)))

pub take_byte-full :
    (micros : ℕ → ℕ) (p : Pass) (b : ℕ)
    → IsValid ring_size p.sniffer.ring
    → length (open_bytes p.sniffer) + 1 ≡ burst_max
    → let y = (take_byte micros p b).sniffer in
      (x : Clocked) × (x.burst ≡ open_bytes p.sniffer ++ b ∷ [])
      × Cut p.sniffer x y
      × (y.burst_open ≡ false)
      × (y.sniff_tail ≡ p.sniffer.sniff_tail)
unfolding split
take_byte-full micros p b valid full =
    let c = collect micros p b in
    let (bytes, opened, kept) = collect-Holds micros p b (omega (arith, full)) in
    let x = record (c.sniffer) { burst_last = micros c.reads } in
    let count : length c.sniffer.burst ≡ burst_max =
      ap length bytes ∙ length-append (open_bytes p.sniffer) (b ∷ []) ∙ omega (arith, full) in
    let cut : leb burst_max (length c.sniffer.burst) ≡ true = ground (arith, count) in
    let (outcome, shut) =
      emit_record-Cut p.sniffer x opened valid (omega (arith, count)) kept.same_ring
        kept.same_ram in
    rw (take_byte-split micros p b, cut)
      (x, bytes, outcome, shut, emit_record-tail x true ∙ kept.same_tail)
