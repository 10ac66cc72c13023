-- ===== src/Clocked/Service/Burst.antt =====
-- src/sniffer/clocked_sniffer.cpp: what the first stage of `service` makes of the captured bytes.
use ch32_tapioca.Prelude.{
  ℕ, zero, suc, ◌+◌, ◌%◌, ◌≤◌, ◌<◌, ◌≡◌, ◌∙◌, sym, ap, ap₂, subst, refl, arith, true, List, [], ◌∷◌,
  ◌++◌, ltb, if◌then◌else◌, length, take, drop, take-append, drop-append, length-append,
  append_assoc, append-nil, Bool-cases, inl, inr, ◌⊎◌,
}
use ch32_tapioca.Prelude.Words.{to_u8, to_u16}
use ch32_tapioca.Ring.Queue.{IsValid, contents}
use ch32_tapioca.Framer.{frame_record}
use ch32_tapioca.Clocked.{Clocked, ring_size, burst_max, record_bytes}
use ch32_tapioca.Clocked.Service.{Pass, take_byte, drain_loop, ring_slots}
use ch32_tapioca.Clocked.Service.Bytes.{
  open_bytes, Kept, Holds-open, take_byte-small, Cut, take_byte-full,
}

-- The bytes of the FIFO from a cursor on.
abbrev pub fifo : (ℕ → ℕ) → ℕ → ℕ → List ℕ
fifo dr t zero = []
fifo dr t (suc n) = dr (0x20 + t % ring_slots) ∷ fifo dr (to_u8 (t + 1)) n

-- What the loop has made of the bytes `bs` of the open burst and the FIFO.
abbrev pub Outcome : Clocked → List ℕ → Clocked → Type 0
Outcome s bs y =
    ((length bs < burst_max)
      × (open_bytes y ≡ bs)
      × (y.ring ≡ s.ring)
      × (y.ovf_ram ≡ s.ovf_ram)
      × (y.need_terminal ≡ s.need_terminal))
    ⊎ ((burst_max ≤ length bs)
        × ((x : Clocked) × (x.burst ≡ take burst_max bs) × Cut s x y)
        × (open_bytes y ≡ drop burst_max bs))

drain_loop-small :
    (micros dr : ℕ → ℕ) (n : ℕ) (p : Pass)
    → length (open_bytes p.sniffer) + n < burst_max
    → let y = (drain_loop micros dr n p).sniffer in
      (open_bytes y ≡ open_bytes p.sniffer ++ fifo dr p.sniffer.sniff_tail n)
      × (y.ring ≡ p.sniffer.ring)
      × (y.ovf_ram ≡ p.sniffer.ovf_ram)
      × (y.need_terminal ≡ p.sniffer.need_terminal)
unfolding drain_loop
drain_loop-small micros dr zero p small =
    (sym (append-nil (open_bytes p.sniffer)), refl, refl, refl)
drain_loop-small micros dr (suc n) p small =
    let t = p.sniffer.sniff_tail in
    let b = dr (0x20 + t % ring_slots) in
    let q0 = record p { sniffer = record (p.sniffer) { sniff_tail = to_u8 (t + 1) } } in
    let q = take_byte micros q0 b in
    let (bytes, opened, kept) = take_byte-small micros q0 b (omega (arith, small)) in
    let now =
      Holds-open q0.sniffer (open_bytes p.sniffer ++ b ∷ []) q.sniffer (bytes, opened, kept) in
    let count = ap length now ∙ length-append (open_bytes p.sniffer) (b ∷ []) in
    let (rest, ring, ram, owed) = drain_loop-small micros dr n q (omega (arith, count, small)) in
    (
      rest
          ∙ ap₂ (λ l k. l ++ fifo dr k n) now kept.same_tail
          ∙ append_assoc (open_bytes p.sniffer) (b ∷ []) (fifo dr (to_u8 (t + 1)) n),
      ring ∙ kept.same_ring,
      ram ∙ kept.same_ram,
      owed ∙ kept.same_terminal,
    )

Kept-Outcome :
    (s s' y : Clocked) (bs bs' : List ℕ) → Kept s s' → bs ≡ bs' → Outcome s' bs y → Outcome s bs' y
Kept-Outcome s s' y bs bs' kept same (inl (few, all, ring, ram, owed)) = inl (
  subst (λ l. length l < burst_max) same few,
  all ∙ same,
  ring ∙ kept.same_ring,
  ram ∙ kept.same_ram,
  owed ∙ kept.same_terminal,
)
Kept-Outcome s s' y bs bs' kept same (inr (many, (x, first, cut), rest)) = inr (
  subst (λ l. burst_max ≤ length l) same many,
  (x, first ∙ ap (take burst_max) same, moved cut),
  rest ∙ ap (drop burst_max) same,
)
  where
    moved : Cut s' x y → Cut s x y
    moved (inl (staged, valid, owed)) = inl (
      staged ∙ ap (λ r. contents ring_size r ++ frame_record (record_bytes x true)) kept.same_ring,
      valid,
      owed,
    )
    moved (inr (ring, ram)) =
        inr (ring ∙ kept.same_ring, ram ∙ ap (λ (n : ℕ). to_u16 (n + 1)) kept.same_ram)

Cut-after :
    (s x z y : Clocked)
    → Cut s x z
    → y.ring ≡ z.ring
    → y.ovf_ram ≡ z.ovf_ram
    → y.need_terminal ≡ z.need_terminal
    → Cut s x y
Cut-after s x z y (inl (staged, valid, owed)) ring ram same =
    inl (
      ap (contents ring_size) ring ∙ staged,
      subst (IsValid ring_size) (sym ring) valid,
      same ∙ owed,
    )
Cut-after s x z y (inr (kept, lost)) ring ram same = inr (ring ∙ kept, ram ∙ lost)

-- The loop over the FIFO, from a burst below the cap of 768 bytes, over less than 768 bytes: no byte is lost between the FIFO and
-- the bursts. Below the cap all bytes are in the open burst, and the staging ring stays. From the cap on, the first 768 are
-- the payload of one record, which is staged as continued and with a terminal record owed, or counted as lost; and the open
-- burst has the bytes behind them.
pub drain_loop_lem :
    (micros dr : ℕ → ℕ) (n : ℕ) (p : Pass)
    → IsValid ring_size p.sniffer.ring
    → length (open_bytes p.sniffer) < burst_max
    → n < burst_max
    → Outcome p.sniffer
        (open_bytes p.sniffer ++ fifo dr p.sniffer.sniff_tail n)
        (drain_loop micros dr n p).sniffer
unfolding drain_loop
drain_loop_lem micros dr zero p valid small few =
    let none_more = append-nil (open_bytes p.sniffer) in
    inl (subst (λ l. length l < burst_max) (sym none_more) small, sym none_more, refl, refl, refl)
drain_loop_lem micros dr (suc n) p valid small few =
    let t = p.sniffer.sniff_tail in
    let b = dr (0x20 + t % ring_slots) in
    let m = open_bytes p.sniffer in
    let q0 = record p { sniffer = record (p.sniffer) { sniff_tail = to_u8 (t + 1) } } in
    let q = take_byte micros q0 b in
    let rest = fifo dr (to_u8 (t + 1)) n in
    let y = (drain_loop micros dr n q).sniffer in
    elim (Bool-cases (ltb (length m + 1) burst_max)) [
      | inl below ↦
          let (bytes, opened, kept) = take_byte-small micros q0 b (ground (arith, below)) in
          let now = Holds-open q0.sniffer (m ++ b ∷ []) q.sniffer (bytes, opened, kept) in
          let count = ap length now ∙ length-append m (b ∷ []) in
          let ih =
            drain_loop_lem micros dr n q (subst (IsValid ring_size) (sym kept.same_ring) valid)
              (ground (arith, count, below)) (omega (arith, few)) in
          let all : open_bytes q.sniffer ++ fifo dr q.sniffer.sniff_tail n ≡ m ++ b ∷ rest =
            ap₂ (λ l k. l ++ fifo dr k n) now kept.same_tail ∙ append_assoc m (b ∷ []) rest in
          Kept-Outcome q0.sniffer q.sniffer y _ (m ++ b ∷ rest) kept all ih
      | inr reached ↦
          let full : length m + 1 ≡ burst_max = ground (arith, reached, small) in
          let (x, payload, cut, shut, tail) = take_byte-full micros q0 b valid full in
          let empty : open_bytes q.sniffer ≡ [] =
            ap (λ c. if c then q.sniffer.burst else []) shut in
          let (left, ring, ram, owed) =
            drain_loop-small micros dr n q (omega (arith, ap length empty, few)) in
          let first : length (m ++ b ∷ []) ≡ burst_max = length-append m (b ∷ []) ∙ full in
          let split_ : m ++ b ∷ rest ≡ (m ++ b ∷ []) ++ rest = sym (append_assoc m (b ∷ []) rest) in
          let front : take burst_max (m ++ b ∷ rest) ≡ m ++ b ∷ [] =
            ap₂ take (sym first) split_ ∙ take-append (m ++ b ∷ []) rest in
          let back : drop burst_max (m ++ b ∷ rest) ≡ rest =
            ap₂ drop (sym first) split_ ∙ drop-append (m ++ b ∷ []) rest in
          inr (
            omega (arith, length-append m (b ∷ rest), full),
            (x, payload ∙ sym front, Cut-after q0.sniffer x q.sniffer y cut ring ram owed),
            left ∙ ap₂ (λ l k. l ++ fifo dr k n) empty tail ∙ sym back,
          )
    ]
