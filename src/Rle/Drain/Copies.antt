-- ===== src/Rle/Drain/Copies.antt =====
-- src/sniffer/rle_sniffer.cpp: what `drainPioc` writes into the RAM ring.
use ch32_tapioca.Prelude.{
  ℕ, zero, suc, ◌+◌, ◌-◌, ◌%◌, ◌≤◌, ◌<◌, ◌≡◌, ◌≢◌, refl, arith, ltb, if◌then◌else◌, ==_refl, ==_ne,
  subst, ◌++◌, Bool-cases, inl, inr, ◌⊎◌, sym, ap, ap₂, ◌∙◌, List, [], ◌∷◌,
}
use ch32_tapioca.Prelude.Words.{IsU32, to_u8, to_u16, sub8, add32}
use ch32_tapioca.Rle.Drain.{
  Sniffer, ring_slots, ring_base, ring_head, ring_size, ring_space, copy_run, copy_slots, wrap_slot,
  at_most, ring_count, drain_pioc,
}
use ch32_tapioca.Rle.Drain.Cursor.{IsFifo, IsAligned, reduce-mod}

copy_run-get :
    (ring : ℕ → ℕ) (pos : ℕ) (src : ℕ → ℕ) (n i : ℕ)
    → i < n
    → n ≤ ring_size
    → copy_run ring pos src n ((pos + i) % ring_size) ≡ src i
unfolding copy_run
copy_run-get ring pos src zero i h k = absurd (omega arith)
copy_run-get ring pos src (suc n) i h k = elim (last i n h) [
  | inl e ↦ rw (e, ==_refl ((pos + n) % ring_size))
  | inr less ↦
      rw (==_ne ((pos + i) % ring_size) ((pos + n) % ring_size) (omega arith))
        (copy_run-get ring pos src n i less (omega arith))
]
  where
    last : (i n : ℕ) → i < suc n → (i ≡ n) ⊎ (i < n)
    last i n h = omega arith

copy_run-other :
    (ring : ℕ → ℕ) (pos : ℕ) (src : ℕ → ℕ) (n at : ℕ)
    → ((i : ℕ) → i < n → at ≢ (pos + i) % ring_size)
    → copy_run ring pos src n at ≡ ring at
unfolding copy_run
copy_run-other ring pos src zero at h = refl
copy_run-other ring pos src (suc n) at h =
    rw (==_ne at ((pos + n) % ring_size) (h n (omega arith)))
      (copy_run-other ring pos src n at (λ i less. h i (omega arith)))

-- The two loops, from the slot of the record `start` on.
two_runs :
    (ring dr item : ℕ → ℕ) (pos start n : ℕ)
    → n ≤ ring_slots
    → ((i : ℕ) → i < n → dr (ring_base + (start + i) % ring_slots) ≡ item (start + i))
    → (i : ℕ) → i < n
    → copy_slots ring dr pos (start % ring_slots) n ((pos + i) % ring_size) ≡ item (start + i)
unfolding copy_slots
two_runs ring dr item pos start n h slots i less =
    let slot = start % ring_slots in
    let first = at_most (to_u8 (ring_slots - slot)) n in
    let bound : (first ≤ n) × (first ≤ ring_slots - slot) = ground arith in
    let ring1 = copy_run ring pos (λ j. dr (ring_base + slot + j)) first in
    elim (Bool-cases (ltb i first)) [
      | inl early ↦
          let small : i < first = ground arith in
          let here : ring_base + slot + i ≡ ring_base + (start + i) % ring_slots = omega arith in
          copy_run-other ring1 (pos + first) (λ j. dr (ring_base + j)) (n - first)
            ((pos + i) % ring_size) (λ j k. omega arith)
          ∙ copy_run-get ring pos (λ j. dr (ring_base + slot + j)) first i small (omega arith)
          ∙ ap dr here
          ∙ slots i less
      | inr late ↦
          let large : first ≤ i = ground arith in
          let whole : first ≡ ring_slots - slot = ground arith in
          let at : (pos + first + (i - first)) % ring_size ≡ (pos + i) % ring_size = omega arith in
          let here : ring_base + (i - first) ≡ ring_base + (start + i) % ring_slots = omega arith in
          ap (copy_run ring1 (pos + first) (λ j. dr (ring_base + j)) (n - first)) (sym at)
          ∙ copy_run-get ring1 (pos + first) (λ j. dr (ring_base + j)) (n - first) (i - first)
              (omega arith) (omega arith)
          ∙ ap dr here
          ∙ slots i less
    ]

-- The two loops leave every other slot as it is.
two_runs-other :
    (ring dr : ℕ → ℕ) (pos start n at : ℕ)
    → ((i : ℕ) → i < n → at ≢ (pos + i) % ring_size)
    → copy_slots ring dr pos (start % ring_slots) n at ≡ ring at
unfolding copy_slots
two_runs-other ring dr pos start n at apart =
    let slot = start % ring_slots in
    let first = at_most (to_u8 (ring_slots - slot)) n in
    let bound : first ≤ n = ground arith in
    let ring1 = copy_run ring pos (λ j. dr (ring_base + slot + j)) first in
    copy_run-other ring1 (pos + first) (λ j. dr (ring_base + j)) (n - first) at
      (λ i less e.
        apart (first + i) (omega arith)
          (e ∙ ap (λ k. k % ring_size) {x = pos + first + i} {y = pos + (first + i)} (omega arith)))
    ∙ copy_run-other ring pos (λ j. dr (ring_base + slot + j)) first at
        (λ i less. apart i (omega arith))

-- The records that a drain takes: all that are new, or the last 30.
abbrev pub gap_of : ℕ → ℕ → ℕ
gap_of consumed produced = at_most (produced - consumed) ring_slots

-- The `n` bytes of the RAM ring from a cursor on, and `n` records.
abbrev pub window : (ℕ → ℕ) → ℕ → ℕ → List ℕ
window ring pos zero = []
window ring pos (suc n) = ring (pos % ring_size) ∷ window ring (suc pos) n

abbrev pub records_from : (ℕ → ℕ) → ℕ → ℕ → List ℕ
records_from item start zero = []
records_from item start (suc n) = item start ∷ records_from item (suc start) n

window-records_from :
    (ring item : ℕ → ℕ) (pos start n : ℕ)
    → ((i : ℕ) → i < n → ring ((pos + i) % ring_size) ≡ item (start + i))
    → window ring pos n ≡ records_from item start n
window-records_from ring item pos start zero h = refl
window-records_from ring item pos start (suc n) h =
    let first : ring (pos % ring_size) ≡ item start =
      ap (λ p. ring (p % ring_size)) {x = pos} {y = pos + 0} (omega arith)
      ∙ h 0 (omega arith)
      ∙ ap item {x = start + 0} {y = start} (omega arith) in
    ap₂ (λ x xs. x ∷ xs) first
      (window-records_from ring item (suc pos) (suc start) n (λ i less.
        ap (λ p. ring (p % ring_size)) {x = suc pos + i} {y = pos + suc i} (omega arith)
        ∙ h (suc i) (omega arith)
        ∙ ap item {x = start + suc i} {y = suc start + i} (omega arith)))

window-ext :
    (ring1 ring2 : ℕ → ℕ) (pos n : ℕ)
    → ((i : ℕ) → i < n → ring1 ((pos + i) % ring_size) ≡ ring2 ((pos + i) % ring_size))
    → window ring1 pos n ≡ window ring2 pos n
window-ext ring1 ring2 pos zero h = refl
window-ext ring1 ring2 pos (suc n) h =
    let first : ring1 (pos % ring_size) ≡ ring2 (pos % ring_size) =
      subst (λ p. ring1 (p % ring_size) ≡ ring2 (p % ring_size)) {x = pos + 0} {y = pos}
        (omega arith) (h 0 (omega arith)) in
    ap₂ (λ x xs. x ∷ xs) first
      (window-ext ring1 ring2 (suc pos) n (λ i less.
        subst (λ p. ring1 (p % ring_size) ≡ ring2 (p % ring_size)) {x = pos + suc i}
          {y = suc pos + i} (omega arith) (h (suc i) (omega arith))))

window-append :
    (ring : ℕ → ℕ) (pos n m : ℕ)
    → window ring pos (n + m) ≡ window ring pos n ++ window ring (pos + n) m
window-append ring pos zero m =
    ap (λ k. window ring pos k) {x = 0 + m} {y = m} (omega arith)
    ∙ ap (λ p. window ring p m) {x = pos} {y = pos + 0} (omega arith)
window-append ring pos (suc n) m =
    ap (λ k. window ring pos k) {x = suc n + m} {y = suc (n + m)} (omega arith)
    ∙ ap (λ xs. ring (pos % ring_size) ∷ xs)
        (window-append ring (suc pos) n m
          ∙ ap (λ p. window ring (suc pos) n ++ window ring p m) {x = suc pos + n} {y = pos + suc n}
              (omega arith))

window-mod :
    (ring : ℕ → ℕ) (p q n : ℕ) → p % ring_size ≡ q % ring_size → window ring p n ≡ window ring q n
window-mod ring p q zero same = refl
window-mod ring p q (suc n) same =
    ap₂ (λ x xs. x ∷ xs) (ap ring same) (window-mod ring (suc p) (suc q) n (omega arith))

-- What the reader has not read is kept, and what has been copied is behind it.
window-copied :
    (s : Sniffer) (ring : ℕ → ℕ) (taken : ℕ) (new : List ℕ)
    → s.head < 65536
    → s.tail < 65536
    → taken ≤ ring_space s
    → ((at : ℕ) → ((i : ℕ) → i < taken → at ≢ (s.head + i) % ring_size) → ring at ≡ s.ring at)
    → window ring s.head taken ≡ new
    → window ring s.tail (ring_count s + taken) ≡ window s.ring s.tail (ring_count s) ++ new
unfolding ring_space ring_count
window-copied s ring taken new h t room kept copied =
    let n = ring_count s in
    window-append ring s.tail n taken
    ∙ ap₂ ◌++◌
        (window-ext ring s.ring s.tail n
          (λ i less. kept ((s.tail + i) % ring_size) (λ j small. omega arith)))
        (window-mod ring (s.tail + n) s.head taken (omega arith) ∙ copied)

-- A drain that comes before the head has gone round its 256 counts, with both cursors at the same record, takes all records
-- that are new, or the last 30 of them, and appends them to the RAM ring in order as far as there is room, behind the bytes
-- that have not been read yet, which it leaves as they are; those that find no room are counted in the drop counter. This is
-- for cursors of the ring that are 16-bit words.
pub drain_pioc-copies :
    (s : Sniffer) (dr item : ℕ → ℕ) (consumed produced : ℕ)
    → IsFifo dr item produced
    → IsAligned s consumed
    → consumed ≤ produced
    → produced < consumed + 256
    → IsU32 s.ram_drop
    → s.head < 65536
    → s.tail < 65536
    → let r = drain_pioc s dr in
      let gap = gap_of consumed produced in
      let taken = at_most gap (ring_space s) in
      (window r.ring s.tail (ring_count s + taken)
        ≡ window s.ring s.tail (ring_count s) ++ records_from item (produced - gap) taken)
      × (ring_count r ≡ ring_count s + taken)
      × (r.head ≡ to_u16 (s.head + taken))
      × (r.tail ≡ s.tail)
      × (r.ram_drop ≡ add32 s.ram_drop (gap - taken))
unfolding drain_pioc copy_slots ring_space
drain_pioc-copies s dr item consumed produced (at_head, slots) (t, c) le lt d h16 t16 =
    let new = produced - consumed in
    let gap = gap_of consumed produced in
    let start = produced - gap in
    let taken = at_most gap (ring_space s) in
    let raw : sub8 (dr ring_head) s.sniff_tail ≡ new = omega arith in
    let bound : (gap ≤ new) × (gap ≤ ring_slots) × (taken ≤ gap) × (taken ≤ ring_space s) =
      ground arith in
    let ring1 = copy_slots s.ring dr s.head (start % ring_slots) taken in
    let runs =
      window-copied s ring1 taken (records_from item start taken) h16 t16 bound.3
        (two_runs-other s.ring dr s.head start taken)
        (window-records_from ring1 item s.head start taken (
          two_runs s.ring dr item s.head start taken (omega arith)
            (λ i less. slots (start + i) (omega arith) (omega arith)))) in
    let count =
      counted s (record s { head = to_u16 (s.head + taken) }) taken refl refl h16 t16 bound.3 in
    let lost = dropped s.ram_drop gap taken (omega arith) d in
    elim (Bool-cases (ltb ring_slots new)) [
      | inl over ↦
          let red = reduce-mod new (omega arith) in
          let slot : wrap_slot (to_u8 (s.sniff_slot + new % 30))
              ≡ (produced - ring_slots) % ring_slots =
            ground arith in
          rw (raw, over, red, slot) (rw over at runs, rw over at count, refl, refl, rw over at lost)
      | inr fits ↦
          let slot : s.sniff_slot ≡ (produced - new) % ring_slots = ground arith in
          rw (raw, fits, slot) (rw fits at runs, rw fits at count, refl, refl, rw fits at lost)
    ]
  where
    dropped :
        (drop gap taken : ℕ)
        → taken ≤ gap
        → IsU32 drop
        → (if ltb taken gap then add32 drop (gap - taken) else drop) ≡ add32 drop (gap - taken)
    dropped drop gap taken h d = ground arith

    counted :
        (s r : Sniffer) (taken : ℕ)
        → r.head ≡ to_u16 (s.head + taken)
        → r.tail ≡ s.tail
        → s.head < 65536
        → s.tail < 65536
        → taken ≤ ring_space s
        → ring_count r ≡ ring_count s + taken
    counted s r taken h t p q room = unfold ring_space ring_count in omega arith
