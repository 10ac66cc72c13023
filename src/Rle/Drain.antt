-- ===== src/Rle/Drain.antt =====
-- src/sniffer/rle_sniffer.cpp: `drainPioc`, which runs in the timer interrupt. The registers of the PIOC are a function from
-- addresses to bytes, and so is `ring_`. `x & RING_MASK` is `x % 2048`.
pub mod Cursor
pub mod Copies
use ch32_tapioca.Prelude.{ℕ, zero, suc, ◌+◌, ◌-◌, ◌*◌, ◌%◌, Bool, ltb, leb, ◌==◌, if◌then◌else◌}
use ch32_tapioca.Prelude.Words.{to_u8, to_u16, to_u32, sub8, sub16, add32}

abbrev pub ring_slots : ℕ
ring_slots = 30

abbrev pub ring_base : ℕ
ring_base = 0x22

abbrev pub ring_head : ℕ
ring_head = 0x21

abbrev pub ring_size : ℕ
ring_size = 2048

abbrev pub ring_mask : ℕ
ring_mask = 2047

-- The members that the interrupt reads or writes.
pub record Sniffer : Type 0 where
  pub ring : ℕ → ℕ
  pub head : ℕ
  pub tail : ℕ
  pub sniff_tail : ℕ
  pub sniff_slot : ℕ
  pub ovf_pioc : ℕ
  pub ram_drop : ℕ
  pub ram_hi : ℕ
  pub max_gap : ℕ

-- `ringCount` and `ringSpace`.
unfoldable pub ring_count : Sniffer → ℕ
ring_count s = sub16 s.head s.tail % ring_size

unfoldable pub ring_space : Sniffer → ℕ
unfolding ring_count
ring_space s = ring_mask - ring_count s

-- `for (i = 0; i < n; i++) ring_[(pos + i) & RING_MASK] = src(i);`
unfoldable pub copy_run : (ℕ → ℕ) → ℕ → (ℕ → ℕ) → ℕ → ℕ → ℕ
copy_run ring pos src zero at = ring at
copy_run ring pos src (suc n) at =
    let before = copy_run ring pos src n at in if at == (pos + n) % ring_size then src n else before

-- `while (advance >= RING_SLOTS) advance -= RING_SLOTS;`, on fuel: a byte takes at most 8 rounds.
unfoldable pub reduce : ℕ → ℕ → ℕ
reduce zero advance = advance
reduce (suc fuel) advance =
    let rest = reduce fuel (advance - ring_slots) in
    if leb ring_slots advance then rest else advance

-- `if (slot >= RING_SLOTS) slot -= RING_SLOTS;`
abbrev pub wrap_slot : ℕ → ℕ
wrap_slot slot = if leb ring_slots slot then slot - ring_slots else slot

abbrev pub at_most : ℕ → ℕ → ℕ
at_most n limit = if ltb limit n then limit else n

-- The two loops, up to the last slot and from the first.
unfoldable pub copy_slots : (ℕ → ℕ) → (ℕ → ℕ) → ℕ → ℕ → ℕ → ℕ → ℕ
unfolding copy_run
copy_slots ring dr pos slot to_copy =
    let first = at_most (to_u8 (ring_slots - slot)) to_copy in
    let ring1 = copy_run ring pos (λ i. dr (ring_base + slot + i)) first in
    copy_run ring1 (pos + first) (λ i. dr (ring_base + i)) (to_copy - first)

unfoldable pub drain_pioc : Sniffer → (ℕ → ℕ) → Sniffer
drain_pioc s dr =
    let h = dr ring_head in
    let raw_gap = sub8 h s.sniff_tail in
    let over = ltb ring_slots raw_gap in
    let gap = if over then ring_slots else raw_gap in
    let sniff_tail = if over then sub8 h ring_slots else s.sniff_tail in
    let slot = if over then wrap_slot (to_u8 (s.sniff_slot + reduce 9 raw_gap)) else s.sniff_slot in
    let space = ring_space s in
    let to_copy = at_most gap space in
    let head = to_u16 (s.head + to_copy) in
    let fill = sub16 head s.tail % ring_size in
    record s {
      ring = copy_slots s.ring dr s.head slot to_copy;
      head = head;
      sniff_tail = to_u8 (sniff_tail + gap);
      sniff_slot = if over then slot else wrap_slot (to_u8 (slot + raw_gap));
      ovf_pioc = if over then to_u16 (s.ovf_pioc + 1) else s.ovf_pioc;
      ram_drop = if ltb to_copy gap then add32 s.ram_drop (gap - to_copy) else s.ram_drop;
      ram_hi = if ltb s.ram_hi fill then fill else s.ram_hi;
      max_gap = if ltb s.max_gap raw_gap then raw_gap else s.max_gap;
    }
