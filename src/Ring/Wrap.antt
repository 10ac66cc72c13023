-- ===== src/Ring/Wrap.antt =====
-- src/util/ring.hpp: the wrap of the cursors under a capacity that does not divide 2 ^ 32, such as the 10 of the
-- queue in src/util/led_blinker.hpp.
use ch32_tapioca.Prelude.{
  ℕ, ◌-◌, ◌%◌, ◌<◌, ◌≡◌, ◌≢◌, refl, ap, sym, ◌∙◌, arith, true, some, [], ◌∷◌, ==_refl,
  if◌then◌else◌, ltb,
}
use ch32_tapioca.Prelude.Words.{add32}
use ch32_tapioca.Ring.{Ring, index, size, free, copy_in, push_item, pop_item, write_from, read_from}
use ch32_tapioca.Ring.Slots.{IsCapacity, index-mod}

-- The last whole multiple of the capacity below 2 ^ 32.
abbrev pub last_lap : ℕ → ℕ
last_lap capacity = 4294967296 - 4294967296 % capacity

last_lap-slot : (c : ℕ) → 0 < c → last_lap c % c ≡ 0
last_lap-slot c h = grind arith

-- Let the capacity not divide 2 ^ 32, the write cursor have wrapped to 0, and the oldest item lie on the last
-- whole lap before the wrap. The ring is then neither empty nor full; the next `push` of an item succeeds and
-- overwrites the oldest one: the next `pop` returns the item pushed last.
pub push_overwrites_oldest {ℓ} :
    {A : Type ℓ} (capacity : ℕ) (r : Ring A) (x : A)
    → IsCapacity capacity
    → 4294967296 % capacity ≢ 0
    → r.head ≡ 0
    → r.tail ≡ last_lap capacity
    → let (done, r') = push_item capacity r x in
      (0 < size r) × (size r < capacity) × (done ≡ true) × ((pop_item capacity r').0 ≡ some x)
unfolding push_item pop_item size write_from read_from
push_overwrites_oldest c r x cap odd h t =
    let above : 4294967296 % c < c = omega (arith, cap.positive) in
    let some_items : 0 < size r = omega (arith, h, t, odd) in
    let some_room : size r < c = omega (arith, h, t, above, cap.small) in
    let one : (if ltb 1 (free c r) then 1 else free c r) ≡ 1 =
      unfold free in ground (arith, h, t, odd, above, cap.small) in
    let more : ltb 1 (size (copy_in c r (x ∷ []))) ≡ true =
      unfold copy_in in ground (arith, h, t, odd, above, cap.small) in
    let slot : index c (add32 r.tail 0) ≡ index c (add32 r.head 0) =
      ap (index c) {x = add32 r.tail 0} {y = last_lap c} (omega (arith, t, odd))
      ∙ index-mod c (last_lap c) cap.positive
      ∙ last_lap-slot c cap.positive
      ∙ omega (arith, cap.positive)
      ∙ sym (index-mod c 0 cap.positive)
      ∙ ap (index c) {x = 0} {y = add32 r.head 0} (omega (arith, h)) in
    rw (one, more, slot) (some_items, some_room, refl, rw (==_refl (index c (add32 r.head 0))))
