-- ===== src/Ring/Contiguous.antt =====
-- src/util/ring.hpp: the zero-copy side. What goes through `writePtr` and `readPtr` moves the same items as `push`
-- and `pop`.
use native.Mathlib.Nat.{mod-eq_of_lt, mod-add-mod}
use ch32_tapioca.Prelude.{
  ℕ, zero, suc, ◌+◌, ◌-◌, ◌%◌, ◌≤◌, ◌<◌, ◌≡◌, refl, ap, sym, ◌∙◌, arith, List, [], ◌∷◌, ◌++◌,
  length, take, drop,
}
use ch32_tapioca.Prelude.Words.{add32}
use ch32_tapioca.Ring.{
  Ring, index, update, size, write_run, read_run, write_commit, read_commit, write_from, read_from,
  copy_in, write_ptr, read_ptr, free_contig, read_contig,
}
use ch32_tapioca.Ring.Slots.{IsSteady, index-lt, slot-mod}
use ch32_tapioca.Ring.Queue.{
  IsValid, contents, free_lem, contents-copy_in, copy_in-IsValid, read_from-take, contents-advance,
}

module _ {ℓ} {A : Type ℓ} (capacity : ℕ) where
  -- Up to the end of the array the slots of a lap are consecutive.
  slot-add :
      {r : Ring A}
      → IsValid capacity r
      → IsSteady capacity r.tail
      → (n k : ℕ) → n + k < capacity
      → index capacity (add32 r.tail n) + k < capacity
      → index capacity (add32 r.tail (n + k)) ≡ index capacity (add32 r.tail n) + k
  slot-add {r} v st n k h room =
      let at =
        slot-mod capacity r.tail n v.fits.positive v.tail_word v.fits.small st (omega arith) in
      slot-mod capacity r.tail (n + k) v.fits.positive v.tail_word v.fits.small st h
      ∙ ap (λ x. x % capacity) {x = r.tail + (n + k)} {y = r.tail + n + k} (omega arith)
      ∙ sym (mod-add-mod (r.tail + n) capacity k)
      ∙ mod-eq_of_lt (omega (arith, at))
      ∙ omega (arith, at)

  write_run-write_from :
      (buf : ℕ → A) (h i p : ℕ) (xs : List A)
      → ((k : ℕ) → k < length xs → index capacity (add32 h (i + k)) ≡ p + k)
      → write_run buf p xs ≡ write_from capacity buf h i xs
  unfolding write_run write_from
  write_run-write_from buf h i p [] e = refl
  write_run-write_from buf h i p (x ∷ xs) e =
      let here : index capacity (add32 h i) ≡ p =
        ap (λ k. index capacity (add32 h k)) {x = i} {y = i + 0} (omega arith)
        ∙ e 0 (omega arith)
        ∙ omega arith in
      rw here (
        write_run-write_from (update buf p x) h (suc i) (p + 1) xs (λ k q.
          ap (λ j. index capacity (add32 h j)) {x = suc i + k} {y = i + suc k} (omega arith)
          ∙ e (suc k) (omega arith)
          ∙ omega arith))

  read_run-read_from :
      (buf : ℕ → A) (t i p n : ℕ)
      → ((k : ℕ) → k < n → index capacity (add32 t (i + k)) ≡ p + k)
      → read_run buf p n ≡ read_from capacity buf t i n
  unfolding read_run read_from
  read_run-read_from buf t i p zero e = refl
  read_run-read_from buf t i p (suc n) e =
      let here : index capacity (add32 t i) ≡ p =
        ap (λ k. index capacity (add32 t k)) {x = i} {y = i + 0} (omega arith)
        ∙ e 0 (omega arith)
        ∙ omega arith in
      rw here (
        ap (λ l. buf p ∷ l)
          (read_run-read_from buf t (suc i) (p + 1) n (λ k q.
            ap (λ j. index capacity (add32 t j)) {x = suc i + k} {y = i + suc k} (omega arith)
            ∙ e (suc k) (omega arith)
            ∙ omega arith)))

  module _ {r : Ring A} (v : IsValid capacity r) (steady : IsSteady capacity r.tail) where
    -- `freeContig` is at most the free space, and is positive whenever there is any.
    pub free_contig_bounds :
        (free_contig capacity r ≤ capacity - size r)
        × (write_ptr capacity r + free_contig capacity r ≤ capacity)
        × (size r < capacity → 0 < free_contig capacity r)
    unfolding free_contig write_ptr
    free_contig_bounds =
        let room = free_lem capacity v steady in
        let inside = index-lt capacity r.head v.fits.positive in
        let small = v.fits.small in ground (arith, room, inside, small)

    -- Storing at most `freeContig` items at `writePtr` and committing them appends them to the queue, and the
    -- ring stays valid. This is for a valid ring where the capacity divides 2 ^ 32 or the lap from the read
    -- cursor on does not cross the wrap of the cursors.
    pub write_commit_lem :
        (xs : List A)
        → length xs ≤ free_contig capacity r
        → let r' =
            write_commit
              (record r { buf = write_run r.buf (write_ptr capacity r) xs })
              (length xs) in
          (contents capacity r' ≡ contents capacity r ++ xs) × IsValid capacity r'
    unfolding write_commit write_ptr
    write_commit_lem xs h =
        let (few, fit, some_room) = free_contig_bounds in
        let room : length xs ≤ capacity - size r = omega (arith, few) in
        let at : r.head ≡ add32 r.tail (size r) = unfold size in omega arith in
        let same : write_run r.buf (index capacity r.head) xs
            ≡ write_from capacity r.buf r.head 0 xs =
          write_run-write_from r.buf r.head 0 (index capacity r.head) xs (λ k q.
            ap (index capacity) {x = add32 r.head (0 + k)} {y = add32 r.tail (size r + k)}
              (omega (arith, at))
            ∙ slot-add v steady (size r) k (omega arith) (rw (← at) (omega (arith, fit)))
            ∙ ap (λ j. index capacity j + k) (sym at)) in
        rw same (
          unfold copy_in in contents-copy_in capacity v steady xs room,
          unfold copy_in in copy_in-IsValid capacity v steady xs room,
        )

    -- `readContig` is at most the number of items, and a read of so many items from `readPtr` on stays inside
    -- the array. This is for a valid ring where the capacity divides 2 ^ 32 or the lap from the read cursor on
    -- does not cross the wrap of the cursors.
    pub read_contig_bounds :
        (read_contig capacity r ≤ size r)
        × (read_ptr capacity r + read_contig capacity r ≤ capacity)
    unfolding read_contig read_ptr
    read_contig_bounds =
        let inside = index-lt capacity r.tail v.fits.positive in
        let small = v.fits.small in ground (arith, inside, small)

    pub read_contig_positive : 0 < size r → 0 < read_contig capacity r
    unfolding read_contig
    read_contig_positive some_ =
        let inside = index-lt capacity r.tail v.fits.positive in
        let small = v.fits.small in ground (arith, inside, small)

    -- At most `readContig` items read at `readPtr` are the front of the queue; committing them takes them off
    -- it, and the ring stays valid. This is for a valid ring where the capacity divides 2 ^ 32 or the lap from
    -- the read cursor on does not cross the wrap of the cursors.
    pub read_commit_lem :
        (n : ℕ)
        → n ≤ read_contig capacity r
        → (read_run r.buf (read_ptr capacity r) n ≡ take n (contents capacity r))
          × (contents capacity (read_commit r n) ≡ drop n (contents capacity r))
          × IsValid capacity (read_commit r n)
    unfolding read_commit read_ptr
    read_commit_lem n h =
        let (most, fit) = read_contig_bounds in
        let few : n ≤ size r = omega (arith, most) in
        let full_lap = v.within in
        let at : r.tail ≡ add32 r.tail 0 = omega (arith, v.tail_word) in
        let same : read_run r.buf (index capacity r.tail) n ≡ read_from capacity r.buf r.tail 0 n =
          read_run-read_from r.buf r.tail 0 (index capacity r.tail) n (λ k q.
            slot-add v steady 0 k (omega arith) (rw (← at) (omega (arith, fit)))
            ∙ ap (λ j. index capacity j + k) (sym at)) in
        let (rest, valid) = contents-advance capacity v steady n few in
        (same ∙ (read_from-take capacity v steady n few).0, rest, valid)
