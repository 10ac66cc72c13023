-- ===== src/Ring/Queue.antt =====
-- src/util/ring.hpp: a valid ring is the queue of the items between its cursors.
use ch32_tapioca.Prelude.{
  ℕ, zero, suc, ◌+◌, ◌-◌, ◌≤◌, ◌<◌, ◌≡◌, ◌≢◌, refl, ap, ap₂, sym, ◌∙◌, arith, true, false, List, [],
  ◌∷◌, ◌++◌, ltb, if◌then◌else◌, length, take, drop, min, append-nil, append_assoc, length-take,
  ==_ne, ==_refl, Bool-cases, inl, inr, ◌⊎◌, ltb→lt, take-append, drop-append, take-min, drop-min,
}
use ch32_tapioca.Prelude.Words.{add32, IsU32}
use ch32_tapioca.Ring.{
  Ring, index, update, size, free, write_from, read_from, copy_in, push, push_all, pop,
}
use ch32_tapioca.Ring.Slots.{IsCapacity, IsSteady, slot-ne}

module _ {ℓ} {A : Type ℓ} (capacity : ℕ) where
  pub record IsValid (r : Ring A) : Type 0 where
    pub fits : IsCapacity capacity
    pub head_word : IsU32 r.head
    pub tail_word : IsU32 r.tail
    pub within : size r ≤ capacity

  -- The items available to read, oldest first.
  abbrev pub contents : Ring A → List A
  contents r = read_from capacity r.buf r.tail 0 (size r)

  length-read_from : (buf : ℕ → A) (t i n : ℕ) → length (read_from capacity buf t i n) ≡ n
  unfolding read_from
  length-read_from buf t i zero = refl
  length-read_from buf t i (suc n) = ap suc (length-read_from buf t (suc i) n)

  pub length-contents : (r : Ring A) → length (contents r) ≡ size r
  length-contents r = length-read_from r.buf r.tail 0 (size r)

  -- Splitting a stretch of slots, and moving its origin.
  read_from-append :
      (buf : ℕ → A) (t i n m : ℕ)
      → read_from capacity buf t i (n + m)
        ≡ read_from capacity buf t i n ++ read_from capacity buf t (i + n) m
  unfolding read_from
  read_from-append buf t i zero m =
      ap₂ (λ j k. read_from capacity buf t j k) {x = i} {y = i + 0} {u = 0 + m} {v = m}
        (omega arith) (omega arith)
  read_from-append buf t i (suc n) m =
      let more : suc n + m ≡ suc (n + m) = omega arith in
      let along : i + suc n ≡ suc i + n = omega arith in
      rw (more, along)
        (ap (λ l. buf (index capacity (add32 t i)) ∷ l) (read_from-append buf t (suc i) n m))

  read_from-shift :
      (buf : ℕ → A) (t i n m : ℕ)
      → read_from capacity buf (add32 t n) i m ≡ read_from capacity buf t (n + i) m
  unfolding read_from
  read_from-shift buf t i n zero = refl
  read_from-shift buf t i n (suc m) =
      let slot : add32 (add32 t n) i ≡ add32 t (n + i) = omega arith in
      let along : suc (n + i) ≡ n + suc i = omega arith in
      rw (slot, along)
        (ap (λ l. buf (index capacity (add32 t (n + i))) ∷ l) (read_from-shift buf t (suc i) n m))

  -- A write past a stretch leaves it as it was, and extends it.
  read_from-update :
      (buf : ℕ → A) (t i n k : ℕ) (x : A)
      → ((j : ℕ) → i ≤ j → j < i + n → index capacity (add32 t j) ≢ k)
      → read_from capacity (update buf k x) t i n ≡ read_from capacity buf t i n
  unfolding read_from
  read_from-update buf t i zero k x h = refl
  read_from-update buf t i (suc n) k x h = rw (==_ne _ k (h i (omega arith) (omega arith))) (
      ap (λ l. buf (index capacity (add32 t i)) ∷ l)
        (read_from-update buf t (suc i) n k x (λ j p q. h j (omega arith) (omega arith))))

  module _ (fits : IsCapacity capacity) (t : ℕ) (word : IsU32 t)
      (steady : IsSteady capacity t) where
    read_from-snoc :
        (buf : ℕ → A) (n k : ℕ) (x : A)
        → n < capacity
        → k ≡ index capacity (add32 t n)
        → read_from capacity (update buf k x) t 0 (n + 1) ≡ read_from capacity buf t 0 n ++ x ∷ []
    unfolding read_from
    read_from-snoc buf n k x h e =
        read_from-append (update buf k x) t 0 n 1
        ∙ ap₂ ◌++◌
            (read_from-update buf t 0 n k x (λ j p q.
              rw e (slot-ne capacity t j n fits.positive word fits.small steady (omega arith) h)))
            (ap (λ j. update buf k x (index capacity (add32 t j)) ∷ []) {x = 0 + n} {y = n}
                (omega arith)
              ∙ rw (e, ==_refl (index capacity (add32 t n))))

    read_from-write_from :
        (buf : ℕ → A) (n i : ℕ) (xs : List A)
        → n + i + length xs ≤ capacity
        → read_from capacity (write_from capacity buf (add32 t n) i xs) t 0 (n + i + length xs)
          ≡ read_from capacity buf t 0 (n + i) ++ xs
    unfolding write_from
    read_from-write_from buf n i [] h =
        ap (λ k. read_from capacity buf t 0 k) {x = n + i + 0} {y = n + i} (omega arith)
        ∙ sym (append-nil _)
    read_from-write_from buf n i (x ∷ xs) h =
        let slot : index capacity (add32 (add32 t n) i) ≡ index capacity (add32 t (n + i)) =
          ap (index capacity) (omega arith) in
        let buf' = update buf (index capacity (add32 (add32 t n) i)) x in
        ap (λ k. read_from capacity (write_from capacity buf' (add32 t n) (suc i) xs) t 0 k)
          {x = n + i + suc (length xs)} {y = n + suc i + length xs} (omega arith)
        ∙ read_from-write_from buf' n (suc i) xs (omega arith)
        ∙ ap (λ k. read_from capacity buf' t 0 k ++ xs) {x = n + suc i} {y = n + i + 1}
            (omega arith)
        ∙ ap (λ l. l ++ xs) (read_from-snoc buf (n + i) _ x (omega arith) slot)
        ∙ append_assoc (read_from capacity buf t 0 (n + i)) (x ∷ []) xs

  module _ {r : Ring A} (v : IsValid r) (steady : IsSteady capacity r.tail) where
    pub size-copy_in :
        (xs : List A)
        → length xs ≤ capacity - size r
        → size (copy_in capacity r xs) ≡ size r + length xs
    unfolding copy_in size
    size-copy_in xs h = omega (arith, v.fits.small)

    -- What is copied into free space goes to the end of the queue.
    pub contents-copy_in :
        (xs : List A)
        → length xs ≤ capacity - size r
        → contents (copy_in capacity r xs) ≡ contents r ++ xs
    unfolding copy_in
    contents-copy_in xs h =
        let at : r.head ≡ add32 r.tail (size r) = unfold size in omega (arith, v.within) in
        ap (λ k. read_from capacity (write_from capacity r.buf r.head 0 xs) r.tail 0 k)
          {x = size (copy_in capacity r xs)} {y = size r + 0 + length xs}
          (omega (arith, size-copy_in xs h))
        ∙ ap
            (λ k.
              read_from capacity (write_from capacity r.buf k 0 xs) r.tail 0
                (size r + 0 + length xs))
            at
        ∙ read_from-write_from v.fits r.tail v.tail_word steady r.buf (size r) 0 xs
            (omega (arith, v.within))
        ∙ ap (λ k. read_from capacity r.buf r.tail 0 k ++ xs) {x = size r + 0} {y = size r}
            (omega arith)

    pub copy_in-IsValid :
        (xs : List A) → length xs ≤ capacity - size r → IsValid (copy_in capacity r xs)
    copy_in-IsValid xs h = record {
      fits = v.fits;
      head_word = unfold copy_in in omega arith;
      tail_word = unfold copy_in in v.tail_word;
      within = omega (arith, size-copy_in xs h, v.within);
    }

    pub free_lem : free capacity r ≡ capacity - size r
    unfolding free
    free_lem = omega (arith, v.within, v.fits.small)

    -- `push` accepts as many items as there is room for, returns their number, and appends exactly those to
    -- the queue; the ring stays valid and its read cursor is not moved. This is for a valid ring where the
    -- capacity divides 2 ^ 32 or the lap from the read cursor on does not cross the wrap of the cursors.
    pub push_lem :
        (src : List A)
        → let (n, r') = push capacity r src in
          (n ≡ min (length src) (capacity - size r))
          × (contents r' ≡ contents r ++ take (capacity - size r) src)
          × IsValid r'
          × (r'.tail ≡ r.tail)
    unfolding push
    push_lem src =
        let n = if ltb (length src) (free capacity r) then length src else free capacity r in
        let count : n ≡ min (length src) (capacity - size r) = ground (arith, free_lem) in
        let room : length (take n src) ≤ capacity - size r = omega (arith, length-take n src) in
        (
          count,
          contents-copy_in (take n src) room
              ∙ ap (λ l. contents r ++ l)
                  (ap (λ k. take k src) count ∙ take-min (capacity - size r) src),
          copy_in-IsValid (take n src) room,
          refl,
        )

    -- `pushAll` appends the whole block if it fits and says so, and else leaves the ring as it was. This is
    -- for a valid ring where the capacity divides 2 ^ 32 or the lap from the read cursor on does not cross the
    -- wrap of the cursors.
    pub push_all_lem :
        (src : List A)
        → let (done, r') = push_all capacity r src in
          ((length src ≤ capacity - size r)
            × (done ≡ true)
            × (contents r' ≡ contents r ++ src)
            × IsValid r')
          ⊎ ((capacity - size r < length src) × (done ≡ false) × (r' ≡ r))
    unfolding push_all
    push_all_lem src = elim (Bool-cases (ltb (free capacity r) (length src))) [
      | inl big ↦
          rw (big, push_all)
            (inr (omega (arith, free_lem, ltb→lt (free capacity r) (length src) big), refl, refl))
      | inr fits ↦
          let room : length src ≤ capacity - size r = ground (arith, free_lem) in
          rw (fits, push_all)
            (inl (room, refl, contents-copy_in src room, copy_in-IsValid src room))
    ]

    pub read_from-take :
        (n : ℕ)
        → n ≤ size r
        → (read_from capacity r.buf r.tail 0 n ≡ take n (contents r))
          × (read_from capacity r.buf r.tail n (size r - n) ≡ drop n (contents r))
    read_from-take n h =
        let front = read_from capacity r.buf r.tail 0 n in
        let back = read_from capacity r.buf r.tail n (size r - n) in
        let split : contents r ≡ front ++ back =
          ap (λ k. read_from capacity r.buf r.tail 0 k) {x = size r} {y = n + (size r - n)}
            (omega arith)
          ∙ read_from-append r.buf r.tail 0 n (size r - n)
          ∙ ap (λ k. front ++ read_from capacity r.buf r.tail k (size r - n)) {x = 0 + n} {y = n}
              (omega arith) in
        let few = length-read_from r.buf r.tail 0 n in
        rw split (
          sym (take-append front back) ∙ ap (λ k. take k (front ++ back)) few,
          sym (drop-append front back) ∙ ap (λ k. drop k (front ++ back)) few,
        )

    -- What is left when the read cursor moves on by `n`.
    pub contents-advance :
        (n : ℕ)
        → n ≤ size r
        → (contents (record r { tail = add32 r.tail n }) ≡ drop n (contents r))
          × IsValid (record r { tail = add32 r.tail n })
    contents-advance n h =
        let rest : size (record r { tail = add32 r.tail n }) ≡ size r - n =
          unfold size in omega arith in
        (
          ap (λ k. read_from capacity r.buf (add32 r.tail n) 0 k) rest
              ∙ read_from-shift r.buf r.tail 0 n (size r - n)
              ∙ ap (λ k. read_from capacity r.buf r.tail k (size r - n)) {x = n + 0} {y = n}
                  (omega arith)
              ∙ (read_from-take n h).1,
          record {
            fits = v.fits;
            head_word = v.head_word;
            tail_word = omega arith;
            within = omega (arith, rest, v.within);
          },
        )

    -- `pop` takes as many items as it was asked for, or all there are, from the front of the queue; the ring
    -- stays valid and its write cursor is not moved. This is for a valid ring where the capacity divides 2 ^
    -- 32 or the lap from the read cursor on does not cross the wrap of the cursors.
    pub pop_lem :
        (len : ℕ)
        → let (items, r') = pop capacity r len in
          (items ≡ take len (contents r))
          × (contents r' ≡ drop len (contents r))
          × IsValid r'
          × (r'.head ≡ r.head)
    unfolding pop
    pop_lem len =
        let n = if ltb len (size r) then len else size r in
        let count : n ≡ min (length (contents r)) len = ground (arith, length-contents r) in
        let few : n ≤ size r = ground arith in
        let (rest, valid) = contents-advance n few in
        (
          (read_from-take n few).0
              ∙ ap (λ k. take k (contents r)) count
              ∙ take-min len (contents r),
          rest ∙ ap (λ k. drop k (contents r)) count ∙ drop-min len (contents r),
          valid,
          refl,
        )
