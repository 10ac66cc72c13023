-- ===== src/Ring/Spsc.antt =====
-- src/util/ring.hpp under its two threads: the producer reads a `tail_` that may be stale, stores items and then
-- publishes `head_`; the consumer reads a `head_` that may be stale, loads items and then publishes
-- `tail_`. Each load and store is a step of its own, so every interleaving is a sequence of steps.
use ch32_tapioca.Prelude.{
  ℕ, suc, ◌+◌, ◌-◌, ◌%◌, ◌≤◌, ◌<◌, ◌≡◌, ◌≢◌, refl, ap, sym, ◌∙◌, arith, List, [], ◌∷◌, ◌++◌, length,
  take, get_elem?, some, length-append, ◌*◌, ◌/◌, dec_lt, ==_ne, ==_refl, take-append_le, take-suc,
  get_elem?-append_left, get_elem?-length,
}
use native.Mathlib.Nat.{div-add-mod, mul-add-mod_self_right}
use ch32_tapioca.Prelude.Words.{add32, sub32}
use ch32_tapioca.Ring.{Ring, index, update}
use ch32_tapioca.Ring.Slots.{IsCapacity, index-mod, add-mod-ne}

-- `written` counts the items stored and not yet published, `loaded` those loaded and not yet published;
-- `sent` and `received` are all the items ever stored and loaded.
pub record Link {ℓ} (A : Type ℓ) : Type ℓ where
  pub ring : Ring A
  pub seen_tail : ℕ
  pub written : ℕ
  pub seen_head : ℕ
  pub loaded : ℕ
  pub sent : List A
  pub received : List A

module _ (capacity : ℕ) (fits : IsCapacity capacity) (divides : 4294967296 % capacity ≡ 0) where
  slot : (n k : ℕ) → index capacity (add32 (n % 4294967296) k) ≡ (n + k) % capacity
  slot n k =
      let m = n + k in
      let laps : 4294967296 ≡ 4294967296 / capacity * capacity =
        omega (arith, div-add-mod 4294967296 capacity, divides) in
      index-mod capacity (add32 (n % 4294967296) k) fits.positive
      ∙ ap (λ x. x % capacity) {x = add32 (n % 4294967296) k} {y = m % 4294967296} (omega arith)
      ∙ sym (
          mul-add-mod_self_right (m / 4294967296 * (4294967296 / capacity)) capacity
            (m % 4294967296))
      ∙ ap (λ x. x % capacity)
          (omega (arith, ap (λ (x : ℕ). m / 4294967296 * x) laps, div-add-mod m 4294967296))

  -- Positions less than a lap apart have different slots.
  apart : (p q : ℕ) → p < q → q < p + capacity → p % capacity ≢ q % capacity
  apart p q h k e =
      add-mod-ne capacity p (q - p) fits.positive (omega arith) (omega arith)
        (ap (λ n. n % capacity) {x = p + (q - p)} {y = q} (omega arith) ∙ sym e)

module _ {ℓ} {A : Type ℓ} (capacity : ℕ) where
  abbrev pub start : (ℕ → A) → Link A
  start buf = record {
    ring = record { head = 0; tail = 0; buf = buf };
    seen_tail = 0;
    written = 0;
    seen_head = 0;
    loaded = 0;
    sent = [];
    received = [];
  }

  abbrev pub stored : Link A → A → Link A
  stored s x = record s {
    ring = record {
      head = s.ring.head;
      tail = s.ring.tail;
      buf = update s.ring.buf (index capacity (add32 s.ring.head s.written)) x;
    };
    written = suc s.written;
    sent = s.sent ++ x ∷ [];
  }

  abbrev pub loading : Link A → Link A
  loading s = record s {
    loaded = suc s.loaded;
    received = s.received ++ s.ring.buf (index capacity (add32 s.ring.tail s.loaded)) ∷ [];
  }

  pub data Step (s : Link A) : Link A → Type ℓ where
    -- `free()`: the producer reads `tail_`.
    sample_tail : s.written ≡ 0 → Step s (record s { seen_tail = s.ring.tail })
    -- `buf_[index(h + i)] = src[i]`, for `i` below the free space that the producer has seen.
    store :
        (x : A) → s.written < sub32 capacity (sub32 s.ring.head s.seen_tail) → Step s (stored s x)
    -- `head_ = h + n`.
    publish_head : Step s (record s {
      ring = record { head = add32 s.ring.head s.written; tail = s.ring.tail; buf = s.ring.buf };
      written = 0;
    })
    -- `size()`: the consumer reads `head_`.
    sample_head : s.loaded ≡ 0 → Step s (record s { seen_head = s.ring.head })
    -- `dst[i] = buf_[index(t + i)]`, for `i` below the size that the consumer has seen.
    load : s.loaded < sub32 s.seen_head s.ring.tail → Step s (loading s)
    -- `tail_ = t + n`.
    publish_tail : Step s (record s {
      ring = record { head = s.ring.head; tail = add32 s.ring.tail s.loaded; buf = s.ring.buf };
      loaded = 0;
    })

  pub data Reach (s : Link A) : Link A → Type ℓ where
    here : Reach s s
    next : {t u : Link A} → Reach s t → Step t u → Reach s u

  -- The unbounded positions that the wrapping cursors stand for: all that either side has published, and
  -- what each side last saw of the other.
  record Order (s : Link A) (heads tails old_heads old_tails : ℕ) : Type 0 where
    head_word : s.ring.head ≡ heads % 4294967296
    tail_word : s.ring.tail ≡ tails % 4294967296
    seen_tail_word : s.seen_tail ≡ old_tails % 4294967296
    seen_head_word : s.seen_head ≡ old_heads % 4294967296
    stale_tail : old_tails ≤ tails
    stale_head : old_heads ≤ heads
    room : heads + s.written ≤ old_tails + capacity
    ready : tails + s.loaded ≤ old_heads
    sent_count : length s.sent ≡ heads + s.written
    received_count : length s.received ≡ tails + s.loaded

  record Inv (s : Link A) : Type ℓ where
    heads : ℕ
    tails : ℕ
    old_heads : ℕ
    old_tails : ℕ
    order : Order s heads tails old_heads old_tails
    cells :
        (p : ℕ)
        → tails ≤ p
        → p < heads + s.written
        → get_elem? s.sent p ≡ some (s.ring.buf (p % capacity))
    fifo : s.received ≡ take (length s.received) s.sent

  module _ (fits : IsCapacity capacity) (divides : 4294967296 % capacity ≡ 0) where
    start-Inv : (buf : ℕ → A) → Inv (start buf)
    start-Inv buf = record {
      heads = 0;
      tails = 0;
      old_heads = 0;
      old_tails = 0;
      order = omega arith;
      cells = λ p h k. absurd (omega arith);
      fifo = refl;
    }

    store-Inv :
        {s : Link A} (x : A)
        → s.written < sub32 capacity (sub32 s.ring.head s.seen_tail)
        → Inv s
        → Inv (stored s x)
    store-Inv {s} x h v =
        let last = v.heads + s.written in
        let at : index capacity (add32 s.ring.head s.written) ≡ last % capacity =
          rw v.order.head_word (slot capacity fits divides v.heads s.written) in
        let small = fits.small in
        let count = v.order.sent_count in
        record {
          heads = v.heads;
          tails = v.tails;
          old_heads = v.old_heads;
          old_tails = v.old_tails;
          order = omega (arith, length-append s.sent (x ∷ []));
          cells = λ p low high. elim (dec_lt p (length s.sent)) [
            | yes old ↦
                get_elem?-append_left s.sent (x ∷ []) p old
                ∙ v.cells p low (omega arith)
                ∙ rw (
                  at,
                  ==_ne (p % capacity) (last % capacity)
                      (apart capacity fits divides p last (omega arith) (omega arith)),
                )
            | no new ↦
                let newest : p ≡ length s.sent = omega arith in
                rw (newest, at, count, ==_refl (last % capacity))
                  (rw (← count) (get_elem?-length s.sent x))
          ];
          fifo = v.fifo ∙ sym (take-append_le (length s.received) s.sent (x ∷ []) (omega arith));
        }

    load-Inv : {s : Link A} → s.loaded < sub32 s.seen_head s.ring.tail → Inv s → Inv (loading s)
    load-Inv {s} h v =
        let p = v.tails + s.loaded in
        let at : index capacity (add32 s.ring.tail s.loaded) ≡ p % capacity =
          rw v.order.tail_word (slot capacity fits divides v.tails s.loaded) in
        let small = fits.small in
        let item = s.ring.buf (index capacity (add32 s.ring.tail s.loaded)) in
        let ready : suc p ≤ v.old_heads = omega arith in
        let count = v.order.received_count in
        let more : length (s.received ++ item ∷ []) ≡ suc p =
          omega (arith, length-append s.received (item ∷ [])) in
        let here : get_elem? s.sent p ≡ some item =
          v.cells p (omega arith) (omega arith) ∙ ap (λ k. some (s.ring.buf k)) (sym at) in
        record {
          heads = v.heads;
          tails = v.tails;
          old_heads = v.old_heads;
          old_tails = v.old_tails;
          order = omega arith;
          cells = v.cells;
          fifo =
              ap (λ l. l ++ item ∷ []) (v.fifo ∙ ap (λ k. take k s.sent) count)
              ∙ sym (take-suc p s.sent here)
              ∙ ap (λ k. take k s.sent) (sym more);
        }

    Step-Inv : {s t : Link A} → Step s t → Inv s → Inv t
    Step-Inv (sample_tail h) v = record {
      heads = v.heads;
      tails = v.tails;
      old_heads = v.old_heads;
      old_tails = v.tails;
      order = omega arith;
      cells = v.cells;
      fifo = v.fifo;
    }
    Step-Inv (store x h) v = store-Inv x h v
    Step-Inv {s} publish_head v = record {
      heads = v.heads + s.written;
      tails = v.tails;
      old_heads = v.old_heads;
      old_tails = v.old_tails;
      order = omega arith;
      cells = λ p low high. v.cells p low (omega arith);
      fifo = v.fifo;
    }
    Step-Inv (sample_head h) v = record {
      heads = v.heads;
      tails = v.tails;
      old_heads = v.heads;
      old_tails = v.old_tails;
      order = omega arith;
      cells = v.cells;
      fifo = v.fifo;
    }
    Step-Inv (load h) v = load-Inv h v
    Step-Inv {s} publish_tail v = record {
      heads = v.heads;
      tails = v.tails + s.loaded;
      old_heads = v.old_heads;
      old_tails = v.old_tails;
      order = omega arith;
      cells = λ p low high. v.cells p (omega arith) high;
      fifo = v.fifo;
    }

    Reach-Inv : {s t : Link A} → Inv s → Reach s t → Inv t
    Reach-Inv v here = v
    Reach-Inv v (next r st) = Step-Inv st (Reach-Inv v r)

    -- However the two sides interleave, from an empty ring on, what the consumer has loaded is a prefix
    -- of what the producer has stored, in order, and never more than the capacity behind. This is for a capacity
    -- that divides 2 ^ 32, whatever number of times the cursors wrap.
    pub Reach-fifo :
        (buf : ℕ → A) {s : Link A}
        → Reach (start buf) s
        → (s.received ≡ take (length s.received) s.sent)
          × (length s.received ≤ length s.sent)
          × (length s.sent ≤ length s.received + capacity)
    Reach-fifo buf r =
        let v = Reach-Inv (start-Inv buf) r in let o = v.order in (v.fifo, omega arith, omega arith)
