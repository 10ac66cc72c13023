-- ===== src/Ring/Threads.antt =====
-- src/util/ring.hpp under its two threads: `push` and `pop` as runs of the steps that the two threads interleave.
use ch32_tapioca.Prelude.{
  ℕ, zero, suc, ◌+◌, ◌%◌, ◌≤◌, ◌≡◌, refl, ap, ap₂, sym, ◌∙◌, arith, List, [], ◌∷◌, ◌++◌, length,
  ltb, take, append_assoc, append-nil, if◌then◌else◌, length-take,
}
use ch32_tapioca.Prelude.Words.{add32, sub32}
use ch32_tapioca.Ring.{Ring, size, free, write_from, read_from, copy_in, push, pop}
use ch32_tapioca.Ring.Slots.{IsCapacity}
use ch32_tapioca.Ring.Spsc.{
  Link, start, stored, loading, sample_tail, store, publish_head, sample_head, load, publish_tail,
  Reach, next, Reach-fifo,
}

-- A call of one of the two sides.
pub data Call {ℓ} (A : Type ℓ) : Type ℓ where
  push_call : List A → Call A
  pop_call : ℕ → Call A

-- The side of the call is not in the middle of another one.
abbrev pub IsIdle {ℓ} : {A : Type ℓ} → Link A → Call A → Type 0
IsIdle s (push_call items) = s.written ≡ 0
IsIdle s (pop_call len) = s.loaded ≡ 0

module _ {ℓ} {A : Type ℓ} (capacity : ℕ) where
  -- What the call does to the ring and to what has been sent and received, and that the side of the call is idle after it and the
  -- other as it was.
  abbrev pub HasRun : Call A → Link A → Link A → Type ℓ
  HasRun (push_call items) s t =
      let (n, r) = push capacity s.ring items in
      (t.ring ≡ r)
      × (t.sent ≡ s.sent ++ take n items)
      × (t.received ≡ s.received)
      × (t.written ≡ 0)
      × (t.loaded ≡ s.loaded)
      × (t.seen_head ≡ s.seen_head)
  HasRun (pop_call len) s t =
      let (items, r) = pop capacity s.ring len in
      (t.ring ≡ r)
      × (t.sent ≡ s.sent)
      × (t.received ≡ s.received ++ items)
      × (t.loaded ≡ 0)
      × (t.written ≡ s.written)
      × (t.seen_tail ≡ s.seen_tail)

  -- The loop of the stores.
  stores :
      {a : Link A} (s : Link A) (xs : List A)
      → Reach capacity a s
      → s.written + length xs ≤ sub32 capacity (sub32 s.ring.head s.seen_tail)
      → (t : Link A) × Reach capacity a t
        × (t.ring ≡ record {
          head = s.ring.head;
          tail = s.ring.tail;
          buf = write_from capacity s.ring.buf s.ring.head s.written xs;
        })
        × (t.sent ≡ s.sent ++ xs)
        × (t.received ≡ s.received)
        × (t.written ≡ s.written + length xs)
        × (t.loaded ≡ s.loaded)
        × (t.seen_head ≡ s.seen_head)
  unfolding write_from
  stores s [] r room = (s, r, refl, sym (append-nil s.sent), refl, omega arith, refl, refl)
  stores s (x ∷ xs) r room =
      let (t, r', ring, sent, received, written, loaded, seen) =
        stores (stored capacity s x) xs (next r (store x (omega arith))) (omega arith) in
      (
        t,
        r',
        ring,
        sent ∙ append_assoc s.sent (x ∷ []) xs,
        received,
        omega (arith, written),
        loaded,
        seen,
      )

  -- The loop of the loads.
  loads :
      {a : Link A} (s : Link A) (n : ℕ)
      → Reach capacity a s
      → s.loaded + n ≤ sub32 s.seen_head s.ring.tail
      → (t : Link A) × Reach capacity a t
        × (t.ring ≡ s.ring)
        × (t.sent ≡ s.sent)
        × (t.received ≡ s.received ++ read_from capacity s.ring.buf s.ring.tail s.loaded n)
        × (t.loaded ≡ s.loaded + n)
        × (t.written ≡ s.written)
        × (t.seen_tail ≡ s.seen_tail)
  unfolding read_from
  loads s zero r ready = (s, r, refl, refl, sym (append-nil s.received), omega arith, refl, refl)
  loads s (suc n) r ready =
      let (t, r', ring, sent, received, loaded, written, seen) =
        loads (loading capacity s) n (next r (load (omega arith))) (omega arith) in
      (
        t,
        r',
        ring,
        sent,
        received ∙ append_assoc s.received _ _,
        omega (arith, loaded),
        written,
        seen,
      )

  call-Reach :
      {a : Link A} (s : Link A) (c : Call A)
      → Reach capacity a s
      → IsIdle s c
      → (t : Link A) × Reach capacity a t × HasRun c s t
  unfolding push copy_in pop free size
  call-Reach s (push_call items) r idle =
      let s1 : Link A = record s { seen_tail = s.ring.tail } in
      let n =
        if ltb (length items) (free capacity s.ring) then length items else free capacity s.ring in
      let (t, r', ring, sent, received, written, loaded, seen) =
        stores s1 (take n items) (next r (sample_tail idle))
          (ground (arith, length-take n items, idle)) in
      let count : t.written ≡ length (take n items) = omega (arith, written, idle) in
      (
        record t {
          ring = record {
            head = add32 t.ring.head t.written;
            tail = t.ring.tail;
            buf = t.ring.buf;
          };
          written = 0;
        },
        next r' publish_head,
        (
          ap₂ (λ (q : Ring A) (k : ℕ). record { head = add32 q.head k; tail = q.tail; buf = q.buf })
              (ring
                ∙ ap
                    (λ (i : ℕ). record {
                      head = s.ring.head;
                      tail = s.ring.tail;
                      buf = write_from capacity s.ring.buf s.ring.head i (take n items);
                    })
                    idle)
              count,
          sent,
          received,
          refl,
          loaded,
          seen,
        ),
      )
  call-Reach s (pop_call len) r idle =
      let s1 : Link A = record s { seen_head = s.ring.head } in
      let n = if ltb len (size s.ring) then len else size s.ring in
      let (t, r', ring, sent, received, loaded, written, seen) =
        loads s1 n (next r (sample_head idle)) (ground (arith, idle)) in
      let count : t.loaded ≡ n = omega (arith, loaded, idle) in
      (
        record t {
          ring = record { head = t.ring.head; tail = add32 t.ring.tail t.loaded; buf = t.ring.buf };
          loaded = 0;
        },
        next r' publish_tail,
        (
          ap₂ (λ (q : Ring A) (k : ℕ). record { head = q.head; tail = add32 q.tail k; buf = q.buf })
              ring count,
          sent,
          received
              ∙ ap (λ (i : ℕ). s.received ++ read_from capacity s.ring.buf s.ring.tail i n) idle,
          refl,
          written,
          seen,
        ),
      )

-- However the loads, stores and cursor updates of the two sides interleave, from an empty ring on, what the consumer has loaded
-- is a prefix of what the producer has stored, in order, and never more than the capacity behind. And a call of `push` or
-- `pop` is a run of such steps: from any state that is reached so, in which its side is not in the middle of another call,
-- they lead to the ring that the call leaves, with the items that `push` takes sent and those that `pop` gives received.
-- This is for a capacity that divides 2 ^ 32, whatever number of times the cursors wrap.
pub call-fifo {ℓ} :
    {A : Type ℓ} (capacity : ℕ)
    → IsCapacity capacity
    → 4294967296 % capacity ≡ 0
    → (buf : ℕ → A) (s : Link A) → Reach capacity (start capacity buf) s
    → (c : Call A) → IsIdle s c
    → ((s.received ≡ take (length s.received) s.sent)
        × (length s.received ≤ length s.sent)
        × (length s.sent ≤ length s.received + capacity))
      × ((t : Link A) × Reach capacity (start capacity buf) t × HasRun capacity c s t)
call-fifo capacity fits divides buf s r c idle =
    (Reach-fifo capacity fits divides buf r, call-Reach capacity s c r idle)
