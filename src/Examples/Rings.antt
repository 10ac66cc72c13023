-- ===== src/Examples/Rings.antt =====
-- src/util/ring.hpp at concrete inputs.
use ch32_tapioca.Prelude.{
  ℕ, ◌+◌, ◌-◌, ◌≤◌, ◌<◌, ◌≡◌, inl, refl, arith, true, [], ◌∷◌, ◌++◌, some, length, min, take,
}
use ch32_tapioca.Ring.{
  Ring, size, push, push_all, push_item, pop, pop_item, free_contig, write_ptr, write_run,
  write_commit, read_contig, read_ptr, read_run, read_commit,
}
use ch32_tapioca.Ring.Slots.{IsCapacity, IsSteady}
use ch32_tapioca.Ring.Queue.{IsValid, contents, push_lem}
use ch32_tapioca.Ring.Wrap.{last_lap, push_overwrites_oldest}
use ch32_tapioca.Ring.Spsc.{Link, start, stored, Reach, here, next, store, publish_head}
use ch32_tapioca.Ring.Threads.{pop_call, HasRun, call-fifo}

abbrev eight : Ring ℕ
eight = record { head = 10; tail = 8; buf = λ i. i + 100 }

capacity8 : IsCapacity 8
capacity8 = record { positive = omega arith; small = omega arith }

valid8 : IsValid 8 eight
unfolding size
valid8 = record {
  fits = capacity8;
  head_word = omega arith;
  tail_word = omega arith;
  within = omega arith;
}

steady8 : IsSteady 8 8
steady8 = inl refl

push_lem_example :
    let (n, r') = push 8 eight (1 ∷ 2 ∷ []) in
    (n ≡ min 2 (8 - size eight))
    × (contents 8 r' ≡ contents 8 eight ++ take (8 - size eight) (1 ∷ 2 ∷ []))
    × IsValid 8 r'
    × (r'.tail ≡ 8)
push_lem_example = push_lem 8 valid8 steady8 (1 ∷ 2 ∷ [])

six_free : 2 ≤ free_contig 8 eight
unfolding free_contig ch32_tapioca.Ring.free ch32_tapioca.Ring.index
six_free = omega arith

two_ready : 2 ≤ read_contig 8 eight
unfolding read_contig size ch32_tapioca.Ring.index
two_ready = omega arith

-- The producer has looked at the tail, and stores one item.
abbrev memory : ℕ → ℕ
memory i = 0

reached : Reach 8 (start 8 memory) (stored 8 (start 8 memory) 5)
reached = next here (store 5 (omega arith))

-- It has published the item.
abbrev published : Link ℕ
published = record (stored 8 (start 8 memory) 5) {
  ring = record { head = 1; tail = 0; buf = (stored 8 (start 8 memory) 5).ring.buf };
  written = 0;
}

call-fifo_example :
    ((published.received ≡ take 0 published.sent)
      × (0 ≤ length published.sent)
      × (length published.sent ≤ 0 + 8))
    × ((t : Link ℕ) × Reach 8 (start 8 memory) t × HasRun 8 (pop_call 3) published t)
call-fifo_example =
    call-fifo 8 capacity8 refl memory published (next reached publish_head) (pop_call 3) refl

-- Ten slots, the cursors on both sides of the wrap.
abbrev ten : Ring ℕ
ten = record { head = 0; tail = last_lap 10; buf = memory }

push_overwrites_oldest_example :
    let (done, r') = push_item 10 ten 7 in
    (0 < size ten) × (size ten < 10) × (done ≡ true) × ((pop_item 10 r').0 ≡ some 7)
push_overwrites_oldest_example =
    push_overwrites_oldest 10 ten 7 (record { positive = omega arith; small = omega arith })
      (omega arith) refl refl
