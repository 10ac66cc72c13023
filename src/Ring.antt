-- ===== src/Ring.antt =====
-- src/util/ring.hpp: `Ring<Capacity, T>`, a single-producer single-consumer ring with free-running
-- `uint32_t` cursors. `Capacity` is the first argument of each operation; the backing array is a
-- function from slots to items. Arrays that a caller passes are lists, and the numbers of items moved are
-- the lengths of lists. `write_run` and `read_run` are what a caller does through `writePtr` and `readPtr`.
pub mod Slots
pub mod Queue
pub mod Contiguous
pub mod Wrap
pub mod Spsc
pub mod Threads
use Prim.Native.Nat.{bit_and}
use ch32_tapioca.Prelude.{
  ℕ, zero, suc, ◌+◌, ◌-◌, ◌%◌, ◌≤◌, ◌<◌, Bool, true, false, List, [], ◌∷◌, Option, none, some, ltb,
  ◌==◌, if◌then◌else◌, length, take,
}
use ch32_tapioca.Prelude.Words.{add32, sub32}

pub record Ring {ℓ} (A : Type ℓ) : Type ℓ where
  pub head : ℕ
  pub tail : ℕ
  pub buf : ℕ → A

-- `index(pos)`: a mask for a power of two, else a remainder.
unfoldable pub index : ℕ → ℕ → ℕ
index capacity pos =
    if bit_and capacity (capacity - 1) == 0 then bit_and pos (capacity - 1) else pos % capacity

module _ {ℓ} {A : Type ℓ} where
  abbrev pub update : (ℕ → A) → ℕ → A → ℕ → A
  update f k v i = if i == k then v else f i

  unfoldable pub size : Ring A → ℕ
  size r = sub32 r.head r.tail

  unfoldable pub empty : Ring A → Bool
  empty r = r.head == r.tail

  unfoldable pub clear : Ring A → Ring A
  clear r = record r { head = 0; tail = 0 }

  -- A store at, and a load from, consecutive slots from `p` on.
  unfoldable pub write_run : (ℕ → A) → ℕ → List A → ℕ → A
  write_run buf p [] = buf
  write_run buf p (x ∷ xs) = write_run (update buf p x) (p + 1) xs

  unfoldable pub read_run : (ℕ → A) → ℕ → ℕ → List A
  read_run buf p zero = []
  read_run buf p (suc n) = buf p ∷ read_run buf (p + 1) n

  unfoldable pub write_commit : Ring A → ℕ → Ring A
  write_commit r n = record r { head = add32 r.head n }

  unfoldable pub read_commit : Ring A → ℕ → Ring A
  read_commit r n = record r { tail = add32 r.tail n }

module _ {ℓ} {A : Type ℓ} (capacity : ℕ) where
  unfoldable pub free : Ring A → ℕ
  unfolding size
  free r = sub32 capacity (size r)

  unfoldable pub full : Ring A → Bool
  unfolding size
  full r = size r == capacity

  -- The loops `buf_[index(h + i)] = src[i]` and `dst[i] = buf_[index(t + i)]`.
  unfoldable pub write_from : (ℕ → A) → ℕ → ℕ → List A → ℕ → A
  write_from buf h i [] = buf
  write_from buf h i (x ∷ xs) = write_from (update buf (index capacity (add32 h i)) x) h (suc i) xs

  unfoldable pub read_from : (ℕ → A) → ℕ → ℕ → ℕ → List A
  read_from buf t i zero = []
  read_from buf t i (suc n) = buf (index capacity (add32 t i)) ∷ read_from buf t (suc i) n

  unfoldable pub copy_in : Ring A → List A → Ring A
  unfolding write_from
  copy_in r src = record r { buf = write_from r.buf r.head 0 src; head = add32 r.head (length src) }

  -- The number of items accepted, and the ring.
  unfoldable pub push : Ring A → List A → ℕ × Ring A
  unfolding free copy_in
  push r src =
      let n = if ltb (length src) (free r) then length src else free r in
      (n, copy_in r (take n src))

  unfoldable pub push_item : Ring A → A → Bool × Ring A
  unfolding push
  push_item r item = let (n, r') = push r (item ∷ []) in (n == 1, r')

  unfoldable pub push_all : Ring A → List A → Bool × Ring A
  unfolding free copy_in
  push_all r src = if ltb (free r) (length src) then (false, r) else (true, copy_in r src)

  unfoldable pub write_ptr : Ring A → ℕ
  write_ptr r = index capacity r.head

  unfoldable pub read_ptr : Ring A → ℕ
  read_ptr r = index capacity r.tail

  unfoldable pub free_contig : Ring A → ℕ
  free_contig r =
      let f = free r in
      let to_wrap = sub32 capacity (index capacity r.head) in if ltb f to_wrap then f else to_wrap

  unfoldable pub read_contig : Ring A → ℕ
  read_contig r =
      let s = size r in
      let to_wrap = sub32 capacity (index capacity r.tail) in if ltb s to_wrap then s else to_wrap

  -- The items copied out, and the ring.
  unfoldable pub pop : Ring A → ℕ → List A × Ring A
  unfolding size read_from
  pop r len =
      let n = if ltb len (size r) then len else size r in
      (read_from r.buf r.tail 0 n, record r { tail = add32 r.tail n })

  -- `none`: nothing was copied to `*item`.
  unfoldable pub pop_item : Ring A → Option A × Ring A
  unfolding pop
  pop_item r = let (items, r') = pop r 1 in (first items, r')
    where
      first : List A → Option A
      first [] = none
      first (x ∷ xs) = some x
