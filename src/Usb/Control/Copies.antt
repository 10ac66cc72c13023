-- ===== src/Usb/Control/Copies.antt =====
-- src/usb/usb_cdc.cpp: runs of bytes in a buffer and behind a table.
use ch32_tapioca.Prelude.{
  ℕ, zero, suc, ◌+◌, ◌-◌, ◌≤◌, ◌<◌, ◌≡◌, ◌∙◌, ap, ap₂, refl, arith, true, List, [], ◌∷◌, ◌++◌, ltb,
  length, take,
}
use ch32_tapioca.Ring.{read_run}
use ch32_tapioca.Usb.Device.{at}

pub read_run-append :
    (f : ℕ → ℕ) (p n m : ℕ) → read_run f p (n + m) ≡ read_run f p n ++ read_run f (p + n) m
unfolding read_run
read_run-append f p zero m =
    ap₂ (λ q k. read_run f q k) {x = p} {y = p + 0} {u = 0 + m} {v = m} (omega arith) (omega arith)
read_run-append f p (suc n) m =
    let more : suc n + m ≡ suc (n + m) = omega arith in
    let along : p + suc n ≡ p + 1 + n = omega arith in
    rw (more, along) (ap (λ l. f p ∷ l) (read_run-append f (p + 1) n m))

pub read_run-ext :
    (f g : ℕ → ℕ) (p q n : ℕ)
    → ((i : ℕ) → i < n → f (p + i) ≡ g (q + i))
    → read_run f p n ≡ read_run g q n
unfolding read_run
read_run-ext f g p q zero h = refl
read_run-ext f g p q (suc n) h =
    ap₂ ◌∷◌
      (ap f {x = p} {y = p + 0} (omega arith)
        ∙ h 0 (omega arith)
        ∙ ap g {x = q + 0} {y = q} (omega arith))
      (read_run-ext f g (p + 1) (q + 1) n (λ i k.
        ap f {x = p + 1 + i} {y = p + suc i} (omega arith)
        ∙ h (suc i) (omega arith)
        ∙ ap g {x = q + suc i} {y = q + 1 + i} (omega arith)))

at-suc :
    (x : ℕ) (xs : List ℕ) (past : ℕ → ℕ) (i : ℕ) → at (x ∷ xs) past (1 + i) ≡ at xs past (0 + i)
at-suc x xs past i =
    let more : 1 + i ≡ suc i = omega arith in
    let same : 0 + i ≡ i = omega arith in
    let gone : suc i - suc (length xs) ≡ i - length xs = omega arith in
    let test : ltb (suc i) (suc (length xs)) ≡ ltb i (length xs) = ground arith in
    rw (more, same, gone, test)

-- A table read to its length or less.
pub read_run-at :
    (table : List ℕ) (past : ℕ → ℕ) (n : ℕ)
    → n ≤ length table
    → read_run (at table past) 0 n ≡ take n table
unfolding read_run
read_run-at table past zero h = refl
read_run-at [] past (suc n) h = absurd (omega arith)
read_run-at (x ∷ xs) past (suc n) h =
    let shifted : read_run (at (x ∷ xs) past) 1 n ≡ read_run (at xs past) 0 n =
      read_run-ext (at (x ∷ xs) past) (at xs past) 1 0 n (λ i k. at-suc x xs past i) in
    let first : ltb 0 (suc (length xs)) ≡ true = ground arith in
    rw first (ap (λ l. x ∷ l) (shifted ∙ read_run-at xs past n (omega arith)))
