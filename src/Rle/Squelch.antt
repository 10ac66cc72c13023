-- ===== src/Rle/Squelch.antt =====
-- src/sniffer/rle_sniffer.cpp: the loop of `service` that filters the RAM ring into the TX ring. `cap_idle_k` is `CAP_IDLE_K`.
-- The bytes of the ring from `tail_` on are a list, and `dst` is the list of the bytes written. `usb_.pump()` touches
-- nothing that the loop uses, and is left out.
use ch32_tapioca.Prelude.{
  ℕ, suc, ◌+◌, ◌-◌, ◌≤◌, ◌<◌, ◌≡◌, refl, arith, Bool, true, false, not, ◌&&◌, List, [], ◌∷◌, ◌++◌,
  ltb, leb, ◌==◌, if◌then◌else◌, length, take, All, Bool-cases, inl, inr, ◌⊎◌, sym, ap, ◌∙◌,
  length-append, append_assoc, append-nil,
}
use ch32_tapioca.Prelude.Words.{to_u32}

-- `capRun`, `capPiped`, `sniffActive_`, `sawActivity`, `dst[0 .. outl)` and `i`.
pub record Filter : Type 0 where
  pub cap_run : ℕ
  pub cap_piped : Bool
  pub sniff_active : Bool
  pub saw_activity : Bool
  pub out : List ℕ
  pub taken : ℕ

abbrev pub boundary : ℕ
boundary = 0xff

abbrev put_byte : Filter → ℕ → Filter
put_byte f b = record f { out = f.out ++ b ∷ [] }

-- One byte of the ring.
unfoldable pub filter_byte : ℕ → Filter → ℕ → Filter
filter_byte cap_idle_k f b =
    let on = not (cap_idle_k == 0) in
    let g = record f { taken = f.taken + 1 } in
    let run = to_u32 (f.cap_run + 1) in
    if leb 128 b
    then (if on && f.cap_piped
        then g
        else if on && leb cap_idle_k run
        then record (put_byte g boundary) {
          cap_run = run;
          cap_piped = true;
          sniff_active = false;
          saw_activity = false;
        }
        else record (put_byte g b) { cap_run = run; saw_activity = true })
    else (let h = record g { cap_run = 0; cap_piped = false; saw_activity = true } in
        if f.cap_piped then h else put_byte h b)

-- The loop over the bytes, which stops where `dst` has no more room than `cap`.
unfoldable pub filter : ℕ → ℕ → Filter → List ℕ → Filter
unfolding filter_byte
filter cap_idle_k cap f [] = f
filter cap_idle_k cap f (b ∷ bs) =
    let rest = filter cap_idle_k cap (filter_byte cap_idle_k f b) bs in
    if leb cap (length f.out) then f else rest

filter_byte-length :
    (k : ℕ) (f : Filter) (b : ℕ) → length (filter_byte k f b).out ≤ suc (length f.out)
unfolding filter_byte
filter_byte-length k f b =
    ground (arith, length-append f.out (b ∷ []), length-append f.out (boundary ∷ []))

-- The loop writes no more than the room that it has.
pub filter-length :
    (k cap : ℕ) (f : Filter) (bs : List ℕ)
    → length f.out ≤ cap
    → length (filter k cap f bs).out ≤ cap
unfolding filter
filter-length k cap f [] h = h
filter-length k cap f (b ∷ bs) h = elim (Bool-cases (leb cap (length f.out))) [
  | inl full ↦ rw full h
  | inr room ↦
      rw room
        (filter-length k cap (filter_byte k f b) bs (ground (arith, filter_byte-length k f b)))
]

-- The loop with room for all bytes.
unfoldable pub filter_all : ℕ → Filter → List ℕ → Filter
filter_all k f [] = f
filter_all k f (b ∷ bs) = filter_all k (filter_byte k f b) bs

abbrev IsContinuation : ℕ → Type 0
IsContinuation b = 128 ≤ b

-- A run that is squelched swallows continuation bytes.
filter_all-piped :
    (k : ℕ) (f : Filter) (bs : List ℕ)
    → 0 < k
    → f.cap_piped ≡ true
    → All IsContinuation bs
    → ((filter_all k f bs).out ≡ f.out) × ((filter_all k f bs).cap_piped ≡ true)
unfolding filter_all filter_byte
filter_all-piped k f [] z p a = (refl, p)
filter_all-piped k f (b ∷ bs) z p a =
    let same : (filter_byte k f b).out ≡ f.out = ground arith in
    let still : (filter_byte k f b).cap_piped ≡ true = ground arith in
    let (out, piped) = filter_all-piped k (filter_byte k f b) bs z still a.1 in (out ∙ same, piped)

-- Continuation bytes below the bound pass; the one that reaches it makes a boundary, and those after it
-- are dropped.
filter_all-run :
    (k : ℕ) (f : Filter) (bs : List ℕ)
    → k < 4294967296
    → f.cap_run < k
    → f.cap_piped ≡ false
    → All IsContinuation bs
    → let r = filter_all k f bs in
      ((f.cap_run + length bs < k) × (r.out ≡ f.out ++ bs) × (r.cap_piped ≡ false))
      ⊎ ((k ≤ f.cap_run + length bs)
          × (r.out ≡ f.out ++ (take (k - 1 - f.cap_run) bs ++ boundary ∷ []))
          × (r.cap_piped ≡ true))
unfolding filter_all filter_byte
filter_all-run k f [] s c p a = inl (omega arith, sym (append-nil f.out), p)
filter_all-run k f (b ∷ bs) s c p a =
    let g = filter_byte k f b in
    elim (Bool-cases (leb k (to_u32 (f.cap_run + 1)))) [
      | inl reached ↦
          let out : g.out ≡ f.out ++ boundary ∷ [] = ground arith in
          let piped : g.cap_piped ≡ true = ground arith in
          let last : k - 1 - f.cap_run ≡ 0 = ground arith in
          let (rest, still) = filter_all-piped k g bs (omega arith) piped a.1 in
          rw last (inr (ground arith, rest ∙ out, still))
      | inr below ↦
          let out : g.out ≡ f.out ++ b ∷ [] = ground arith in
          let open_ : g.cap_piped ≡ false = ground arith in
          let run : g.cap_run ≡ f.cap_run + 1 = ground arith in
          let less : f.cap_run + 1 < k = ground arith in
          elim (filter_all-run k g bs s (omega arith) open_ a.1) [
            | inl (few, all, still) ↦
                inl
                  (omega arith, all ∙ ap (λ l. l ++ bs) out ∙ append_assoc f.out (b ∷ []) bs, still)
            | inr (many, cut, still) ↦
                let step : k - 1 - f.cap_run ≡ suc (k - 1 - g.cap_run) = omega arith in
                rw step (
                  inr (
                    omega arith,
                    cut
                        ∙ ap (λ l. l ++ (take (k - 1 - g.cap_run) bs ++ boundary ∷ [])) out
                        ∙ append_assoc f.out (b ∷ []) _,
                    still,
                  ))
          ]
    ]

filter_all-append :
    (k : ℕ) (f : Filter) (xs ys : List ℕ)
    → filter_all k f (xs ++ ys) ≡ filter_all k (filter_all k f xs) ys
unfolding filter_all
filter_all-append k f [] ys = refl
filter_all-append k f (x ∷ xs) ys = filter_all-append k (filter_byte k f x) xs ys

filter_byte-terminal :
    (k : ℕ) (f : Filter) (t : ℕ)
    → t < 128
    → ((filter_byte k f t).cap_run ≡ 0)
      × ((filter_byte k f t).cap_piped ≡ false)
      × ((filter_byte k f t).out ≡ (if f.cap_piped then f.out else f.out ++ t ∷ []))
unfolding filter_byte
filter_byte-terminal k f t h = ground arith

-- A run of the line, from a filter at rest under a positive bound of 32 bits: continuation bytes and the
-- terminal byte that ends it. Below the bound all of it passes. From the bound on it is an idle gap, of which
-- the stream keeps one byte less than the bound and one boundary, whatever its length. The filter is at rest
-- again.
pub filter_all-gap :
    (k : ℕ) (f : Filter) (bs : List ℕ) (t : ℕ)
    → k < 4294967296
    → 0 < k
    → f.cap_run ≡ 0
    → f.cap_piped ≡ false
    → All IsContinuation bs
    → t < 128
    → let r = filter_all k f (bs ++ t ∷ []) in
      (r.out
        ≡ f.out ++ (if ltb (length bs) k then bs ++ t ∷ [] else take (k - 1) bs ++ boundary ∷ []))
      × (r.cap_run ≡ 0)
      × (r.cap_piped ≡ false)
unfolding filter_all
filter_all-gap k f bs t s z c p a low =
    let g = filter_all k f bs in
    let (run, piped, out) = filter_byte-terminal k g t low in
    rw (filter_all-append k f bs (t ∷ [])) (result out, run, piped)
  where
    result :
        (filter_byte k (filter_all k f bs) t).out ≡ (
          if (filter_all k f bs).cap_piped
          then (filter_all k f bs).out
          else (filter_all k f bs).out ++ t ∷ [])
        → (filter_byte k (filter_all k f bs) t).out
          ≡ f.out ++ (if ltb (length bs) k then bs ++ t ∷ [] else take (k - 1) bs ++ boundary ∷ [])
    result out = elim (filter_all-run k f bs s (omega arith) p a) [
      | inl (few, all, still) ↦
          let test : ltb (length bs) k ≡ true = ground arith in
          out ∙ rw (still, all, test) (append_assoc f.out bs (t ∷ []))
      | inr (many, cut, still) ↦
          let test : ltb (length bs) k ≡ false = ground arith in
          let none_yet : k - 1 - f.cap_run ≡ k - 1 = omega arith in
          out ∙ rw (still, cut, test, none_yet)
    ]
