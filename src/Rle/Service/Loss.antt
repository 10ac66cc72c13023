-- ===== src/Rle/Service/Loss.antt =====
-- src/sniffer/rle_sniffer.cpp: what `service` adds to the stream after the drain of the RAM ring.
use ch32_tapioca.Prelude.{
  ℕ, ◌+◌, ◌-◌, ◌<◌, ◌≡◌, ◌≤◌, ◌∙◌, sym, ap, ap₂, subst, refl, arith, Bool, true, false, not, ◌&&◌,
  List, [], ◌∷◌, ◌++◌, some, ◌==◌, leb, ltb, length, length-append, take, take_all, Bool-cases, inl,
  inr, ◌⊎◌,
}
use ch32_tapioca.Prelude.Words.{sub32, nonneg32}
use ch32_tapioca.Framer.{frame_meta}
use ch32_tapioca.Ring.{size, free}
use ch32_tapioca.Ring.Queue.{IsValid, contents, length-contents, push_lem, free_lem}
use ch32_tapioca.Usb.Device.{UsbCdc, tx_capacity, write, write_space}
use ch32_tapioca.Rle.Drain.{Sniffer, ring_count}
use ch32_tapioca.Rle.Service.{
  Service, note_space, mark_loss, note_activity, close_gap, emit_mode_marker, heartbeat,
  after_drain,
}
use ch32_tapioca.Rle.Service.Markers.{
  Adds, Adds-none, assoc3, Loss, mark_loss-Loss, is_gap, Gap, note_activity-Gap, close_gap-Adds,
}

-- The mode marker finds no room behind `n` bytes of the stream, or its text makes no block.
abbrev pub NoMark : List ℕ → ℕ → Type 0
NoMark marker n =
    (frame_meta (some marker) ≡ []) ⊎ (tx_capacity < n + (length (frame_meta (some marker)) + 1))

no_marker : (marker : List ℕ) → length marker ≡ 0 → frame_meta (some marker) ≡ []
unfolding frame_meta
no_marker [] none_ = refl
no_marker (x ∷ xs) none_ = absurd (omega arith)

no_length : (xs : List ℕ) → length xs ≡ 0 → xs ≡ []
no_length [] none_ = refl
no_length (x ∷ xs) none_ = absurd (omega arith)

no_room :
    (marker : List ℕ) (n : ℕ)
    → let block = frame_meta (some marker) in
      n ≤ tx_capacity
      → (not (length block == 0) && leb (length block + 1) (tx_capacity - n)) ≡ false
      → NoMark marker n
no_room marker n within long =
    let block = frame_meta (some marker) in
    elim (Bool-cases (length block == 0)) [
      | inl none_ ↦ inl (no_length block (ground (arith, none_)))
      | inr some_ ↦ inr (ground (arith, within, long, some_))
    ]

pub emit_mode_marker-Adds :
    (marker : List ℕ) (u : UsbCdc)
    → IsValid tx_capacity u.tx
    → (w : List ℕ) × Adds u w (emit_mode_marker marker u)
      × (((w ≡ []) × NoMark marker (size u.tx)) ⊎ (w ≡ 0xff ∷ frame_meta (some marker)))
unfolding emit_mode_marker write write_space
emit_mode_marker-Adds marker u valid =
    let block = frame_meta (some marker) in
    let none_ = Adds-none u valid in
    elim (Bool-cases (length marker == 0)) [
      | inl empty ↦ rw empty ([], none_, inl (refl, inl (no_marker marker (ground (arith, empty)))))
      | inr text ↦
          elim (Bool-cases
            (not (length block == 0) && leb (length block + 1) (free tx_capacity u.tx))) [
              | inr long ↦
                  let left = free_lem tx_capacity valid (inl refl) in
                  let short =
                    ap (λ n. not (length block == 0) && leb (length block + 1) n) (sym left)
                    ∙ long in
                  rw (text, long)
                    ([], none_, inl (refl, no_room marker (size u.tx) valid.within short))
              | inl fits ↦
                  let (count, appended, still, same) =
                    push_lem tx_capacity valid (inl refl) (0xff ∷ block) in
                  let room = free_lem tx_capacity valid (inl refl) in
                  let whole : take (tx_capacity - size u.tx) (0xff ∷ block) ≡ 0xff ∷ block =
                    take_all (tx_capacity - size u.tx) (0xff ∷ block)
                      (ground (arith, room, fits)) in
                  rw (text, fits)
                    (
                      0xff ∷ block,
                      (appended ∙ ap (λ l. contents tx_capacity u.tx ++ l) whole, still),
                      inr refl,
                    )
            ]
    ]

-- The mode marker `w` behind `n` bytes of the stream.
abbrev pub Beat : List ℕ → Service → ℕ → ℕ → List ℕ → Type 0
Beat marker s n now_ms w =
    let due = not s.sniff_active && nonneg32 (sub32 now_ms s.mode_hb_ms) in
    ((w ≡ []) × (due ≡ false))
    ⊎ ((w ≡ []) × NoMark marker n)
    ⊎ ((w ≡ 0xff ∷ frame_meta (some marker)) × (due ≡ true))

heartbeat-Adds :
    (marker : List ℕ) (s : Service) (u : UsbCdc) (now_ms : ℕ)
    → IsValid tx_capacity u.tx
    → let (s', u') = heartbeat marker s u now_ms in
      (w : List ℕ) × Adds u w u'
      × Beat marker s (size u.tx) now_ms w
      × (s'.loss_seen ≡ s.loss_seen)
      × (s'.sniff_active ≡ s.sniff_active)
unfolding heartbeat
heartbeat-Adds marker s u now_ms valid =
    elim (Bool-cases (not s.sniff_active && nonneg32 (sub32 now_ms s.mode_hb_ms))) [
      | inr early ↦ rw early ([], Adds-none u valid, inl (refl, refl), refl, refl)
      | inl due ↦
          let (w, added, which) = emit_mode_marker-Adds marker u valid in
          rw due (
            w,
            added,
            elim which [ inl none_ ↦ inr (inl none_) | inr block ↦ inr (inr (block, refl)) ],
            refl,
            refl,
          )
    ]

-- What has been added to a stream of `n` bytes is counted in its length.
Adds-size : (u v : UsbCdc) (w : List ℕ) → Adds u w v → size v.tx ≡ size u.tx + length w
Adds-size u v w (added, valid) = omega (
  arith,
  length-contents tx_capacity u.tx,
  length-contents tx_capacity v.tx,
  ap length added,
  length-append (contents tx_capacity u.tx) w,
)

-- After the drain, `service` adds to the stream, behind what is there, at most a loss marker, then the boundary of an idle gap,
-- then the mode marker behind a boundary, each whole or not at all, and nothing else. The loss marker comes exactly if records
-- have been lost that no marker has told and there is room for it, and only then they count as told. The boundary comes exactly if
-- the drain saw no activity, a burst was open, the RAM ring is empty, the last activity is more than 3 ms ago, and there is
-- room. The mode marker comes exactly if no burst is open then, its time has come, its text makes a block and there is room.
pub after_drain_lem :
    (marker : List ℕ) (now_ms : ℕ) (saw_activity : Bool) (s : Service) (u : UsbCdc)
    → IsValid tx_capacity u.tx
    → let (s', u') = after_drain marker now_ms saw_activity s u in
      (loss : List ℕ) × (gap : List ℕ) × (beat : List ℕ) × (contents tx_capacity u'.tx
        ≡ contents tx_capacity u.tx ++ (loss ++ (gap ++ beat)))
      × IsValid tx_capacity u'.tx
      × Loss s u loss s'.loss_seen
      × Gap s saw_activity now_ms (size u.tx + length loss) gap
      × Beat marker
          (record s { sniff_active = s'.sniff_active })
          (size u.tx + length loss + length gap)
          now_ms
          beat
unfolding after_drain note_space
after_drain_lem marker now_ms saw_activity s u valid =
    let s0 = note_space s u in
    let (s1, u1) = mark_loss s0 u in
    let (loss, added1, told, same, hb1, active1, last1) = mark_loss-Loss s0 u valid in
    let s2 = note_activity s1 saw_activity now_ms in
    let (drain_, seen2, hb2, due) = note_activity-Gap s1 saw_activity now_ms in
    let (gap, added2, closed, seen3, hb3) = close_gap-Adds s2 u1 now_ms added1.1 in
    let (s3, u2) = close_gap s2 u1 now_ms in
    let (beat, added3, when, seen4, active) = heartbeat-Adds marker s3 u2 now_ms added2.1 in
    let gaps : is_gap s1 saw_activity now_ms ≡ is_gap s saw_activity now_ms =
      ap₃
        (λ (d : Sniffer) (a : Bool) (l : ℕ).
          not saw_activity && a && ring_count d == 0 && ltb 3 (sub32 now_ms l))
        same active1 last1 in
    let n1 = Adds-size u u1 loss added1 in
    let n2 = Adds-size u1 u2 gap added2 in
    (
      loss,
      gap,
      beat,
      added3.0
          ∙ ap (λ l. l ++ beat) (added2.0 ∙ ap (λ l. l ++ gap) added1.0)
          ∙ assoc3 (contents tx_capacity u.tx) loss gap beat,
      added3.1,
      subst (λ n. Loss s u loss n) (sym (seen4 ∙ seen3 ∙ seen2)) told,
      elim closed [
        | inl (w, p) ↦ inl (w, sym gaps ∙ sym due ∙ p)
        | inr (inl (w, p)) ↦ inr (inl (w, sym gaps ∙ sym due ∙ p))
        | inr (inr (w, full)) ↦ inr (inr (w, sym n1 ∙ full))
      ],
      beats marker s s3 (heartbeat marker s3 u2 now_ms).0 now_ms _ _ beat (hb3 ∙ hb2 ∙ hb1) active
          (n2 ∙ ap (λ n. n + length gap) n1) when,
    )
  where
    ap₃ :
        {B : Type 0} {d e : Sniffer} {a b : Bool} {l m : ℕ} (f : Sniffer → Bool → ℕ → B)
        → d ≡ e
        → a ≡ b
        → l ≡ m
        → f d a l ≡ f e b m
    ap₃ f p q r = cc

    beats :
        (marker : List ℕ) (s t t' : Service) (now_ms n m : ℕ) (w : List ℕ)
        → t.mode_hb_ms ≡ s.mode_hb_ms
        → t'.sniff_active ≡ t.sniff_active
        → n ≡ m
        → Beat marker t n now_ms w
        → Beat marker (record s { sniff_active = t'.sniff_active }) m now_ms w
    beats marker s t t' now_ms n m w hb active same b =
        let due : (not t'.sniff_active && nonneg32 (sub32 now_ms s.mode_hb_ms))
            ≡ (not t.sniff_active && nonneg32 (sub32 now_ms t.mode_hb_ms)) =
          ap₂ (λ a h. not a && nonneg32 (sub32 now_ms h)) active (sym hb) in
        elim b [
          | inl (e, p) ↦ inl (e, due ∙ p)
          | inr (inl (e, p)) ↦ inr (inl (e, subst (NoMark marker) same p))
          | inr (inr (e, p)) ↦ inr (inr (e, due ∙ p))
        ]
