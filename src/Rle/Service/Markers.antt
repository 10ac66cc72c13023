-- ===== src/Rle/Service/Markers.antt =====
-- src/sniffer/rle_sniffer.cpp: the loss marker and the boundary that `service` writes.
use ch32_tapioca.Prelude.{
  not, ℕ, ◌-◌, ◌≡◌, ◌≢◌, ◌∙◌, sym, ap, refl, arith, Bool, true, false, ◌&&◌, ◌||◌, List, [], ◌∷◌,
  ◌++◌, ◌==◌, ==_iff, ltb, take, take_all, append-nil, append_assoc, Bool-cases, inl, inr, ◌⊎◌,
}
use ch32_tapioca.Prelude.Words.{sub32}
use ch32_tapioca.Ring.{size}
use ch32_tapioca.Ring.Queue.{IsValid, contents, push_lem}
use ch32_tapioca.Usb.Device.{UsbCdc, tx_capacity, write}
use ch32_tapioca.Rle.Drain.{ring_count}
use ch32_tapioca.Rle.Service.{Service, mark_loss, note_activity, emit_boundary, close_gap}

-- One byte is written whole, or there is no room and nothing is.
write_byte :
    (u : UsbCdc) (b : ℕ)
    → IsValid tx_capacity u.tx
    → let (n, v) = write u (b ∷ []) in
      IsValid tx_capacity v.tx
      × ((((n == 1) ≡ true) × (contents tx_capacity v.tx ≡ contents tx_capacity u.tx ++ b ∷ []))
          ⊎ (((n == 1) ≡ false)
              × (contents tx_capacity v.tx ≡ contents tx_capacity u.tx)
              × (size u.tx ≡ tx_capacity)))
unfolding write
write_byte u b valid =
    let (count, appended, still, same) = push_lem tx_capacity valid (inl refl) (b ∷ []) in
    let within = valid.within in
    elim (Bool-cases (ltb (size u.tx) tx_capacity)) [
      | inl room ↦
          let one : take (tx_capacity - size u.tx) (b ∷ []) ≡ b ∷ [] =
            take_all (tx_capacity - size u.tx) (b ∷ []) (ground (arith, room)) in
          (
            still,
            inl (
              ground (arith, count, room),
              appended ∙ ap (λ l. contents tx_capacity u.tx ++ l) one,
            ),
          )
      | inr full ↦
          let all : size u.tx ≡ tx_capacity = ground (arith, full, within) in
          let none_ : tx_capacity - size u.tx ≡ 0 = omega (arith, all) in
          (
            still,
            inr (
              ground (arith, count, all),
              appended
                  ∙ ap (λ (k : ℕ). contents tx_capacity u.tx ++ take k (b ∷ [])) none_
                  ∙ append-nil (contents tx_capacity u.tx),
              all,
            ),
          )
    ]

-- The bytes `w` have been added to the stream.
abbrev pub Adds : UsbCdc → List ℕ → UsbCdc → Type 0
Adds u w v = (contents tx_capacity v.tx ≡ contents tx_capacity u.tx ++ w) × IsValid tx_capacity v.tx

pub Adds-none : (u : UsbCdc) → IsValid tx_capacity u.tx → Adds u [] u
Adds-none u valid = (sym (append-nil (contents tx_capacity u.tx)), valid)

pub assoc3 : (c x y z : List ℕ) → ((c ++ x) ++ y) ++ z ≡ c ++ (x ++ (y ++ z))
assoc3 c x y z = append_assoc (c ++ x) y z ∙ append_assoc c x (y ++ z)

-- The loss marker `w` against the count of lost records and what of it has been seen before and after.
abbrev pub Loss : Service → UsbCdc → List ℕ → ℕ → Type 0
Loss s u w seen =
    ((s.drain.ram_drop ≡ s.loss_seen) × (w ≡ []) × (seen ≡ s.loss_seen))
    ⊎ ((s.drain.ram_drop ≢ s.loss_seen) × (w ≡ 0xfd ∷ []) × (seen ≡ s.drain.ram_drop))
    ⊎ ((s.drain.ram_drop ≢ s.loss_seen)
        × (size u.tx ≡ tx_capacity)
        × (w ≡ [])
        × (seen ≡ s.loss_seen))

pub mark_loss-Loss :
    (s : Service) (u : UsbCdc)
    → IsValid tx_capacity u.tx
    → let (s', u') = mark_loss s u in
      (w : List ℕ) × Adds u w u'
      × Loss s u w s'.loss_seen
      × (s'.drain ≡ s.drain)
      × (s'.mode_hb_ms ≡ s.mode_hb_ms)
      × (s'.sniff_active ≡ s.sniff_active)
      × (s'.sniff_last_ms ≡ s.sniff_last_ms)
unfolding mark_loss
mark_loss-Loss s u valid = elim (Bool-cases (s.drain.ram_drop == s.loss_seen)) [
  | inl same ↦
      let old = (==_iff s.drain.ram_drop s.loss_seen).0 same in
      rw same ([], Adds-none u valid, inl (old, refl, refl), refl, refl, refl, refl)
  | inr more ↦
      let new_ : s.drain.ram_drop ≢ s.loss_seen = λ e. ground (arith, more, e) in
      let (still, outcome) = write_byte u 0xfd valid in
      elim outcome [
        | inl (done, added) ↦
            rw (more, done)
              (0xfd ∷ [], (added, still), inr (inl (new_, refl, refl)), refl, refl, refl, refl)
        | inr (full, kept, all) ↦
            rw (more, full)
              (
                [],
                (kept ∙ sym (append-nil (contents tx_capacity u.tx)), still),
                inr (inr (new_, all, refl, refl)),
                refl,
                refl,
                refl,
                refl,
              )
      ]
]

-- An idle gap ends the open burst.
abbrev pub is_gap : Service → Bool → ℕ → Bool
is_gap s saw_activity now_ms =
    not saw_activity
    && s.sniff_active
    && ring_count s.drain == 0
    && ltb 3 (sub32 now_ms s.sniff_last_ms)

-- The boundary `w` of an idle gap, behind `n` bytes of the stream.
abbrev pub Gap : Service → Bool → ℕ → ℕ → List ℕ → Type 0
Gap s saw_activity now_ms n w =
    ((w ≡ 0xff ∷ []) × (is_gap s saw_activity now_ms ≡ true))
    ⊎ ((w ≡ []) × (is_gap s saw_activity now_ms ≡ false))
    ⊎ ((w ≡ []) × (n ≡ tx_capacity))

pub note_activity-Gap :
    (s : Service) (saw_activity : Bool) (now_ms : ℕ)
    → let v = note_activity s saw_activity now_ms in
      (v.drain ≡ s.drain)
      × (v.loss_seen ≡ s.loss_seen)
      × (v.mode_hb_ms ≡ s.mode_hb_ms)
      × ((v.sniff_active && ring_count v.drain == 0 && ltb 3 (sub32 now_ms v.sniff_last_ms))
          ≡ is_gap s saw_activity now_ms)
unfolding note_activity
note_activity-Gap s saw_activity now_ms =
    elim (Bool-cases (saw_activity || ltb 0 (ring_count s.drain))) [
      | inl active ↦ rw active (refl, refl, refl, ground (arith, active))
      | inr idle ↦ rw idle (refl, refl, refl, ground (arith, idle))
    ]

pub close_gap-Adds :
    (s : Service) (u : UsbCdc) (now_ms : ℕ)
    → IsValid tx_capacity u.tx
    → let (s', u') = close_gap s u now_ms in
      (w : List ℕ) × Adds u w u'
      × (let due =
            s.sniff_active && ring_count s.drain == 0 && ltb 3 (sub32 now_ms s.sniff_last_ms) in
          ((w ≡ 0xff ∷ []) × (due ≡ true))
          ⊎ ((w ≡ []) × (due ≡ false))
          ⊎ ((w ≡ []) × (size u.tx ≡ tx_capacity)))
      × (s'.loss_seen ≡ s.loss_seen)
      × (s'.mode_hb_ms ≡ s.mode_hb_ms)
unfolding close_gap emit_boundary
close_gap-Adds s u now_ms valid =
    elim (Bool-cases
      (s.sniff_active && ring_count s.drain == 0 && ltb 3 (sub32 now_ms s.sniff_last_ms))) [
        | inr early ↦ rw early ([], Adds-none u valid, inr (inl (refl, refl)), refl, refl)
        | inl due ↦
            let (still, outcome) = write_byte u 0xff valid in
            elim outcome [
              | inl (done, added) ↦
                  rw (due, done) (0xff ∷ [], (added, still), inl (refl, refl), refl, refl)
              | inr (full, kept, all) ↦
                  rw (due, full)
                    (
                      [],
                      (kept ∙ sym (append-nil (contents tx_capacity u.tx)), still),
                      inr (inr (refl, all)),
                      refl,
                      refl,
                    )
            ]
      ]
