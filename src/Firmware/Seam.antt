-- ===== src/Firmware/Seam.antt =====
-- src/main_sniffer.cpp: the loop of `unifiedSwitchTo` that writes the seam between two modes.
use ch32_tapioca.Prelude.{
  ℕ, zero, suc, ◌+◌, ◌-◌, ◌*◌, ◌≤◌, ◌<◌, ◌≡◌, ◌⊎◌, ◌∙◌, sym, ap, subst, refl, arith, true, false,
  ◌&&◌, ◌||◌, List, [], ◌∷◌, ◌++◌, ltb, length, take, drop, length-drop, Bool-cases, inl, inr, min,
}
use ch32_tapioca.Ring.{size}
use ch32_tapioca.Ring.Queue.{IsValid, contents, push_lem}
use ch32_tapioca.Usb.Device.{UsbCdc, Sdk, tx_capacity, write}
use ch32_tapioca.Usb.Bulk.{
  Status, tick, coalesce, coalesce_free, poll_flags, reopen_ep2, arm_ep3_from_tx, arm_ep3,
}
use ch32_tapioca.Usb.Bulk.Packets.{poll_flags-Rests, reopen_ep2-Rests}
use ch32_tapioca.Usb.Bulk.Stream.{Runs, Runs-stream}
use ch32_tapioca.Firmware.{
  Surroundings, Progress, Event, happen, seam, max_guard, seam_round, seam_loop, seam_fuel,
  write_seam, going,
}

coalesce-calm : (u : UsbCdc) (now_ms : ℕ) → (coalesce u now_ms).fg_bus_rst ≡ u.fg_bus_rst
unfolding coalesce coalesce_free arm_ep3_from_tx arm_ep3
coalesce-calm u now_ms = ground arith

tick-calm :
    (k : Sdk) (u : UsbCdc) (s : Status) (now_ms : ℕ)
    → u.fg_bus_rst ≡ false
    → (tick k u s now_ms).fg_bus_rst ≡ false
unfolding tick
tick-calm k u s now_ms calm =
    coalesce-calm (reopen_ep2 (poll_flags k u s)) now_ms
    ∙ (reopen_ep2-Rests (poll_flags k u s)).same_reset
    ∙ (poll_flags-Rests k u s calm).same_reset
    ∙ calm

take-nil : (n : ℕ) → take {A = ℕ} n [] ≡ []
take-nil zero = refl
take-nil (suc n) = refl

take-more : (n m : ℕ) (xs : List ℕ) → take n xs ++ take m (drop n xs) ≡ take (n + m) xs
take-more zero m xs = ap (λ k. take k xs) {x = m} {y = 0 + m} (omega arith)
take-more (suc n) m [] = take-nil m ∙ sym (take-nil (suc n + m))
take-more (suc n) m (x ∷ xs) =
    ap (λ l. x ∷ l) (take-more n m xs)
    ∙ ap (λ k. take k (x ∷ xs)) {x = suc (n + m)} {y = suc n + m} (omega arith)

Runs-cong : {k : Sdk} {u v : UsbCdc} {w x p : List ℕ} → w ≡ x → Runs k u w p v → Runs k u x p v
Runs-cong {k} {u} {v} {w} {x} {p} e r = subst (λ l. Runs k u l p v) e r

-- The loop has come from `u` to `x`.
pub record Reached (w : Surroundings) (u : UsbCdc) (x : Progress) : Type 0 where
  pub sent : List ℕ
  pub runs : Runs w.sdk u (take x.off seam) sent x.usb
  pub small : x.off ≤ 3
  pub calm : x.usb.fg_bus_rst ≡ false

-- What bounds the number of rounds.
abbrev left : Progress → ℕ
left x = (3 - x.off) * 100001 + (100000 - x.guard)

happen-Runs :
    (k : Sdk) (u : UsbCdc) {w p : List ℕ} (v : UsbCdc) (e : Event)
    → e.reset ≡ false
    → v.fg_bus_rst ≡ false
    → Runs k u w p v
    → Runs k u w p (happen v e) × ((happen v e).fg_bus_rst ≡ false)
happen-Runs k u {w} {p} v e none_ calm r =
    let same : (v.fg_bus_rst || e.reset) ≡ v.fg_bus_rst = rw (calm, none_) refl in
    let t = v.fg_transfer || e.completed in
    let z = v.fg_suspend || e.suspend in
    (
      subst
          (λ b.
            Runs k u w p
              (record v { ep0 = e.ep0; fg_transfer = t; fg_bus_rst = b; fg_suspend = z }))
          (sym same) (Runs.signal_step e.ep0 t z r),
      same ∙ calm,
    )

write-count :
    (u : UsbCdc) (bytes : List ℕ)
    → IsValid tx_capacity u.tx
    → (write u bytes).0 ≡ min (length bytes) (tx_capacity - size u.tx)
unfolding write
write-count u bytes valid = (push_lem tx_capacity valid (inl refl) bytes).0

write-calm : (u : UsbCdc) (bytes : List ℕ) → (write u bytes).1.fg_bus_rst ≡ u.fg_bus_rst
unfolding write
write-calm u bytes = refl

-- A round of the loop: what it writes is counted, and it comes nearer to its end.
seam_round-Reached :
    (w : Surroundings) (u : UsbCdc) (x : Progress)
    → IsValid tx_capacity u.tx
    → ((i : ℕ) → (w.events i).reset ≡ false)
    → going x ≡ true
    → Reached w u x
    → let y = seam_round w x in
      Reached w u y × (left y < left x) × (size x.usb.tx + 3 ≤ tx_capacity → y.off ≡ 3)
unfolding seam_round
seam_round-Reached w u x valid quiet go r =
    let bytes = drop x.off seam in
    let n = (write x.usb bytes).0 in
    let v = (write x.usb bytes).1 in
    let e = w.events x.rounds in
    let now_ms = w.millis x.rounds in
    let still = (Runs-stream w.sdk u valid r.runs).1 in
    let count : n ≡ min (3 - x.off) (tx_capacity - size x.usb.tx) =
      write-count x.usb bytes still
      ∙ ap (λ k. min k (tx_capacity - size x.usb.tx)) (length-drop x.off seam) in
    let written = Runs.write_step bytes r.runs in
    let (runs, calm) =
      happen-Runs w.sdk u v e (quiet x.rounds) (write-calm x.usb bytes ∙ r.calm) written in
    let ticked = Runs.tick_step e.status now_ms calm runs in
    let small = r.small in
    (
      record {
        sent = _;
        runs = Runs-cong (take-more x.off n seam) ticked;
        small = omega (arith, count, small);
        calm = tick-calm w.sdk (happen v e) e.status now_ms calm;
      },
      ground (arith, count, small, go),
      λ room. omega (arith, count, small, room),
    )

seam_loop-stopped :
    (w : Surroundings) (fuel : ℕ) (x : Progress) → going x ≡ false → seam_loop w fuel x ≡ x
unfolding seam_loop
seam_loop-stopped w zero x stop = refl
seam_loop-stopped w (suc fuel) x stop = rw (seam_loop, stop) refl

-- With enough fuel the loop comes to its end.
seam_loop-Reached :
    (w : Surroundings) (u : UsbCdc) (fuel : ℕ) (x : Progress)
    → IsValid tx_capacity u.tx
    → ((i : ℕ) → (w.events i).reset ≡ false)
    → left x ≤ fuel
    → Reached w u x
    → let y = seam_loop w fuel x in Reached w u y × (going y ≡ false)
unfolding seam_loop
seam_loop-Reached w u zero x valid quiet enough r =
    let small = r.small in (r, ground (arith, enough, small))
seam_loop-Reached w u (suc fuel) x valid quiet enough r = elim (Bool-cases (going x)) [
  | inl go ↦
      let (next, less, full) = seam_round-Reached w u x valid quiet go r in
      rw (seam_loop, go)
        (seam_loop-Reached w u fuel (seam_round w x) valid quiet (omega (arith, less, enough)) next)
  | inr stop ↦ rw (seam_loop, stop) (r, stop)
]

stopped-why :
    (off guard : ℕ)
    → off ≤ 3
    → (ltb off 3 && ltb guard max_guard) ≡ false
    → (off ≡ 3) ⊎ (max_guard ≤ guard)
stopped-why off guard small stop = ground arith

whole-stops : (x : Progress) → x.off ≡ 3 → going x ≡ false
whole-stops x one = ground arith

-- The seam is written in order behind what the stream had, and with the packets that are sent meanwhile nothing is lost or moved;
-- `p` are the bytes of the packets of the run. The loop ends: either the whole seam is in the stream, or 100000 attempts in a row have found no room. If there is room
-- for three bytes at the start, it is whole. This is for a valid stream, with no bus reset pending and none on the way.
pub write_seam_lem :
    (w : Surroundings) (u : UsbCdc)
    → IsValid tx_capacity u.tx
    → u.fg_bus_rst ≡ false
    → ((i : ℕ) → (w.events i).reset ≡ false)
    → let y = write_seam w u in
      (p : List ℕ) × Runs w.sdk u (take y.off seam) p y.usb
      × (contents tx_capacity u.tx ++ take y.off seam ≡ p ++ contents tx_capacity y.usb.tx)
      × IsValid tx_capacity y.usb.tx
      × ((y.off ≡ 3) ⊎ (max_guard ≤ y.guard))
      × (size u.tx + 3 ≤ tx_capacity → y.off ≡ 3)
unfolding write_seam seam_loop
write_seam_lem w u valid calm quiet =
    let x : Progress = record { off = 0; guard = 0; rounds = 0; usb = u } in
    let start : Reached w u x = record {
      sent = [];
      runs = Runs.here;
      small = omega arith;
      calm = calm;
    } in
    let (r, stop) = seam_loop-Reached w u seam_fuel x valid quiet (omega arith) start in
    let (stream, still) = Runs-stream w.sdk u valid r.runs in
    let (next, less, full) = seam_round-Reached w u x valid quiet refl start in
    (
      r.sent,
      r.runs,
      stream,
      still,
      stopped-why _ _ r.small stop,
      λ room.
          let one = full room in
          let done = whole-stops (seam_round w x) one in
          ap (λ (y : Progress). y.off) (seam_loop-stopped w 400002 (seam_round w x) done) ∙ one,
    )
