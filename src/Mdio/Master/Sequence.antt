-- ===== src/Mdio/Master/Sequence.antt =====
-- src/mdio/mdio_master.cpp: the transactions that one request puts on the wire.
use ch32_tapioca.Prelude.{
  ℕ, ◌+◌, ◌*◌, ◌%◌, ◌<◌, ◌≡◌, ◌∙◌, sym, ap, subst, refl, arith, Bool, true, false, if◌then◌else◌,
  List, [], ◌∷◌,
}
use ch32_tapioca.Prelude.Words.{IsU16}
use ch32_tapioca.Mdio.Master.{tick, is_done, is_mmd_data, start_next_transaction}
use ch32_tapioca.Mdio.Master.Frame.{shown, frame_of}
use ch32_tapioca.Mdio.Slot.{
  Master, done, Step, step_mmd_addr_mode, step_mmd_set_addr, step_mmd_data_mode, step_mmd_data,
  submit, read_mmd, write_mmd,
}
use ch32_tapioca.Mdio.Master.Indirect.{
  Wire, answer, mmd_op, IsAt, to_set_addr, to_data_mode, to_data, to_end, IsAt-wire, begin_mmd,
  tick-first, start_next-shown, tick-shown,
}

-- Each tick of the list comes after an answer of the blob: what the registers show the PIOC then, and the slot after the
-- last tick.
abbrev pub transcript : Master → List (ℕ × ℕ × ℕ) → List (ℕ × ℕ × ℕ) × Master
transcript m [] = ([], m)
transcript m (e ∷ rest) =
    let m' = tick (answer m e.0 e.1) e.2 in let r = transcript m' rest in ((shown m' ∷ r.0), r.1)

-- The indirect access of Annex 22D: select the device, set the address, select the data, transfer.
abbrev pub indirect : Bool → ℕ → ℕ → ℕ → ℕ → List (ℕ × ℕ × ℕ)
indirect is_read phy mmd reg val =
    frame_of false phy 0x0d (mmd % 32)
    ∷ frame_of false phy 0x0e reg
    ∷ frame_of false phy 0x0d (0x4000 + mmd % 32)
    ∷ frame_of is_read phy 0x0e val
    ∷ []

-- What a run shows of an MMD access of the direction `is_read`: what the registers show at each of its transactions, and the
-- slot and the mailbox at its end.
abbrev pub IsIndirect :
    Bool → Master → ℕ → ℕ → ℕ → ℕ → ℕ → ℕ × ℕ × ℕ → ℕ × ℕ × ℕ → ℕ × ℕ × ℕ → ℕ × ℕ × ℕ → Type 0
IsIndirect is_read begun phy mmd reg val at a b c d =
    let r = transcript begun (a ∷ b ∷ c ∷ []) in
    let final = tick (answer r.1 d.0 d.1) d.2 in
    ((shown begun ∷ r.0) ≡ indirect is_read phy mmd reg val)
    × (final.active ≡ false)
    × (final.responses at
        ≡ record { status = done; value = (if is_read then (d.0 * 256 + d.1) % 65536 else 0) })

module _ (is_read : Bool) (mmd reg val at : ℕ) where
  -- A transaction in the middle of a sequence, and the one that follows it.
  follow :
      (m : Master) (phy h l now : ℕ) (step step' : Step) (w w' : Wire)
      → IsAt m is_read mmd reg val at step w
      → is_done step ≡ false
      → is_mmd_data step ≡ false
      → IsAt (tick (answer m h l) now) is_read mmd reg val at step' w'
      → m.phy ≡ phy
      → phy < 32
      → w'.1 < 32
      → IsU16 w'.2
      → let v = tick (answer m h l) now in (shown v ≡ frame_of w'.0 phy w'.1 w'.2) × (v.phy ≡ phy)
  follow m phy h l now step step' w w' (a, s, _, _, _, _, _, st, _, _, _) d x q who p r u =
      tick-shown m phy h l now w' a s (ap is_done st ∙ d) (ap is_mmd_data st ∙ x) q.1
        (IsAt-wire (tick (answer m h l) now) is_read mmd reg val at step' w' q) who p r u

  mmd-IsIndirect :
      (m : Master) (phy now : ℕ) (a b c d : ℕ × ℕ × ℕ)
      → m.active ≡ false
      → phy < 32
      → IsU16 reg
      → IsU16 val
      → IsIndirect is_read
          (tick (submit m (mmd_op is_read) phy mmd reg val at).1 now)
          phy
          mmd
          reg
          val
          at
          a
          b
          c
          d
  mmd-IsIndirect m phy now a b c d free p r u =
      let s = (submit m (mmd_op is_read) phy mmd reg val at).1 in
      let m0 = start_next_transaction s now in
      let m1 = tick s now in
      let m2 = tick (answer m1 a.0 a.1) a.2 in
      let m3 = tick (answer m2 b.0 b.1) b.2 in
      let m4 = tick (answer m3 c.0 c.1) c.2 in
      let w1 : Wire = (false, 0x0d, mmd % 32) in
      let w2 : Wire = (false, 0x0e, reg) in
      let w3 : Wire = (false, 0x0d, (0x4000 + mmd % 32) % 65536) in
      let w4 : Wire = (is_read, 0x0e, val) in
      let (p0, ms, on, off, who0) = begin_mmd is_read m phy mmd reg val at now free in
      let (f0, q0) =
        start_next-shown s now phy w1 p0.1
          (IsAt-wire m0 is_read mmd reg val at step_mmd_addr_mode w1 p0) who0 p (omega arith)
          (omega arith) in
      let z = ap (λ (x : ℕ × ℕ × ℕ). x.1) f0 in
      let e = tick-first s now on off z ms in
      let p1 =
        subst (λ (v : Master). IsAt v is_read mmd reg val at step_mmd_addr_mode w1) (sym e) p0 in
      let q1 = ap (λ (v : Master). v.phy) e ∙ q0 in
      let p2 = to_set_addr is_read m1 mmd reg val at a.0 a.1 a.2 w1 p1 in
      let p3 = to_data_mode is_read m2 mmd reg val at b.0 b.1 b.2 w2 p2 in
      let p4 = to_data is_read m3 mmd reg val at c.0 c.1 c.2 w3 p3 in
      let (f2, q2) =
        follow m1 phy a.0 a.1 a.2 step_mmd_addr_mode step_mmd_set_addr w1 w2 p1 refl refl p2 q1 p
          (omega arith) r in
      let (f3, q3) =
        follow m2 phy b.0 b.1 b.2 step_mmd_set_addr step_mmd_data_mode w2 w3 p2 refl refl p3 q2 p
          (omega arith) (omega arith) in
      let (f4, q4) =
        follow m3 phy c.0 c.1 c.2 step_mmd_data_mode step_mmd_data w3 w4 p3 refl refl p4 q3 p
          (omega arith) u in
      let (active, mailbox) =
        to_end is_read m4 mmd reg val at d.0 d.1 d.2 w4
          (ap (λ (w : Wire). w.0) (IsAt-wire m4 is_read mmd reg val at step_mmd_data w4 p4)) p4 in
      let small : (0x4000 + mmd % 32) % 65536 ≡ 0x4000 + mmd % 32 = omega arith in
      (four (ap shown e ∙ f0) f2 (f3 ∙ ap (frame_of false phy 0x0d) small) f4, active, mailbox)
    where
      four :
          {w1 w2 w3 w4 v1 v2 v3 v4 : ℕ × ℕ × ℕ}
          → w1 ≡ v1
          → w2 ≡ v2
          → w3 ≡ v3
          → w4 ≡ v4
          → (w1 ∷ w2 ∷ w3 ∷ w4 ∷ []) ≡ (v1 ∷ v2 ∷ v3 ∷ v4 ∷ [])
      four a b c d = cc

-- Where the slot is empty and each transaction is answered with OK, `readMmd` hands the PIOC the four frames of the indirect
-- read of Annex 22D, in order, in its command registers, each to the PHY of the request, with the status cleared and
-- the doorbell rung, with the read bit for the last alone; then the mailbox holds the value of the last. This is for a PHY
-- below 32 and a register of 16 bits.
pub read_mmd-transcript :
    (m : Master) (phy mmd reg at now : ℕ) (a b c d : ℕ × ℕ × ℕ)
    → m.active ≡ false
    → phy < 32
    → IsU16 reg
    → IsIndirect true (tick (read_mmd m phy mmd reg at).1 now) phy mmd reg 0 at a b c d
unfolding read_mmd
read_mmd-transcript m phy mmd reg at now a b c d free p r =
    mmd-IsIndirect true mmd reg 0 at m phy now a b c d free p r (omega arith)

-- `writeMmd` hands it the four frames of the indirect write, in order, and the mailbox says done.
write_mmd-transcript :
    (m : Master) (phy mmd reg val at now : ℕ) (a b c d : ℕ × ℕ × ℕ)
    → m.active ≡ false
    → phy < 32
    → IsU16 reg
    → IsU16 val
    → IsIndirect false (tick (write_mmd m phy mmd reg val at).1 now) phy mmd reg val at a b c d
unfolding write_mmd
write_mmd-transcript m phy mmd reg val at now a b c d free p r u =
    mmd-IsIndirect false mmd reg val at m phy now a b c d free p r u
