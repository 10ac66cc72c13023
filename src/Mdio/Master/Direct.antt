-- ===== src/Mdio/Master/Direct.antt =====
-- src/mdio/mdio_master.cpp: the one transaction of a Clause-22 request.
use ch32_tapioca.Prelude.{
  ℕ, ◌+◌, ◌*◌, ◌%◌, ◌≡◌, ◌≢◌, ◌==◌, arith, Bool, true, false, if◌then◌else◌, some, ℕ_discrete,
  ==_ne,
}
use ch32_tapioca.Mdio.Master.Steps.{tick-running}
use ch32_tapioca.Mdio.Master.{
  tick, poll, complete_transaction, finish, start_next_transaction, next_wire, next_mmd,
  start_transaction,
}
use ch32_tapioca.Mdio.Slot.{
  Master, Response, done, no_resp, timeout, Op, op_read, op_write, step_done, submit, read, write,
  dr_status, dr_res_h, dr_res_l, st_ok, st_noresp, put,
}
use ch32_tapioca.Mdio.Master.Indirect.{wire}

-- The Clause-22 requests: one transaction, and the mailbox holds what the blob answered: the value or, for a
-- write, 0, a missing response, or, where the status is neither, a timeout.
abbrev pub outcome : Bool → ℕ → ℕ → ℕ → Response
outcome is_read st h l =
    if st == st_ok
    then (record { status = done; value = (if is_read then (h * 256 + l) % 65536 else 0) })
    else if st == st_noresp
    then (record { status = no_resp; value = 0 })
    else (record { status = timeout; value = 0 })

abbrev pub with_status : Master → ℕ → ℕ → ℕ → Master
with_status m st h l = record m { dr = put (put (put m.dr dr_res_h h) dr_res_l l) dr_status st }

abbrev direct_op : Bool → Op
direct_op true = op_read
direct_op false = op_write

-- A Clause-22 request on the wire.
abbrev IsDirect : Master → Bool → ℕ → ℕ → ℕ → Type 0
IsDirect m is_read reg val at =
    (m.active ≡ true)
    × (m.started ≡ true)
    × (m.op ≡ direct_op is_read)
    × (m.resp ≡ some at)
    × (m.step ≡ step_done)
    × (m.wire_read ≡ is_read)
    × (m.wire_reg ≡ reg % 32)
    × (m.wire_val ≡ val)

begin-IsDirect :
    (is_read : Bool) (m : Master) (phy reg val at now : ℕ)
    → m.active ≡ false
    → IsDirect (tick (submit m (direct_op is_read) phy 0 reg val at).1 now) is_read reg val at
unfolding tick poll complete_transaction finish start_next_transaction next_wire next_mmd
    start_transaction submit
begin-IsDirect true m phy reg val at now free = ground arith
begin-IsDirect false m phy reg val at now free = ground arith

end_ok :
    (is_read : Bool) (m : Master) (reg val at h l now : ℕ)
    → IsDirect m is_read reg val at
    → let r = poll (with_status m st_ok h l) now in
      (r.active ≡ false)
      × (r.responses at
          ≡ record { status = done; value = (if is_read then (h * 256 + l) % 65536 else 0) })
unfolding poll complete_transaction finish
end_ok true m reg val at h l now d = ground arith
end_ok false m reg val at h l now d = ground arith

end_noresp :
    (is_read : Bool) (m : Master) (reg val at h l now : ℕ)
    → IsDirect m is_read reg val at
    → let r = poll (with_status m st_noresp h l) now in
      (r.active ≡ false) × (r.responses at ≡ record { status = no_resp; value = 0 })
unfolding poll complete_transaction finish
end_noresp is_read m reg val at h l now d = ground arith

end_other :
    (is_read : Bool) (m : Master) (reg val at st h l now : ℕ)
    → IsDirect m is_read reg val at
    → st ≢ 0
    → st ≢ st_noresp
    → st ≢ st_ok
    → let r = poll (with_status m st h l) now in
      (r.active ≡ false) × (r.responses at ≡ record { status = timeout; value = 0 })
unfolding poll complete_transaction finish
end_other is_read m reg val at st h l now d z n o = ground arith

end-IsDirect :
    (is_read : Bool) (m : Master) (reg val at st h l now : ℕ)
    → IsDirect m is_read reg val at
    → st ≢ 0
    → let r = poll (with_status m st h l) now in
      (r.active ≡ false) × (r.responses at ≡ outcome is_read st h l)
end-IsDirect is_read m reg val at st h l now d z = elim (ℕ_discrete st st_ok) [
  | yes e ↦ rw e (end_ok is_read m reg val at h l now d)
  | no o ↦ elim (ℕ_discrete st st_noresp) [
    | yes e ↦ rw e (end_noresp is_read m reg val at h l now d)
    | no n ↦
        rw (==_ne st st_ok o, ==_ne st st_noresp n)
          (end_other is_read m reg val at st h l now d z n o)
  ]
]

IsDirect-wire :
    (m : Master) (is_read : Bool) (reg val at : ℕ)
    → IsDirect m is_read reg val at
    → wire m ≡ (is_read, reg % 32, val)
IsDirect-wire m is_read reg val at (_, _, _, _, _, a, b, c) = cc

direct-outcome :
    (is_read : Bool) (m : Master) (phy reg val at now st h l later : ℕ)
    → m.active ≡ false
    → st ≢ 0
    → let begun = tick (submit m (direct_op is_read) phy 0 reg val at).1 now in
      let final = tick (with_status begun st h l) later in
      (wire begun ≡ (is_read, reg % 32, val))
      × (final.active ≡ false)
      × (final.responses at ≡ outcome is_read st h l)
direct-outcome is_read m phy reg val at now st h l later free z =
    let begun = tick (submit m (direct_op is_read) phy 0 reg val at).1 now in
    let d = begin-IsDirect is_read m phy reg val at now free in
    let (act, run, op, resp, step, w1, w2, w3) = d in
    let (stopped, out) = end-IsDirect is_read begun reg val at st h l later d z in
    rw (tick-running (with_status begun st h l) later act run)
      (IsDirect-wire begun is_read reg val at d, stopped, out)

-- A `read` submitted to an empty slot puts one read of the register on the wire; the next tick, after the blob
-- has left a status other than 0, empties the slot, and the mailbox holds what the status stands for: the
-- value, a missing response, or a timeout.
pub read-outcome :
    (m : Master) (phy reg at now st h l later : ℕ)
    → m.active ≡ false
    → st ≢ 0
    → let begun = tick (read m phy reg at).1 now in
      let final = tick (with_status begun st h l) later in
      (wire begun ≡ (true, reg % 32, 0))
      × (final.active ≡ false)
      × (final.responses at ≡ outcome true st h l)
unfolding read
read-outcome m phy reg at now st h l later free z =
    direct-outcome true m phy reg 0 at now st h l later free z

pub write-outcome :
    (m : Master) (phy reg val at now st h l later : ℕ)
    → m.active ≡ false
    → st ≢ 0
    → let begun = tick (write m phy reg val at).1 now in
      let final = tick (with_status begun st h l) later in
      (wire begun ≡ (false, reg % 32, val))
      × (final.active ≡ false)
      × (final.responses at ≡ outcome false st h l)
unfolding write
write-outcome m phy reg val at now st h l later free z =
    direct-outcome false m phy reg val at now st h l later free z
