-- ===== src/Mdio/Master/Life.antt =====
-- src/mdio/mdio_master.cpp: the slot stays valid, and a request that is on the wire ends.
use ch32_tapioca.Prelude.{
  ℕ, ◌≤◌, ◌<◌, ◌≡◌, ◌≢◌, refl, ap, subst, sym, ◌∙◌, arith, true, false, ◌⊎◌, inl, inr, List, [],
  ◌∷◌, All, length,
}
use ch32_tapioca.Prelude.Words.{sub32}
use ch32_tapioca.Mdio.Master.{tick, poll, finish, start_next_transaction, is_done, is_mmd_data}
use ch32_tapioca.Mdio.Slot.{
  Master, Response, Status, Op, op_read, op_write, op_read_mmd, op_write_mmd, Step, step_start,
  step_mmd_addr_mode, step_mmd_set_addr, step_mmd_data_mode, step_mmd_data, step_done, submit,
  dr_status, mdio_timeout_ms,
}
use ch32_tapioca.Mdio.Master.Steps.{
  rank, OnWire, IsMailbox, IsValid, IsDue, start_next-IsKept, start_next-IsNext, poll-IsPolled,
  tick-running, tick-waiting, tick-empty,
}

pub submit-IsValid :
    (m : Master) (op : Op) (phy mmd reg val at : ℕ)
    → IsValid m
    → IsValid (submit m op phy mmd reg val at).1
unfolding submit
submit-IsValid m op phy mmd reg val at v = ground arith

-- A property that the empty slot, the end of a request and its continuation keep, for a transaction
-- on the wire.
abbrev pub IsRunning : Master → Type 0
IsRunning m = (m.active ≡ true) × (m.started ≡ true) × OnWire m.op m.step × IsMailbox m

pub IsDue-after :
    (op : Op) (step : Step)
    → OnWire op step
    → is_done step ≡ false
    → is_mmd_data step ≡ false
    → IsDue op step
IsDue-after op_read step_start w d e = ground arith
IsDue-after op_read step_mmd_addr_mode w d e = ground arith
IsDue-after op_read step_mmd_set_addr w d e = ground arith
IsDue-after op_read step_mmd_data_mode w d e = ground arith
IsDue-after op_read step_mmd_data w d e = ground arith
IsDue-after op_read step_done w d e = ground arith
IsDue-after op_write step_start w d e = ground arith
IsDue-after op_write step_mmd_addr_mode w d e = ground arith
IsDue-after op_write step_mmd_set_addr w d e = ground arith
IsDue-after op_write step_mmd_data_mode w d e = ground arith
IsDue-after op_write step_mmd_data w d e = ground arith
IsDue-after op_write step_done w d e = ground arith
IsDue-after op_read_mmd step_start w d e = ground arith
IsDue-after op_read_mmd step_mmd_addr_mode w d e = tt
IsDue-after op_read_mmd step_mmd_set_addr w d e = tt
IsDue-after op_read_mmd step_mmd_data_mode w d e = tt
IsDue-after op_read_mmd step_mmd_data w d e = ground arith
IsDue-after op_read_mmd step_done w d e = ground arith
IsDue-after op_write_mmd step_start w d e = ground arith
IsDue-after op_write_mmd step_mmd_addr_mode w d e = tt
IsDue-after op_write_mmd step_mmd_set_addr w d e = tt
IsDue-after op_write_mmd step_mmd_data_mode w d e = tt
IsDue-after op_write_mmd step_mmd_data w d e = ground arith
IsDue-after op_write_mmd step_done w d e = ground arith

-- The next transaction of a running request, or the first of a waiting one.
start_next-IsRunning :
    (m : Master) (now : ℕ)
    → m.active ≡ true
    → IsDue m.op m.step
    → IsMailbox m
    → IsRunning (start_next_transaction m now)
start_next-IsRunning m now a due (at, here, status) =
    let (act, op, resp, responses) = start_next-IsKept m now in
    let (run, wire, less) = start_next-IsNext m now due in
    (
      act ∙ a,
      run,
      wire,
      (at, resp ∙ here, ap (λ (f : ℕ → Response). (f at).status) responses ∙ status),
    )

IsRunning-IsValid : (m : Master) → IsRunning m → IsValid m
IsRunning-IsValid m r = inr (inr r)

finish-IsValid : (m : Master) (status : Status) (value : ℕ) → IsValid (finish m status value)
unfolding finish
finish-IsValid m status value = inl (refl, refl, refl)

poll-IsValid : (m : Master) (now : ℕ) → IsRunning m → IsValid (poll m now)
poll-IsValid m now r = elim (poll-IsPolled m now) [
  | inl (same, _, _) ↦ subst IsValid (sym same) (inr (inr r))
  | inr (inl (status, value, _, ended)) ↦ subst IsValid (sym ended) (finish-IsValid m status value)
  | inr (inr (d, e, next)) ↦
      let (act, run, wire, mailbox) = r in
      let m' = record m { started = false } in
      subst IsValid (sym next) (
        IsRunning-IsValid (start_next_transaction m' now)
          (start_next-IsRunning m' now act (IsDue-after m.op m.step wire d e) mailbox))
]

-- A tick keeps the slot valid, whatever the registers hold: empty with no mailbox, or waiting for its first
-- transaction, or with a transaction on the wire whose step fits the operation, in the last two cases with a
-- mailbox that says pending.
pub tick-IsValid : (m : Master) (now : ℕ) → IsValid m → IsValid (tick m now)
tick-IsValid m now v = elim v [
  | inl (act, wait, none_at) ↦ subst IsValid (sym (tick-empty m now act)) (inl (act, wait, none_at))
  | inr (inl (act, wait, step, mailbox)) ↦
      let due = subst (λ s. IsDue m.op s) (sym step) (start_due m.op) in
      subst IsValid (sym (tick-waiting m now act wait)) (
        poll-IsValid (start_next_transaction m now) now
          (start_next-IsRunning m now act due mailbox))
  | inr (inr (act, run, wire, mailbox)) ↦
      subst IsValid (sym (tick-running m now act run))
        (poll-IsValid m now (act, run, wire, mailbox))
]
  where
    start_due : (op : Op) → IsDue op step_start
    start_due op_read = tt
    start_due op_write = tt
    start_due op_read_mmd = tt
    start_due op_write_mmd = tt

clash : true ≡ false → ⊥
clash e = cc

to_IsRunning : (m : Master) → IsValid m → m.started ≡ true → IsRunning m
to_IsRunning m v s = elim v [
  | inl (_, wait, _) ↦ absurd (clash (sym s ∙ wait))
  | inr (inl (_, wait, _, _)) ↦ absurd (clash (sym s ∙ wait))
  | inr (inr running) ↦ running
]

no_start : (op : Op) → OnWire op step_start → ⊥
no_start op_read w = w
no_start op_write w = w
no_start op_read_mmd w = w
no_start op_write_mmd w = w

pub tick-progress :
    (m : Master) (now : ℕ)
    → IsValid m
    → m.started ≡ true
    → (m.dr dr_status ≢ 0) ⊎ (mdio_timeout_ms < sub32 now m.started_ms)
    → ((tick m now).active ≡ false)
      ⊎ (((tick m now).started ≡ true)
          × (rank (tick m now).op (tick m now).step < rank m.op m.step))
unfolding finish
tick-progress m now v s decisive =
    let (act, run, wire, mailbox) = to_IsRunning m v s in
    rw (tick-running m now act run) elim (poll-IsPolled m now) [
      | inl (_, zero, early) ↦ elim decisive [
        | inl answered ↦ absurd (answered zero)
        | inr late ↦ absurd (omega arith)
      ]
      | inr (inl (status, value, _, ended)) ↦ inl (ap (λ (r : Master). r.active) ended)
      | inr (inr (d, e, next)) ↦
          let m' : Master = record m { started = false } in
          let (going, _, less) = start_next-IsNext m' now (IsDue-after m.op m.step wire d e) in
          inr (
            subst (λ (r : Master). (r.started ≡ true) × (rank r.op r.step < rank m.op m.step))
              (sym next)
              (
                going,
                elim less [
                  | inl at_start ↦ absurd (no_start m.op (subst (OnWire m.op) at_start wire))
                  | inr smaller ↦ smaller
                ],
              ))
    ]

pub rank-OnWire : (m : Master) → IsValid m → m.started ≡ true → 0 < rank m.op m.step
rank-OnWire m v s = ground arith

-- A run: before each tick the blob has left some contents in the registers.
abbrev pub drive : Master → List ((ℕ → ℕ) × ℕ) → Master
drive m [] = m
drive m (e ∷ es) = drive (tick (record m { dr = e.0 }) e.1) es

IsValid-dr : (m : Master) (dr : ℕ → ℕ) → IsValid m → IsValid (record m { dr = dr })
IsValid-dr m dr v = v

tick-idle : (m : Master) (now : ℕ) → m.active ≡ false → (tick m now).active ≡ false
unfolding tick
tick-idle m now a = ground arith

idle-drive : (m : Master) (es : List ((ℕ → ℕ) × ℕ)) → m.active ≡ false → (drive m es).active ≡ false
idle-drive m [] a = a
idle-drive m (e ∷ es) a =
    idle-drive (tick (record m { dr = e.0 }) e.1) es (tick-idle (record m { dr = e.0 }) e.1 a)

-- A request on the wire of a valid slot ends: when before each tick the blob has left a status other than 0,
-- whichever it is, the slot is empty after as many ticks as the request still needs transactions, or more.
pub drive-ends :
    (m : Master) (es : List ((ℕ → ℕ) × ℕ))
    → IsValid m
    → m.started ≡ true
    → All (λ e. e.0 dr_status ≢ 0) es
    → rank m.op m.step ≤ length es
    → (drive m es).active ≡ false
drive-ends m [] v s answers long = absurd (omega (arith, rank-OnWire m v s))
drive-ends m (e ∷ es) v s answers long =
    elim (tick-progress (record m { dr = e.0 }) e.1 v s (inl answers.0)) [
      | inl stopped ↦ idle-drive (tick (record m { dr = e.0 }) e.1) es stopped
      | inr (started, less) ↦
          drive-ends (tick (record m { dr = e.0 }) e.1) es
            (tick-IsValid (record m { dr = e.0 }) e.1 v) started answers.1 (omega arith)
    ]
