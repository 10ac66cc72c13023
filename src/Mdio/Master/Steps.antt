-- ===== src/Mdio/Master/Steps.antt =====
-- src/mdio/mdio_master.cpp: when a slot is valid, and what `tick` does with it by cases.
use ch32_tapioca.Prelude.{
  ℕ, ◌≤◌, ◌<◌, ◌≡◌, ◌≢◌, refl, ap, subst, sym, ◌∙◌, arith, Bool-cases, if-true, if-false, true,
  false, ◌&&◌, not, ◌==◌, ltb, if◌then◌else◌, ◌⊎◌, inl, inr, none, some,
}
use ch32_tapioca.Prelude.Words.{sub32}
use ch32_tapioca.Mdio.Master.{
  tick, poll, complete_transaction, finish, start_next_transaction, next_wire, next_mmd, is_done,
  is_mmd, is_mmd_data, is_read_mmd, start_transaction,
}
use ch32_tapioca.Mdio.Slot.{
  Master, Status, idle, done, no_resp, timeout, pending, Op, op_read, op_write, op_read_mmd,
  op_write_mmd, Step, step_start, step_mmd_addr_mode, step_mmd_set_addr, step_mmd_data_mode,
  step_mmd_data, step_done, st_noresp, st_ok, dr_status, mdio_timeout_ms,
}

-- The transactions that a request may still need, the one on the wire included.
abbrev pub rank : Op → Step → ℕ
rank op_read s = 1
rank op_write s = 1
rank _ step_start = 5
rank _ step_mmd_addr_mode = 4
rank _ step_mmd_set_addr = 3
rank _ step_mmd_data_mode = 2
rank _ step_mmd_data = 1
rank _ step_done = 0

-- The step fits the operation while a transaction is on the wire.
abbrev pub OnWire : Op → Step → Type 0
OnWire op_read step_done = Unit {0}
OnWire op_write step_done = Unit {0}
OnWire op_read_mmd step_mmd_addr_mode = Unit {0}
OnWire op_read_mmd step_mmd_set_addr = Unit {0}
OnWire op_read_mmd step_mmd_data_mode = Unit {0}
OnWire op_read_mmd step_mmd_data = Unit {0}
OnWire op_write_mmd step_mmd_addr_mode = Unit {0}
OnWire op_write_mmd step_mmd_set_addr = Unit {0}
OnWire op_write_mmd step_mmd_data_mode = Unit {0}
OnWire op_write_mmd step_mmd_data = Unit {0}
OnWire _ _ = ⊥

abbrev pub IsMailbox : Master → Type 0
IsMailbox m = (at : ℕ) × (m.resp ≡ some at) × ((m.responses at).status ≡ pending)

-- The slot is empty; or a request waits for its first transaction; or a transaction is on the wire. In the
-- last two cases there is a mailbox, and it says that the request is pending.
abbrev pub IsValid : Master → Type 0
IsValid m =
    ((m.active ≡ false) × (m.started ≡ false) × (m.resp ≡ none))
    ⊎ ((m.active ≡ true) × (m.started ≡ false) × (m.step ≡ step_start) × IsMailbox m)
    ⊎ ((m.active ≡ true) × (m.started ≡ true) × OnWire m.op m.step × IsMailbox m)

-- What the steps of the sequence leave alone.
abbrev pub IsKept : Master → Master → Type 0
IsKept m r = (r.active ≡ m.active) × (r.op ≡ m.op) × (r.resp ≡ m.resp) × (r.responses ≡ m.responses)

next_mmd-IsKept : (m : Master) (s : Step) → IsKept m (next_mmd m s)
unfolding next_mmd
next_mmd-IsKept m step_start = (refl, refl, refl, refl)
next_mmd-IsKept m step_mmd_addr_mode = (refl, refl, refl, refl)
next_mmd-IsKept m step_mmd_set_addr = (refl, refl, refl, refl)
next_mmd-IsKept m step_mmd_data_mode = (refl, refl, refl, refl)
next_mmd-IsKept m step_mmd_data = (refl, refl, refl, refl)
next_mmd-IsKept m step_done = (refl, refl, refl, refl)

next_wire-IsKept : (m : Master) (op : Op) → IsKept m (next_wire m op)
unfolding next_wire
next_wire-IsKept m op_read = (refl, refl, refl, refl)
next_wire-IsKept m op_write = (refl, refl, refl, refl)
next_wire-IsKept m op_read_mmd = next_mmd-IsKept m m.step
next_wire-IsKept m op_write_mmd = next_mmd-IsKept m m.step

pub start_next-IsKept : (m : Master) (now : ℕ) → IsKept m (start_next_transaction m now)
unfolding start_next_transaction start_transaction
start_next-IsKept m now =
    let w = next_wire (record m { started = false }) m.op in
    let kept = next_wire-IsKept (record m { started = false }) m.op in
    elim (Bool-cases (is_done w.step && is_mmd w.op)) [
      | inl e ↦ rw (start_next_transaction, e) kept
      | inr e ↦ rw (start_next_transaction, e) kept
    ]

-- A further transaction is due.
abbrev pub IsDue : Op → Step → Type 0
IsDue _ step_start = Unit {0}
IsDue op_read_mmd step_mmd_addr_mode = Unit {0}
IsDue op_read_mmd step_mmd_set_addr = Unit {0}
IsDue op_read_mmd step_mmd_data_mode = Unit {0}
IsDue op_write_mmd step_mmd_addr_mode = Unit {0}
IsDue op_write_mmd step_mmd_set_addr = Unit {0}
IsDue op_write_mmd step_mmd_data_mode = Unit {0}
IsDue _ _ = ⊥

-- The next transaction is on the wire, and the request needs no more of them than before.
abbrev IsNext : Op → Step → Master → Type 0
IsNext op step w =
    (is_done w.step && is_mmd op ≡ false)
    × OnWire op w.step
    × ((step ≡ step_start) ⊎ (rank op w.step < rank op step))

next_wire-IsNext :
    (m : Master) (op : Op) (step : Step)
    → m.step ≡ step
    → IsDue op step
    → IsNext op step (next_wire m op)
unfolding next_wire next_mmd
next_wire-IsNext m op_read step_start e d = (refl, tt, inl refl)
next_wire-IsNext m op_write step_start e d = (refl, tt, inl refl)
next_wire-IsNext m op_read_mmd step_start e d = rw e (refl, tt, inl refl)
next_wire-IsNext m op_read_mmd step_mmd_addr_mode e d = rw e (refl, tt, inr (omega arith))
next_wire-IsNext m op_read_mmd step_mmd_set_addr e d = rw e (refl, tt, inr (omega arith))
next_wire-IsNext m op_read_mmd step_mmd_data_mode e d = rw e (refl, tt, inr (omega arith))
next_wire-IsNext m op_write_mmd step_start e d = rw e (refl, tt, inl refl)
next_wire-IsNext m op_write_mmd step_mmd_addr_mode e d = rw e (refl, tt, inr (omega arith))
next_wire-IsNext m op_write_mmd step_mmd_set_addr e d = rw e (refl, tt, inr (omega arith))
next_wire-IsNext m op_write_mmd step_mmd_data_mode e d = rw e (refl, tt, inr (omega arith))
next_wire-IsNext m op_read step_mmd_addr_mode e d = absurd d
next_wire-IsNext m op_read step_mmd_set_addr e d = absurd d
next_wire-IsNext m op_read step_mmd_data_mode e d = absurd d
next_wire-IsNext m op_read step_mmd_data e d = absurd d
next_wire-IsNext m op_read step_done e d = absurd d
next_wire-IsNext m op_write step_mmd_addr_mode e d = absurd d
next_wire-IsNext m op_write step_mmd_set_addr e d = absurd d
next_wire-IsNext m op_write step_mmd_data_mode e d = absurd d
next_wire-IsNext m op_write step_mmd_data e d = absurd d
next_wire-IsNext m op_write step_done e d = absurd d
next_wire-IsNext m op_read_mmd step_mmd_data e d = absurd d
next_wire-IsNext m op_read_mmd step_done e d = absurd d
next_wire-IsNext m op_write_mmd step_mmd_data e d = absurd d
next_wire-IsNext m op_write_mmd step_done e d = absurd d

pub start_next-IsNext :
    (m : Master) (now : ℕ)
    → IsDue m.op m.step
    → let r = start_next_transaction m now in
      (r.started ≡ true)
      × OnWire r.op r.step
      × ((m.step ≡ step_start) ⊎ (rank r.op r.step < rank m.op m.step))
unfolding start_transaction start_next_transaction
start_next-IsNext m now due =
    let m' = record m { started = false } in
    let w = next_wire m' m.op in
    let (more, wire, less) = next_wire-IsNext m' m.op m.step refl due in
    let (_, op, _, _) = next_wire-IsKept m' m.op in
    let go : is_done w.step && is_mmd w.op ≡ false =
      ap (λ o. is_done w.step && is_mmd o) op ∙ more in
    rw (start_next_transaction, go)
      (
        refl,
        subst (λ o. OnWire o w.step) (sym op) wire,
        subst (λ o. (m.step ≡ step_start) ⊎ (rank o w.step < rank m.op m.step)) (sym op) less,
      )

-- What a poll does: nothing while the status is 0 and the time is not over; or it ends the request; or
-- it starts the next transaction.
abbrev pub IsPolled : Master → ℕ → Master → Type 0
IsPolled m now r =
    ((r ≡ m) × (m.dr dr_status ≡ 0) × (sub32 now m.started_ms ≤ mdio_timeout_ms))
    ⊎ ((status : Status) × (value : ℕ) × (status ≢ pending) × (r ≡ finish m status value))
    ⊎ ((is_done m.step ≡ false)
        × (is_mmd_data m.step ≡ false)
        × (r ≡ start_next_transaction (record m { started = false }) now))

complete-IsPolled :
    (m : Master) (now : ℕ) (status : Status) (value : ℕ)
    → status ≢ pending
    → IsPolled m now (complete_transaction m now status value)
unfolding finish complete_transaction
complete-IsPolled m now idle value p = inr (inl (idle, 0, p, refl))
complete-IsPolled m now pending value p = absurd (p refl)
complete-IsPolled m now no_resp value p = inr (inl (no_resp, 0, p, refl))
complete-IsPolled m now timeout value p = inr (inl (timeout, 0, p, refl))
complete-IsPolled m now done value p = elim (Bool-cases (is_done m.step)) [
  | inl last ↦ inr (inl (done, value, p, rw (complete_transaction, last)))
  | inr more ↦ elim (Bool-cases (is_mmd_data m.step)) [
    | inl last ↦ inr (
        inl
          (done, (if is_read_mmd m.op then value else 0), p, rw (complete_transaction, more, last)))
    | inr more' ↦ inr (inr (more, more', rw (complete_transaction, more, more')))
  ]
]

pub poll-IsPolled : (m : Master) (now : ℕ) → IsPolled m now (poll m now)
unfolding poll
poll-IsPolled m now = elim (Bool-cases (m.dr dr_status == 0)) [
  | inl none_yet ↦
      let zero : m.dr dr_status ≡ 0 = ground arith in
      elim (Bool-cases (ltb mdio_timeout_ms (sub32 now m.started_ms))) [
        | inl over ↦ inr (inl (timeout, 0, (λ e. cc), rw (poll, none_yet, over)))
        | inr within ↦ inl (rw (poll, none_yet, within), zero, ground arith)
      ]
  | inr some_status ↦ elim (Bool-cases (m.dr dr_status == st_noresp)) [
    | inl bad ↦ rw (poll, some_status, bad) (complete-IsPolled m now no_resp 0 (λ e. cc))
    | inr other ↦ elim (Bool-cases (m.dr dr_status == st_ok)) [
      | inl good ↦ rw (poll, some_status, other, good) (complete-IsPolled m now done _ (λ e. cc))
      | inr bad ↦ rw (poll, some_status, other, bad) (complete-IsPolled m now timeout 0 (λ e. cc))
    ]
  ]
]

pub tick-running :
    (m : Master) (now : ℕ) → m.active ≡ true → m.started ≡ true → tick m now ≡ poll m now
unfolding tick
tick-running m now a s = if-false _ _ (ap not a) ∙ ap (λ x. poll x now) (if-true _ _ s)

pub tick-waiting :
    (m : Master) (now : ℕ)
    → m.active ≡ true
    → m.started ≡ false
    → tick m now ≡ poll (start_next_transaction m now) now
unfolding tick
tick-waiting m now a s = if-false _ _ (ap not a) ∙ ap (λ x. poll x now) (if-false _ _ s)

pub tick-empty : (m : Master) (now : ℕ) → m.active ≡ false → tick m now ≡ m
unfolding tick
tick-empty m now a = if-true _ _ (ap not a)
