-- ===== src/Mdio/Master/Mailbox.antt =====
-- src/mdio/mdio_master.cpp: the mailboxes that clients lend.
use ch32_tapioca.Prelude.{
  ℕ, ◌≡◌, ◌≢◌, ap, subst, sym, ◌∙◌, arith, Bool-cases, Option-cases, ==_ne, ==_refl, true, false,
  ◌⊎◌, inl, inr, some,
}
use ch32_tapioca.Mdio.Master.{tick, poll, finish, start_next_transaction}
use ch32_tapioca.Mdio.Slot.{Master, Response, Status, pending, ok, busy, Op, submit}
use ch32_tapioca.Mdio.Master.Steps.{
  start_next-IsKept, poll-IsPolled, tick-running, tick-waiting, tick-empty,
}

clash : true ≡ false → ⊥
clash e = cc

-- A submit into a busy slot is refused and changes nothing, and so neither the pending request nor its mailbox;
-- into an empty slot it is accepted, and the mailbox says pending.
submit_lem :
    (m : Master) (op : Op) (phy mmd reg val at : ℕ)
    → let r = submit m op phy mmd reg val at in
      ((m.active ≡ true) × (r.0 ≡ busy) × (r.1 ≡ m))
      ⊎ ((m.active ≡ false)
          × (r.0 ≡ ok)
          × (r.1.active ≡ true)
          × (r.1.resp ≡ some at)
          × ((r.1.responses at).status ≡ pending))
unfolding submit
submit_lem m op phy mmd reg val at = ground arith

finish-others :
    (m : Master) (status : Status) (value k : ℕ)
    → m.resp ≢ some k
    → (finish m status value).responses k ≡ m.responses k
unfolding finish
finish-others m status value k other = elim (Option-cases m.resp) [
  | inl e ↦ rw (finish, e)
  | inr (at, e) ↦ rw (finish, e, ==_ne k at (λ same. other (e ∙ ap some (sym same))))
]

poll-others : (m : Master) (now k : ℕ) → m.resp ≢ some k → (poll m now).responses k ≡ m.responses k
poll-others m now k other = elim (poll-IsPolled m now) [
  | inl (same, _, _) ↦ ap (λ (r : Master). r.responses k) same
  | inr (inl (status, value, _, ended)) ↦
      ap (λ (r : Master). r.responses k) ended ∙ finish-others m status value k other
  | inr (inr (_, _, next)) ↦
      let (_, _, _, responses) = start_next-IsKept (record m { started = false }) now in
      ap (λ (r : Master). r.responses k) next ∙ ap (λ (f : ℕ → Response). f k) responses
]

-- A tick changes no response but the mailbox of the request in the slot.
tick-others : (m : Master) (now k : ℕ) → m.resp ≢ some k → (tick m now).responses k ≡ m.responses k
tick-others m now k other = elim (Bool-cases m.active) [
  | inr a ↦ ap (λ (r : Master). r.responses k) (tick-empty m now a)
  | inl a ↦ elim (Bool-cases m.started) [
    | inl s ↦
        ap (λ (r : Master). r.responses k) (tick-running m now a s) ∙ poll-others m now k other
    | inr s ↦
        let (_, _, resp, responses) = start_next-IsKept m now in
        ap (λ (r : Master). r.responses k) (tick-waiting m now a s)
        ∙ poll-others (start_next_transaction m now) now k (λ e. other (sym resp ∙ e))
        ∙ ap (λ (f : ℕ → Response). f k) responses
  ]
]

finish-answers :
    (m : Master) (status : Status) (value at : ℕ)
    → m.resp ≡ some at
    → ((finish m status value).responses at).status ≡ status
unfolding finish
finish-answers m status value at e = rw (finish, e, ==_refl at)

poll-answers :
    (m : Master) (now at : ℕ)
    → m.active ≡ true
    → m.resp ≡ some at
    → (poll m now).active ≡ false
    → ((poll m now).responses at).status ≢ pending
poll-answers m now at a r e = elim (poll-IsPolled m now) [
  | inl (same, _, _) ↦ absurd (clash (sym a ∙ ap (λ (s : Master). s.active) (sym same) ∙ e))
  | inr (inl (status, value, final, ended)) ↦ λ p. final (
      sym (finish-answers m status value at r)
      ∙ ap (λ (s : Master). (s.responses at).status) (sym ended)
      ∙ p)
  | inr (inr (_, _, next)) ↦
      let (act, _, _, _) = start_next-IsKept (record m { started = false }) now in
      absurd (clash (sym (act ∙ a) ∙ ap (λ (s : Master). s.active) (sym next) ∙ e))
]

-- When a tick empties an active slot, the mailbox of its request holds the outcome: it no longer says pending.
tick-answers :
    (m : Master) (now at : ℕ)
    → m.active ≡ true
    → m.resp ≡ some at
    → (tick m now).active ≡ false
    → ((tick m now).responses at).status ≢ pending
tick-answers m now at a r e = elim (Bool-cases m.started) [
  | inl s ↦
      let same = tick-running m now a s in
      subst (λ (t : Master). (t.responses at).status ≢ pending) (sym same)
        (poll-answers m now at a r (ap (λ (t : Master). t.active) (sym same) ∙ e))
  | inr s ↦
      let (act, _, resp, _) = start_next-IsKept m now in
      let same = tick-waiting m now a s in
      subst (λ (t : Master). (t.responses at).status ≢ pending) (sym same)
        (poll-answers (start_next_transaction m now) now at (act ∙ a) (resp ∙ r)
          (ap (λ (t : Master). t.active) (sym same) ∙ e))
]
