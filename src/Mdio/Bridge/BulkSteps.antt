-- ===== src/Mdio/Bridge/BulkSteps.antt =====
-- src/mdio/mdio_bridge.cpp: one register of a bulk read.
use ch32_tapioca.Prelude.{
  ℕ, suc, ◌+◌, ◌<◌, ◌≡◌, ◌≢◌, refl, ap, ap₂, arith, Bool, true, false, ◌&&◌, List, [], ◌∷◌, ◌++◌,
  none, some, ltb, if◌then◌else◌, inl, inr, Bool-cases, ◌∙◌,
}
use ch32_tapioca.Prelude.Words.{to_u8}
use ch32_tapioca.Mdio.Slot.{Master, Response, pending, read, submit, put}
use ch32_tapioca.Mdio.Bridge.Command.{verb_read, verb_print, Command, parse}
use ch32_tapioca.Mdio.Bridge.Session.{
  Reply, Bridge, mailbox, status_of, is_done, clause22, start_read, emit_active_response,
  take_response, poll_next, poll_response, run_print, run_command, handle_line, blink, blink_ok,
  blink_bad,
}
use ch32_tapioca.Mdio.Bridge.Replies.{reply_for}

-- The master has finished the request with an outcome; then the bridge polls.
abbrev pub served : Bridge → Response → Bridge
served b r = poll_response (record b {
  mdio = record b.mdio {
    active = false;
    started = false;
    resp = none;
    responses = put b.mdio.responses mailbox r;
  };
})

abbrev pub serve_all : Bridge → List Response → Bridge
serve_all b [] = b
serve_all b (r ∷ rs) = serve_all (served b r) rs

-- The replies of the registers from `reg` on.
abbrev pub bulk_replies : ℕ → ℕ → List Response → List Reply
bulk_replies phy reg [] = []
bulk_replies phy reg (r ∷ rs) =
    reply_for (clause22 verb_read phy reg) r ∷ bulk_replies phy (suc reg) rs

abbrev pub all_done : List Response → Bool
all_done [] = true
all_done (r ∷ rs) = is_done r.status && all_done rs

-- The bulk read waits for register `reg`.
abbrev pub IsBulk : Bridge → ℕ → ℕ → Type 0
IsBulk b phy reg =
    (b.print_active ≡ true)
    × (b.is_pending ≡ true)
    × (b.print_phy ≡ phy)
    × (b.active ≡ clause22 verb_read phy reg)
    × (b.print_next_reg ≡ suc reg)

pub take_response-bulk :
    (b : Bridge)
    → b.print_active ≡ true
    → b.is_pending ≡ true
    → status_of b ≢ pending
    → let r = take_response b in
      (r.print_active ≡ true)
      × (r.is_pending ≡ false)
      × (r.print_phy ≡ b.print_phy)
      × (r.print_next_reg ≡ b.print_next_reg)
      × (r.mdio ≡ b.mdio)
      × (r.has_led ≡ b.has_led)
      × (r.blinks ≡ b.blinks)
      × (r.print_all_ok ≡ (b.print_all_ok && is_done (status_of b)))
      × (r.replies ≡ b.replies ++ reply_for b.active (b.mdio.responses mailbox) ∷ [])
unfolding take_response emit_active_response
take_response-bulk b p q s = ground arith

poll_next-reads :
    (b : Bridge)
    → b.print_active ≡ true
    → b.is_pending ≡ false
    → b.mdio.active ≡ false
    → b.print_next_reg < 32
    → let r = poll_next b in
      (r.print_active ≡ true)
      × (r.is_pending ≡ true)
      × (r.print_phy ≡ b.print_phy)
      × (r.active ≡ clause22 verb_read b.print_phy b.print_next_reg)
      × (r.print_next_reg ≡ suc b.print_next_reg)
      × (r.has_led ≡ b.has_led)
      × (r.blinks ≡ b.blinks)
      × (r.print_all_ok ≡ b.print_all_ok)
      × (r.replies ≡ b.replies)
unfolding poll_next start_read read submit
poll_next-reads b p q free small =
    let go : ltb b.print_next_reg 32 ≡ true = ground arith in
    let next : to_u8 (b.print_next_reg + 1) ≡ suc b.print_next_reg = omega arith in
    rw (p, q, free, go, next) (refl, refl, refl, refl, refl, refl, refl, refl, refl)

pub poll_next-ends :
    (b : Bridge)
    → b.print_active ≡ true
    → b.is_pending ≡ false
    → b.print_next_reg ≡ 32
    → let r = poll_next b in
      (r.print_active ≡ false)
      × (r.is_pending ≡ false)
      × (r.replies ≡ b.replies)
      × (r.blinks ≡ (
          if b.has_led
          then b.blinks ++ (if b.print_all_ok then (50, 50) else (500, 100)) ∷ []
          else b.blinks))
unfolding poll_next start_read read submit blink_ok blink_bad blink
poll_next-ends b p q e = elim (Bool-cases b.print_all_ok) [
  | inl a ↦ elim (Bool-cases b.has_led) [
    | inl l ↦ rw (p, q, e, a, l) (refl, refl, refl, refl)
    | inr l ↦ rw (p, q, e, a, l) (refl, refl, refl, refl)
  ]
  | inr a ↦ elim (Bool-cases b.has_led) [
    | inl l ↦ rw (p, q, e, a, l) (refl, refl, refl, refl)
    | inr l ↦ rw (p, q, e, a, l) (refl, refl, refl, refl)
  ]
]

-- The bridge when the master has the outcome and before the poll.
abbrev pub finished : Bridge → Response → Bridge
finished b r = record b {
  mdio = record b.mdio {
    active = false;
    started = false;
    resp = none;
    responses = put b.mdio.responses mailbox r;
  };
}

pub and_true : (x : Bool) → (x && true) ≡ x
and_true true = refl
and_true false = refl

pub and_assoc : (x y z : Bool) → ((x && y) && z) ≡ (x && (y && z))
and_assoc true y z = refl
and_assoc false y z = refl

pub to_print :
    (b : Bridge) (line : List ℕ) (c : Command)
    → parse line ≡ some c
    → c.op ≡ verb_print
    → handle_line b line ≡ run_print b c
unfolding handle_line run_command
to_print b line c e v = rw (e, handle_line, v)

pub served-IsBulk :
    (b : Bridge) (phy reg : ℕ) (r : Response)
    → IsBulk b phy reg
    → suc reg < 32
    → r.status ≢ pending
    → IsBulk (served b r) phy (suc reg)
      × ((served b r).replies ≡ b.replies ++ reply_for (clause22 verb_read phy reg) r ∷ [])
      × ((served b r).print_all_ok ≡ (b.print_all_ok && is_done r.status))
      × ((served b r).blinks ≡ b.blinks)
      × ((served b r).has_led ≡ b.has_led)
unfolding poll_response
served-IsBulk b phy reg r (p, q, at, act, next) small f =
    let t = take_response (finished b r) in
    let (t1, t2, t3, t4, t5, t6, t7, t8, t9) = take_response-bulk (finished b r) p q f in
    let here : t.print_next_reg ≡ suc reg = t4 ∙ next in
    let (n1, n2, n3, n4, n5, n6, n7, n8, n9) =
      poll_next-reads t t1 t2 (ap (λ (m : Master). m.active) t5) (omega arith) in
    (
      (n1, n2, n3 ∙ t3 ∙ at, n4 ∙ ap₂ (clause22 verb_read) (t3 ∙ at) here, n5 ∙ ap suc here),
      n9 ∙ t9 ∙ ap (λ a. b.replies ++ reply_for a r ∷ []) act,
      n8 ∙ t8,
      n7 ∙ t7,
      n6 ∙ t6,
    )
