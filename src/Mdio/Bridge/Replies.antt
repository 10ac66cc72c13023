-- ===== src/Mdio/Bridge/Replies.antt =====
-- src/mdio/mdio_bridge.cpp: each accepted command has its reply, and a refused one is answered at once.
use ch32_tapioca.Prelude.{
  ℕ, ◌<◌, ◌≡◌, ◌≢◌, refl, arith, Bool, true, false, List, [], ◌∷◌, ◌++◌, none, some, if◌then◌else◌,
  ◌⊎◌, subst, sym,
}
use ch32_tapioca.Prelude.Words.{to_u8}
use ch32_tapioca.Mdio.Slot.{Master, Response, pending, read, write, read_mmd, write_mmd, submit}
use ch32_tapioca.Mdio.Master
use ch32_tapioca.Mdio.Master.Direct.{with_status, outcome, read-outcome}
use ch32_tapioca.Mdio.Bridge.Command.{Verb, verb_read, verb_write, verb_print, Command, parse}
use ch32_tapioca.Mdio.Bridge.Grammar.{IsCommand, IsAddress, parse-IsCommand}
use ch32_tapioca.Mdio.Bridge.Session.{
  err_busy, Target, Reply, value, write_ok, error, err_invalid, Bridge, mailbox, status_of,
  status_err, is_done, is_read, target, start_read, start_write, emit_active_response,
  print_busy_from, emit_print_busy, emit_invalid, take_response, poll_next, poll_response,
  run_print, run_command, handle_line, blink, blink_ok, blink_bad,
}

-- The reply that a finished request gets.
abbrev pub reply_for : Target → Response → Reply
reply_for t r =
    if is_done r.status
    then (if is_read t.verb then value t r.value else write_ok t)
    else error t (status_err r.status)

pub take_response-done :
    (b : Bridge)
    → b.is_pending ≡ true
    → status_of b ≢ pending
    → ((take_response b).replies ≡ b.replies ++ reply_for b.active (b.mdio.responses mailbox) ∷ [])
      × ((take_response b).is_pending ≡ false)
      × ((take_response b).mdio ≡ b.mdio)
unfolding take_response emit_active_response blink_ok blink_bad blink
take_response-done b p s = ground arith

-- A request that is not finished, or none, gets no reply.
pub take_response-waits :
    (b : Bridge) → (b.is_pending ≡ false) ⊎ (status_of b ≡ pending) → take_response b ≡ b
unfolding take_response
take_response-waits b s = ground arith

-- The replies of a command that comes while another is under way.
abbrev pub busy_replies : Command → Verb → List Reply
busy_replies c verb_read = error (target verb_read c) err_busy ∷ []
busy_replies c verb_write = error (target verb_write c) err_busy ∷ []
busy_replies c verb_print = print_busy_from c.phy 0 32

run_command-busy :
    (b : Bridge) (c : Command) (op : Verb)
    → (b.print_active ≡ true) ⊎ (b.is_pending ≡ true)
    → let r = run_command b c op in
      (r.mdio ≡ b.mdio)
      × (r.is_pending ≡ b.is_pending)
      × (r.active ≡ b.active)
      × (r.print_active ≡ b.print_active)
      × (r.print_all_ok ≡ b.print_all_ok)
      × (r.print_phy ≡ b.print_phy)
      × (r.print_next_reg ≡ b.print_next_reg)
      × (r.command_line ≡ b.command_line)
      × (r.replies ≡ b.replies ++ busy_replies c op)
unfolding run_command run_print emit_print_busy blink_ok blink_bad blink
run_command-busy b c verb_read h = ground arith
run_command-busy b c verb_write h = ground arith
run_command-busy b c verb_print h = ground arith

-- A command that comes while a request or a bulk read is under way is answered with busy, for each register
-- that it names, and touches neither the master nor what is under way.
pub handle_line-busy :
    (b : Bridge) (line : List ℕ) (c : Command)
    → parse line ≡ some c
    → (b.print_active ≡ true) ⊎ (b.is_pending ≡ true)
    → let r = handle_line b line in
      (r.mdio ≡ b.mdio)
      × (r.is_pending ≡ b.is_pending)
      × (r.active ≡ b.active)
      × (r.print_active ≡ b.print_active)
      × (r.print_all_ok ≡ b.print_all_ok)
      × (r.print_phy ≡ b.print_phy)
      × (r.print_next_reg ≡ b.print_next_reg)
      × (r.command_line ≡ b.command_line)
      × (r.replies ≡ b.replies ++ busy_replies c c.op)
unfolding handle_line
handle_line-busy b line c e h = rw (e, handle_line) (run_command-busy b c c.op h)

-- A line that does not parse is answered with `err invalid`, and touches neither the master nor what is
-- under way.
pub handle_line-invalid :
    (b : Bridge) (line : List ℕ)
    → parse line ≡ none
    → let r = handle_line b line in
      (r.mdio ≡ b.mdio)
      × (r.is_pending ≡ b.is_pending)
      × (r.active ≡ b.active)
      × (r.print_active ≡ b.print_active)
      × (r.replies ≡ b.replies ++ err_invalid ∷ [])
unfolding handle_line emit_invalid blink_bad blink
handle_line-invalid b line e = rw (e, handle_line) (ground arith)

-- A read or a write that comes to an idle bridge over an idle master is submitted with its fields and has no
-- reply yet.
run_command-accepts :
    (b : Bridge) (c : Command) (op : Verb)
    → op ≢ verb_print
    → b.print_active ≡ false
    → b.is_pending ≡ false
    → b.mdio.active ≡ false
    → let r = run_command b c op in
      (r.replies ≡ b.replies)
      × (r.is_pending ≡ true)
      × (r.print_active ≡ false)
      × (r.active ≡ target op c)
      × (r.mdio.active ≡ true)
      × (r.mdio.phy ≡ c.phy)
unfolding run_command start_read start_write read write read_mmd write_mmd submit blink_ok blink_bad
    blink
run_command-accepts b c verb_read w p q free = ground arith
run_command-accepts b c verb_write w p q free = ground arith
run_command-accepts b c verb_print w p q free = absurd (w refl)

run_read :
    (b : Bridge) (c : Command)
    → c.mmd_access ≡ false
    → c.reg < 32
    → b.print_active ≡ false
    → b.is_pending ≡ false
    → b.mdio.active ≡ false
    → let r = run_command b c verb_read in
      (r.mdio ≡ (read b.mdio c.phy c.reg mailbox).1)
      × (r.is_pending ≡ true)
      × (r.print_active ≡ false)
      × (r.active ≡ target verb_read c)
      × (r.replies ≡ b.replies)
unfolding run_command start_read read submit blink_ok blink_bad blink
run_read b c d small p q free =
    let same : to_u8 c.reg ≡ c.reg = omega arith in rw (d, p, q, free, same) (ground arith)

take_response-no_print : (b : Bridge) → b.print_active ≡ false → poll_response b ≡ take_response b
unfolding poll_response poll_next take_response emit_active_response blink_ok blink_bad blink
take_response-no_print b p = ground arith

outcome-answered : (r : Bool) (st h l : ℕ) → (outcome r st h l).status ≢ pending
outcome-answered r st h l = ground arith

to_read :
    (b : Bridge) (line : List ℕ) (c : Command)
    → parse line ≡ some c
    → c.op ≡ verb_read
    → handle_line b line ≡ run_command b c verb_read
unfolding handle_line
to_read b line c e v = rw (e, handle_line, v)

-- The bridge after the blob's answer to the one transaction of a Clause-22 request, and its next tick.
abbrev pub answered : Bridge → ℕ → ℕ → ℕ → ℕ → ℕ → Bridge
answered b now st h l later =
    poll_response
      (record b { mdio = Master.tick (with_status (Master.tick b.mdio now) st h l) later })

poll_response-served :
    (b : Bridge) (t : Target) (o : Response) (rs : List Reply)
    → b.print_active ≡ false
    → b.is_pending ≡ true
    → b.active ≡ t
    → b.replies ≡ rs
    → b.mdio.active ≡ false
    → b.mdio.responses mailbox ≡ o
    → o.status ≢ pending
    → ((poll_response b).replies ≡ rs ++ reply_for t o ∷ [])
      × ((poll_response b).is_pending ≡ false)
      × ((poll_response b).mdio.active ≡ false)
poll_response-served b t o rs p q act rep free out ended =
    let (replies, over, mdio) =
      take_response-done b q (subst (λ (r : Response). r.status ≢ pending) (sym out) ended) in
    rw (take_response-no_print b p, mdio, sym out, sym act, sym rep) (replies, over, free)

reg-small : (c : Command) → c.mmd_access ≡ false → IsCommand c → c.reg < 32
reg-small c d k = (subst (λ b. IsAddress b c.mmd c.reg) d k.1).1

-- A Clause-22 read command to an idle bridge over an idle master, from the line to the reply: after one tick
-- of the master, an answer of the blob with a status other than 0, a second tick and a poll of the bridge,
-- there is exactly one more reply, with the address of the command and the outcome that the status stands for,
-- and bridge and master are idle again.
pub read_command-served :
    (b : Bridge) (line : List ℕ) (c : Command) (now st h l later : ℕ)
    → parse line ≡ some c
    → c.op ≡ verb_read
    → c.mmd_access ≡ false
    → b.print_active ≡ false
    → b.is_pending ≡ false
    → b.mdio.active ≡ false
    → st ≢ 0
    → let r = answered (handle_line b line) now st h l later in
      (r.replies ≡ b.replies ++ reply_for (target verb_read c) (outcome true st h l) ∷ [])
      × (r.is_pending ≡ false)
      × (r.mdio.active ≡ false)
read_command-served b line c now st h l later e v d p q free ans =
    let b1 = run_command b c verb_read in
    let small : c.reg < 32 = reg-small c d (parse-IsCommand line c e) in
    let (mdio, pend, pr, act, rep) = run_read b c d small p q free in
    let (wires, stopped, out) = read-outcome b.mdio c.phy c.reg mailbox now st h l later free ans in
    let run = λ (m : Master). Master.tick (with_status (Master.tick m now) st h l) later in
    rw (to_read b line c e v) (
      poll_response-served (record b1 { mdio = run b1.mdio }) (target verb_read c)
        (outcome true st h l) b.replies pr pend act rep
        (subst (λ m. (run m).active ≡ false) (sym mdio) stopped)
        (subst (λ m. (run m).responses mailbox ≡ outcome true st h l) (sym mdio) out)
        (outcome-answered true st h l))
