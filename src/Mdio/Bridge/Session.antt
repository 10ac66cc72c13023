-- ===== src/Mdio/Bridge/Session.antt =====
-- src/mdio/mdio_bridge.cpp: `UsbBridge`, from received bytes to requests and from finished requests to replies. The
-- mailbox `resp_` is the response at `mailbox` in the master's store. A `printf` appends a reply to
-- `replies` (Mdio/Bridge/Replies has the text), and a `blink` appends its two times to `blinks`. The bytes that
-- `usb_.available()` and `usb_.read` deliver in one `pollCommand` are its argument.
use ch32_tapioca.Prelude.{
  ℕ, suc, zero, ◌+◌, Bool, true, false, not, ◌&&◌, ◌||◌, List, [], ◌∷◌, ◌++◌, none, some, ltb,
  if◌then◌else◌,
}
use ch32_tapioca.Prelude.Words.{to_u8}
use ch32_tapioca.Mdio.Slot.{
  Master, Status, pending, done, no_resp, timeout, Result, ok, busy, read, write, read_mmd,
  write_mmd,
}
use ch32_tapioca.Mdio.Bridge.Command.{Verb, verb_read, verb_write, verb_print, Command, parse}
use ch32_tapioca.Mdio.Bridge.Line.{
  no_event, ready, invalid, CommandLine, push_command_byte, reset_command_line,
}

pub data ErrorText : Type 0 where
  err_noresp err_timeout err_busy : ErrorText

-- What a reply is about: `<verb> <phy>[:<mmd>]/<reg>`.
pub record Target : Type 0 where
  pub verb : Verb
  pub phy : ℕ
  pub mmd_access : Bool
  pub mmd : ℕ
  pub reg : ℕ

pub data Reply : Type 0 where
  value : Target → ℕ → Reply
  write_ok : Target → Reply
  error : Target → ErrorText → Reply
  err_invalid : Reply

pub record Bridge : Type 0 where
  pub mdio : Master
  pub has_led : Bool
  pub command_line : CommandLine
  pub is_pending : Bool
  pub active : Target
  pub print_active : Bool
  pub print_all_ok : Bool
  pub print_phy : ℕ
  pub print_next_reg : ℕ
  pub replies : List Reply
  pub blinks : List (ℕ × ℕ)

abbrev pub mailbox : ℕ
mailbox = 0

abbrev pub status_of : Bridge → Status
status_of b = (b.mdio.responses mailbox).status

unfoldable pub status_err : Status → ErrorText
status_err no_resp = err_noresp
status_err timeout = err_timeout
status_err _ = err_busy

abbrev pub is_done : Status → Bool
is_done done = true
is_done _ = false

abbrev pub is_pending_status : Status → Bool
is_pending_status pending = true
is_pending_status _ = false

abbrev pub is_ok : Result → Bool
is_ok ok = true
is_ok busy = false

abbrev pub is_read : Verb → Bool
is_read verb_read = true
is_read _ = false

unfoldable pub blink : Bridge → ℕ → ℕ → Bridge
blink b on off = if b.has_led then record b { blinks = b.blinks ++ (on, off) ∷ [] } else b

unfoldable pub blink_ok : Bridge → Bridge
unfolding blink
blink_ok b = blink b 50 50

unfoldable pub blink_bad : Bridge → Bridge
unfolding blink
blink_bad b = blink b 500 100

abbrev pub print_reply : Bridge → Reply → Bridge
print_reply b r = record b { replies = b.replies ++ r ∷ [] }

abbrev pub target : Verb → Command → Target
target v c = record { verb = v; phy = c.phy; mmd_access = c.mmd_access; mmd = c.mmd; reg = c.reg }

-- What `startRead` and `startWrite` do with the master's answer.
abbrev started : Bridge → Result × Master → Target → Bool × Bridge
started b r t =
    if is_ok r.0
    then (true, record b { mdio = r.1; is_pending = true; active = t })
    else (false, record b { mdio = r.1 })

unfoldable pub start_read : Bridge → Command → Bool × Bridge
unfolding read read_mmd
start_read b c =
    started b
      (if c.mmd_access
        then read_mmd b.mdio c.phy c.mmd c.reg mailbox
        else read b.mdio c.phy (to_u8 c.reg) mailbox)
      (target verb_read c)

unfoldable pub start_write : Bridge → Command → Bool × Bridge
unfolding write write_mmd
start_write b c =
    started b
      (if c.mmd_access
        then write_mmd b.mdio c.phy c.mmd c.reg c.val mailbox
        else write b.mdio c.phy (to_u8 c.reg) c.val mailbox)
      (target verb_write c)

unfoldable pub emit_active_response : Bridge → Bridge
unfolding status_err
emit_active_response b =
    let r = b.mdio.responses mailbox in
    if is_done r.status
    then print_reply b (if is_read b.active.verb then value b.active r.value else write_ok b.active)
    else print_reply b (error b.active (status_err r.status))

-- The target of one line of a bulk read.
abbrev pub clause22 : Verb → ℕ → ℕ → Target
clause22 v phy reg = record { verb = v; phy = phy; mmd_access = false; mmd = 0; reg = reg }

abbrev pub print_busy_from : ℕ → ℕ → ℕ → List Reply
print_busy_from phy reg zero = []
print_busy_from phy reg (suc n) =
    error (clause22 verb_read phy reg) err_busy ∷ print_busy_from phy (suc reg) n

unfoldable pub emit_print_busy : Bridge → ℕ → Bridge
emit_print_busy b phy = record b { replies = b.replies ++ print_busy_from phy 0 32 }

unfoldable pub emit_invalid : Bridge → Bridge
unfolding blink_bad
emit_invalid b = blink_bad (print_reply b err_invalid)

abbrev pub print_command : ℕ → ℕ → Command
print_command phy reg = record {
  op = verb_read;
  phy = phy;
  mmd_access = false;
  mmd = 0;
  reg = reg;
  val = 0;
}

-- The first half of `pollResponse`: the finished request.
unfoldable pub take_response : Bridge → Bridge
unfolding emit_active_response blink_ok blink_bad
take_response b =
    let all_ok = is_done (status_of b) in
    let b1 = record (emit_active_response b) { is_pending = false } in
    if b.is_pending && not (is_pending_status (status_of b))
    then (if b1.print_active
        then (if not all_ok then record b1 { print_all_ok = false } else b1)
        else (if all_ok then blink_ok b1 else blink_bad b1))
    else b

-- The second half: the next register of a bulk read, or its end.
unfoldable pub poll_next : Bridge → Bridge
unfolding start_read blink_ok blink_bad
poll_next b =
    let r = start_read b (print_command b.print_phy b.print_next_reg) in
    if not b.print_active || b.is_pending
    then b
    else if ltb b.print_next_reg 32
    then (if r.0 then record r.1 { print_next_reg = to_u8 (b.print_next_reg + 1) } else r.1)
    else record (if b.print_all_ok then blink_ok b else blink_bad b) { print_active = false }

unfoldable pub poll_response : Bridge → Bridge
unfolding take_response poll_next
poll_response b = poll_next (take_response b)

-- The branches of `Op::Read` and `Op::Write`.
abbrev run_request : Bridge → Bool × Bridge → Target → Bridge
run_request b r t =
    if b.print_active || b.is_pending
    then blink_bad (print_reply b (error t err_busy))
    else if not r.0
    then blink_bad (print_reply r.1 (error t err_busy))
    else blink_ok r.1

-- The branch of `Op::Print`.
unfoldable pub run_print : Bridge → Command → Bridge
unfolding emit_print_busy blink_ok blink_bad start_read
run_print b c =
    let b1 = blink_ok (record b {
      print_active = true;
      print_all_ok = true;
      print_phy = c.phy;
      print_next_reg = 0;
    }) in
    let r = start_read b1 (print_command b1.print_phy b1.print_next_reg) in
    if b.print_active || b.is_pending
    then blink_bad (emit_print_busy b c.phy)
    else if r.0
    then record r.1 { print_next_reg = 1 }
    else blink_bad (emit_print_busy (record r.1 { print_active = false }) c.phy)

unfoldable pub run_command : Bridge → Command → Verb → Bridge
unfolding start_read start_write run_print blink_ok blink_bad
run_command b c verb_read = run_request b (start_read b c) (target verb_read c)
run_command b c verb_write = run_request b (start_write b c) (target verb_write c)
run_command b c verb_print = run_print b c

unfoldable pub handle_line : Bridge → List ℕ → Bridge
unfolding parse emit_invalid run_command
handle_line b line = elim (parse line) [ none ↦ emit_invalid b | some c ↦ run_command b c c.op ]

-- One round of the loop of `pollCommand`.
unfoldable pub take_byte : Bridge → ℕ → Bridge
unfolding push_command_byte handle_line emit_invalid
take_byte b byte =
    let r = push_command_byte b.command_line byte in
    let b1 = record b { command_line = r.1 } in
    elim r.0 [
      | ready ↦ record (handle_line b1 r.1.line) { command_line = record r.1 { line = [] } }
      | invalid ↦ emit_invalid b1
      | no_event ↦ b1
    ]

unfoldable pub poll_command : Bridge → List ℕ → Bridge
unfolding take_byte
poll_command b [] = b
poll_command b (byte ∷ rest) = poll_command (take_byte b byte) rest

unfoldable pub tick : Bridge → Bool → List ℕ → Bridge
unfolding poll_response poll_command reset_command_line
tick b session_started bytes =
    let b1 =
      if session_started
      then record b { command_line = reset_command_line b.command_line }
      else b in
    poll_command (poll_response b1) bytes
