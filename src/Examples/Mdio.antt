-- ===== src/Examples/Mdio.antt =====
-- src/mdio/mdio_master.cpp and src/mdio/mdio_bridge.cpp at concrete inputs.
use ch32_tapioca.Prelude.{ℕ, ◌≡◌, inr, refl, arith, true, false, [], ◌∷◌, List, some, none}
use ch32_tapioca.Mdio.Master.{tick}
use ch32_tapioca.Mdio.Slot.{
  Master, Response, idle, pending, done, op_read, step_start, step_done, read_mmd,
}
use ch32_tapioca.Mdio.Master.Steps.{IsValid}
use ch32_tapioca.Mdio.Master.Life.{tick-IsValid, drive, drive-ends}
use ch32_tapioca.Mdio.Master.Sequence.{IsIndirect, read_mmd-transcript}
use ch32_tapioca.Mdio.Master.Direct.{outcome}
use ch32_tapioca.Mdio.Bridge.Command.{Command, verb_read, verb_write, verb_print, parse}
use ch32_tapioca.Mdio.Bridge.Grammar.{IsCommand, parse-IsCommand}
use ch32_tapioca.Mdio.Bridge.RoundTrip.{command_text, parse-command_text}
use ch32_tapioca.Mdio.Bridge.Session.{Bridge, target, handle_line}
use ch32_tapioca.Mdio.Bridge.Replies.{
  reply_for, busy_replies, answered, handle_line-busy, read_command-served,
}
use ch32_tapioca.Mdio.Bridge.Bulk.{print-bulk}
use ch32_tapioca.Mdio.Bridge.BulkSteps.{serve_all, bulk_replies}

abbrev empty_slot : Master
empty_slot = record {
  active = false;
  started = false;
  op = op_read;
  step = step_start;
  phy = 0;
  mmd = 0;
  reg = 0;
  val = 0;
  wire_read = true;
  wire_reg = 0;
  wire_val = 0;
  started_ms = 0;
  resp = none;
  responses = λ i. record { status = idle; value = 0 };
  dr = λ i. 0;
}

-- A write of 0xbeef to register 4 of PHY 1.
abbrev writing : Master
writing = record empty_slot { phy = 1; wire_read = false; wire_reg = 4; wire_val = 0xbeef }

-- A read of register 4 of PHY 1 that is on the wire.
abbrev reading : Master
reading = record empty_slot {
  active = true;
  started = true;
  step = step_done;
  phy = 1;
  reg = 4;
  wire_reg = 4;
  started_ms = 100;
  resp = some 0;
  responses = λ i. record { status = pending; value = 0 };
}

reading-IsValid : IsValid reading
reading-IsValid = inr (inr (refl, refl, tt, (0, refl, refl)))

tick-IsValid_example : IsValid (tick reading 102)
tick-IsValid_example = tick-IsValid reading 102 reading-IsValid

drive-ends_example : (drive reading (((λ i. 1), 102) ∷ [])).active ≡ false
drive-ends_example =
    drive-ends reading (((λ i. 1), 102) ∷ []) reading-IsValid refl ((λ e. omega arith), tt)
      (omega arith)

abbrev reply1 : ℕ × ℕ × ℕ
reply1 = (0x12, 0x34, 7)

read_mmd-transcript_example :
    IsIndirect true
      (tick (read_mmd empty_slot 1 31 0x0300 0).1 5)
      1
      31
      0x0300
      0
      0
      reply1
      reply1
      reply1
      reply1
read_mmd-transcript_example =
    read_mmd-transcript empty_slot 1 31 0x0300 0 5 reply1 reply1 reply1 reply1 refl (omega arith)
      (omega arith)

-- `!write 1:31/0x0300 0x1A2B`.
abbrev mmd_write : Command
mmd_write = record {
  op = verb_write;
  phy = 1;
  mmd_access = true;
  mmd = 31;
  reg = 0x0300;
  val = 0x1a2b;
}

parse-command_text_example : parse (command_text mmd_write) ≡ some mmd_write
parse-command_text_example = parse-command_text mmd_write (omega arith)

-- `!read 0x1/4`.
abbrev read_line : List ℕ
read_line = b'!' ∷ b'r' ∷ b'e' ∷ b'a' ∷ b'd' ∷ b' ' ∷ b'0' ∷ b'x' ∷ b'1' ∷ b'/' ∷ b'4' ∷ []

abbrev read_command : Command
read_command = record { op = verb_read; phy = 1; mmd_access = false; mmd = 0; reg = 4; val = 0 }

parse_read : parse read_line ≡ some read_command
unfolding parse
parse_read = refl

parse-IsCommand_example : IsCommand read_command
parse-IsCommand_example = parse-IsCommand read_line read_command parse_read

abbrev quiet : Bridge
quiet = record {
  mdio = empty_slot;
  has_led = true;
  command_line = record { line = []; discard = false };
  is_pending = false;
  active = record { verb = verb_read; phy = 0; mmd_access = false; mmd = 0; reg = 0 };
  print_active = false;
  print_all_ok = true;
  print_phy = 0;
  print_next_reg = 0;
  replies = [];
  blinks = [];
}

read_command-served_example :
    let r = answered (handle_line quiet read_line) 5 1 0x12 0x34 6 in
    (r.replies ≡ reply_for (target verb_read read_command) (outcome true 1 0x12 0x34) ∷ [])
    × (r.is_pending ≡ false)
    × (r.mdio.active ≡ false)
read_command-served_example =
    read_command-served quiet read_line read_command 5 1 0x12 0x34 6 parse_read refl refl refl refl
      refl (omega arith)

abbrev waiting : Bridge
waiting = record quiet { is_pending = true; mdio = reading }

handle_line-busy_example :
    let r = handle_line waiting read_line in
    (r.mdio ≡ reading)
    × (r.is_pending ≡ true)
    × (r.active ≡ waiting.active)
    × (r.print_active ≡ false)
    × (r.print_all_ok ≡ waiting.print_all_ok)
    × (r.print_phy ≡ waiting.print_phy)
    × (r.print_next_reg ≡ 0)
    × (r.command_line ≡ waiting.command_line)
    × (r.replies ≡ busy_replies read_command verb_read)
handle_line-busy_example = handle_line-busy waiting read_line read_command parse_read (inr refl)

-- `!print 3`.
abbrev print_line : List ℕ
print_line = b'!' ∷ b'p' ∷ b'r' ∷ b'i' ∷ b'n' ∷ b't' ∷ b' ' ∷ b'3' ∷ []

abbrev print_command3 : Command
print_command3 = record { op = verb_print; phy = 3; mmd_access = false; mmd = 0; reg = 0; val = 0 }

parse_print : parse print_line ≡ some print_command3
unfolding parse
parse_print = refl

abbrev good : Response
good = record { status = done; value = 0xffff }

abbrev eight_good : List Response → List Response
eight_good l = good ∷ good ∷ good ∷ good ∷ good ∷ good ∷ good ∷ good ∷ l

abbrev outcomes : List Response
outcomes = eight_good (eight_good (eight_good (eight_good [])))

print-bulk_example :
    let e = serve_all (handle_line quiet print_line) outcomes in
    (e.replies ≡ bulk_replies 3 0 outcomes)
    × (e.print_active ≡ false)
    × (e.is_pending ≡ false)
    × (e.blinks ≡ (50, 50) ∷ (50, 50) ∷ [])
print-bulk_example =
    print-bulk quiet print_line print_command3 outcomes parse_print refl refl refl refl refl
      (ground arith)
