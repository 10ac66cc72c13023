-- ===== src/Mdio/Master.antt =====
-- src/mdio/mdio_master.cpp: `Mdio::Master` from the start of a transaction to the end of a request.
pub mod Frame
pub mod Steps
pub mod Life
pub mod Mailbox
pub mod Indirect
pub mod Sequence
pub mod Direct
use Prim.Native.Nat.{bit_xor}
use ch32_tapioca.Prelude.{
  ℕ, ◌+◌, ◌*◌, ◌/◌, ◌%◌, Bool, true, false, ◌&&◌, not, Option, none, some, ltb, ◌==◌, if◌then◌else◌,
}
use ch32_tapioca.Prelude.Words.{to_u8, to_u16, sub32}
use ch32_tapioca.Mdio.Slot.{
  Status, Op, Step, Master, dr_cmd0, dr_cmd1, dr_cmd2, dr_cmd3, dr_ctrl, dr_status, dr_res_h,
  dr_res_l, ctrl_read, ctrl_go, st_ok, st_noresp, mdio_timeout_ms, regcr, addar, mmd_addr, mmd_data,
  put, low5, done, no_resp, timeout, op_read, op_write, op_read_mmd, op_write_mmd, step_start,
  step_mmd_addr_mode, step_mmd_set_addr, step_mmd_data_mode, step_mmd_data, step_done,
}

-- The 32 bits after the preamble. The fields do not overlap, so `|` is a sum.
unfoldable pub frame : Bool → ℕ → ℕ → ℕ → ℕ
frame is_read phy wire_reg wire_val =
    let op = if is_read then 2 else 1 in
    let ta = if is_read then 0 else 2 in
    let payload = if is_read then 0 else wire_val in
    1 * 1073741824
    + op * 268435456
    + low5 phy * 8388608
    + low5 wire_reg * 262144
    + ta * 65536
    + payload

-- `CTRL` is written last, after `STATUS` has been cleared.
unfoldable pub start_transaction : Master → Master
unfolding frame
start_transaction m =
    let f = frame m.wire_read m.phy m.wire_reg m.wire_val in
    let d0 = put m.dr dr_cmd0 (to_u8 (f / 16777216)) in
    let d1 = put d0 dr_cmd1 (to_u8 (f / 65536)) in
    let d2 = put d1 dr_cmd2 (to_u8 (f / 256)) in
    let d3 = put d2 dr_cmd3 (to_u8 f) in
    let d4 = put d3 dr_status 0 in
    record m { dr = put d4 dr_ctrl (if m.wire_read then ctrl_read + ctrl_go else ctrl_go) }

abbrev pub is_mmd : Op → Bool
is_mmd op_read = false
is_mmd op_write = false
is_mmd op_read_mmd = true
is_mmd op_write_mmd = true

abbrev pub is_read_op : Op → Bool
is_read_op op_read = true
is_read_op op_write = false
is_read_op op_read_mmd = true
is_read_op op_write_mmd = false

abbrev pub is_read_mmd : Op → Bool
is_read_mmd op_read_mmd = true
is_read_mmd _ = false

abbrev pub is_done : Step → Bool
is_done step_done = true
is_done _ = false

abbrev pub is_mmd_data : Step → Bool
is_mmd_data step_mmd_data = true
is_mmd_data _ = false

-- The inner switch: the next of the four transactions of an MMD access.
unfoldable pub next_mmd : Master → Step → Master
next_mmd m step_start = record m {
  wire_read = false;
  wire_reg = regcr;
  wire_val = to_u16 (mmd_addr + low5 m.mmd);
  step = step_mmd_addr_mode;
}
next_mmd m step_mmd_addr_mode = record m {
  wire_read = false;
  wire_reg = addar;
  wire_val = m.reg;
  step = step_mmd_set_addr;
}
next_mmd m step_mmd_set_addr = record m {
  wire_read = false;
  wire_reg = regcr;
  wire_val = to_u16 (mmd_data + low5 m.mmd);
  step = step_mmd_data_mode;
}
next_mmd m step_mmd_data_mode = record m {
  wire_read = is_read_op m.op;
  wire_reg = addar;
  wire_val = m.val;
  step = step_mmd_data;
}
next_mmd m step_mmd_data = record m { step = step_done }
next_mmd m step_done = record m { step = step_done }

-- The outer switch.
unfoldable pub next_wire : Master → Op → Master
unfolding next_mmd
next_wire m op_read = record m {
  wire_read = true;
  wire_reg = to_u8 (low5 m.reg);
  wire_val = m.val;
  step = step_done;
}
next_wire m op_write = record m {
  wire_read = false;
  wire_reg = to_u8 (low5 m.reg);
  wire_val = m.val;
  step = step_done;
}
next_wire m op_read_mmd = next_mmd m m.step
next_wire m op_write_mmd = next_mmd m m.step

unfoldable pub start_next_transaction : Master → ℕ → Master
unfolding next_wire start_transaction
start_next_transaction m now_ms =
    let w = next_wire (record m { started = false }) m.op in
    if is_done w.step && is_mmd w.op
    then w
    else record (start_transaction w) { started = true; started_ms = now_ms }

unfoldable pub finish : Master → Status → ℕ → Master
finish m status value = record m {
  responses = elim m.resp [
    | none ↦ m.responses
    | some at ↦ put m.responses at (record { status = status; value = value })
  ];
  active = false;
  started = false;
  resp = none;
}

unfoldable pub complete_transaction : Master → ℕ → Status → ℕ → Master
unfolding finish start_next_transaction
complete_transaction m now_ms done value =
    let m' = record m { started = false } in
    if is_done m.step
    then finish m' done value
    else if is_mmd_data m.step
    then finish m' done (if is_read_mmd m.op then value else 0)
    else start_next_transaction m' now_ms
complete_transaction m now_ms status value = finish (record m { started = false }) status 0

-- From the reading of `STATUS` on.
unfoldable pub poll : Master → ℕ → Master
unfolding finish complete_transaction
poll m now_ms =
    let st = m.dr dr_status in
    let value = if m.wire_read then to_u16 (m.dr dr_res_h * 256 + m.dr dr_res_l) else 0 in
    if st == 0
    then (if ltb mdio_timeout_ms (sub32 now_ms m.started_ms) then finish m timeout 0 else m)
    else if st == st_noresp
    then complete_transaction m now_ms no_resp 0
    else if not (st == st_ok)
    then complete_transaction m now_ms timeout 0
    else complete_transaction m now_ms done value

unfoldable pub tick : Master → ℕ → Master
unfolding poll start_next_transaction
tick m now_ms =
    if not m.active
    then m
    else poll (if m.started then m else start_next_transaction m now_ms) now_ms

-- `tick` under `MDIO_STUB`, where there is no PIOC and `startTransaction` is empty.
unfoldable pub tick_stub : Master → ℕ → Master
unfolding next_wire finish
tick_stub m now_ms =
    let w = next_wire (record m { started = false }) m.op in
    let begun =
      if is_done w.step && is_mmd w.op
      then w
      else record w { started = true; started_ms = now_ms } in
    let echo : ℕ = elim begun.op [
      | op_read ↦ to_u16 (begun.phy * 256 + low5 begun.reg)
      | op_write ↦ 0
      | op_read_mmd ↦ to_u16 (bit_xor (low5 begun.mmd * 2048) begun.reg)
      | op_write_mmd ↦ 0
    ] in
    if not m.active
    then m
    else if m.started
    then m
    else if begun.phy == 0x1f
    then finish begun no_resp 0
    else finish begun done echo
