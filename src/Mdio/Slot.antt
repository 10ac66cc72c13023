-- ===== src/Mdio/Slot.antt =====
-- src/mdio/mdio_master.hpp and mdio_master.cpp: the members of `Mdio::Master`, one asynchronous transaction slot over the PIOC, and
-- the submission of a request. The register file of the PIOC is a function from addresses to bytes; the blob changes it between
-- two calls, so `tick` takes it as an argument and returns what it leaves there. The mailbox `Response& resp` that a
-- client lends is an address in a store of responses. `nowMs` is an argument, as in the source.
-- `begin` leaves out the GPIO and eMCU bring-up (`loadBlob`), which touches only the hardware.
use ch32_tapioca.Prelude.{ℕ, ◌%◌, Bool, true, false, Option, none, some, ◌==◌, if◌then◌else◌}

pub data Result : Type 0 where
  ok busy : Result

pub data Status : Type 0 where
  idle pending done no_resp timeout : Status

pub record Response : Type 0 where
  pub status : Status
  pub value : ℕ

pub data Op : Type 0 where
  op_read op_write op_read_mmd op_write_mmd : Op

pub data Step : Type 0 where
  step_start step_mmd_addr_mode step_mmd_set_addr step_mmd_data_mode step_mmd_data step_done : Step

-- The slot: the members of `Master`, with the responses that clients own and the PIOC's registers.
pub record Master : Type 0 where
  pub active : Bool
  pub started : Bool
  pub op : Op
  pub step : Step
  pub phy : ℕ
  pub mmd : ℕ
  pub reg : ℕ
  pub val : ℕ
  pub wire_read : Bool
  pub wire_reg : ℕ
  pub wire_val : ℕ
  pub started_ms : ℕ
  pub resp : Option ℕ
  pub responses : ℕ → Response
  pub dr : ℕ → ℕ

abbrev pub dr_cmd0 : ℕ
dr_cmd0 = 0x22

abbrev pub dr_cmd1 : ℕ
dr_cmd1 = 0x23

abbrev pub dr_cmd2 : ℕ
dr_cmd2 = 0x24

abbrev pub dr_cmd3 : ℕ
dr_cmd3 = 0x25

abbrev pub dr_ctrl : ℕ
dr_ctrl = 0x26

abbrev pub dr_status : ℕ
dr_status = 0x27

abbrev pub dr_res_h : ℕ
dr_res_h = 0x28

abbrev pub dr_res_l : ℕ
dr_res_l = 0x29

abbrev pub ctrl_read : ℕ
ctrl_read = 0x01

abbrev pub ctrl_go : ℕ
ctrl_go = 0x80

abbrev pub st_ok : ℕ
st_ok = 0x01

abbrev pub st_noresp : ℕ
st_noresp = 0x80

abbrev pub mdio_timeout_ms : ℕ
mdio_timeout_ms = 5

abbrev pub regcr : ℕ
regcr = 0x0d

abbrev pub addar : ℕ
addar = 0x0e

abbrev pub mmd_addr : ℕ
mmd_addr = 0x0000

abbrev pub mmd_data : ℕ
mmd_data = 0x4000

abbrev pub put {ℓ} : {A : Type ℓ} → (ℕ → A) → ℕ → A → ℕ → A
put f k v i = if i == k then v else f i

-- `x & 0x1F`.
abbrev pub low5 : ℕ → ℕ
low5 x = x % 32

unfoldable pub begin : Master → Master
begin m = record m { dr = put m.dr dr_status 0; active = false; started = false; resp = none }

unfoldable pub submit : Master → Op → ℕ → ℕ → ℕ → ℕ → ℕ → Result × Master
submit m op phy mmd reg val at = if m.active then (busy, m) else (
  ok,
  record {
    active = true;
    started = false;
    op = op;
    step = step_start;
    phy = phy;
    mmd = mmd;
    reg = reg;
    val = val;
    wire_read = true;
    wire_reg = 0;
    wire_val = 0;
    started_ms = 0;
    resp = some at;
    responses = put m.responses at (record { status = pending; value = 0 });
    dr = m.dr;
  },
)

unfoldable pub read : Master → ℕ → ℕ → ℕ → Result × Master
unfolding submit
read m phy reg at = submit m op_read phy 0 reg 0 at

unfoldable pub write : Master → ℕ → ℕ → ℕ → ℕ → Result × Master
unfolding submit
write m phy reg val at = submit m op_write phy 0 reg val at

unfoldable pub read_mmd : Master → ℕ → ℕ → ℕ → ℕ → Result × Master
unfolding submit
read_mmd m phy mmd reg at = submit m op_read_mmd phy mmd reg 0 at

unfoldable pub write_mmd : Master → ℕ → ℕ → ℕ → ℕ → ℕ → Result × Master
unfolding submit
write_mmd m phy mmd reg val at = submit m op_write_mmd phy mmd reg val at
