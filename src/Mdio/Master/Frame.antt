-- ===== src/Mdio/Master/Frame.antt =====
-- src/mdio/mdio_master.cpp: the Clause-22 frame that `startTransaction` hands to the PIOC.
use ch32_tapioca.Prelude.{
  ℕ, ◌+◌, ◌*◌, ◌/◌, ◌%◌, ◌≡◌, ◌<◌, ◌∙◌, ap, arith, Bool, true, false, if◌then◌else◌, refl,
}
use ch32_tapioca.Prelude.Words.{IsU16, to_u8}
use ch32_tapioca.Mdio.Master.{frame, start_transaction}
use ch32_tapioca.Mdio.Slot.{
  Master, dr_cmd0, dr_cmd1, dr_cmd2, dr_cmd3, dr_ctrl, dr_status, ctrl_read, ctrl_go,
}

-- The 32-bit word that the blob reads from the four command registers, most significant byte first.
abbrev pub command_word : (ℕ → ℕ) → ℕ
command_word dr = ((dr dr_cmd0 * 256 + dr dr_cmd1) * 256 + dr dr_cmd2) * 256 + dr dr_cmd3

-- IEEE 802.3 Clause 22: ST, OP, PHYAD, REGAD, TA and DATA, from the top.
abbrev pub st_field : ℕ → ℕ
st_field w = w / 1073741824 % 4

abbrev pub op_field : ℕ → ℕ
op_field w = w / 268435456 % 4

abbrev pub phyad_field : ℕ → ℕ
phyad_field w = w / 8388608 % 32

abbrev pub regad_field : ℕ → ℕ
regad_field w = w / 262144 % 32

abbrev pub ta_field : ℕ → ℕ
ta_field w = w / 65536 % 4

abbrev pub data_field : ℕ → ℕ
data_field w = w % 65536

frame_fields :
    (is_read : Bool) (phy reg val : ℕ)
    → phy < 32
    → reg < 32
    → IsU16 val
    → let w = frame is_read phy reg val in
      (st_field w ≡ 1)
      × (op_field w ≡ (if is_read then 2 else 1))
      × (phyad_field w ≡ phy)
      × (regad_field w ≡ reg)
      × (ta_field w ≡ (if is_read then 0 else 2))
      × (data_field w ≡ (if is_read then 0 else val))
      × (w < 4294967296)
unfolding frame
frame_fields true phy reg val p r v = omega arith
frame_fields false phy reg val p r v = omega arith

command_word-bytes :
    (f : ℕ)
    → f < 4294967296
    → ((to_u8 (f / 16777216) * 256 + to_u8 (f / 65536)) * 256 + to_u8 (f / 256)) * 256 + to_u8 f ≡ f
command_word-bytes f p = omega arith

doorbell : (b : Bool) → (if b then ctrl_read + ctrl_go else ctrl_go) ≡ (if b then 0x81 else 0x80)
doorbell true = refl
doorbell false = refl

-- The registers after `startTransaction`, for a PHY and a register below 32 and a value of 16 bits: the
-- command word has the fields of a Clause-22 frame for the transaction, the status is cleared, and the
-- doorbell rings, with the read bit for a read.
start_transaction_lem :
    (m : Master)
    → m.phy < 32
    → m.wire_reg < 32
    → IsU16 m.wire_val
    → let dr = (start_transaction m).dr in
      let w = command_word dr in
      (st_field w ≡ 1)
      × (op_field w ≡ (if m.wire_read then 2 else 1))
      × (phyad_field w ≡ m.phy)
      × (regad_field w ≡ m.wire_reg)
      × (ta_field w ≡ (if m.wire_read then 0 else 2))
      × (data_field w ≡ (if m.wire_read then 0 else m.wire_val))
      × (dr dr_status ≡ 0)
      × (dr dr_ctrl ≡ (if m.wire_read then 0x81 else 0x80))
unfolding start_transaction
start_transaction_lem m p r v =
    let (st, op, phy, reg, ta, payload, small) =
      frame_fields m.wire_read m.phy m.wire_reg m.wire_val p r v in
    rw (command_word-bytes (frame m.wire_read m.phy m.wire_reg m.wire_val) small)
      (st, op, phy, reg, ta, payload, refl, doorbell m.wire_read)

-- What the PIOC finds in its registers: the command word, the status and the doorbell.
abbrev pub shown : Master → ℕ × ℕ × ℕ
shown m = (command_word m.dr, m.dr dr_status, m.dr dr_ctrl)

-- The Clause-22 frame of a transaction, field by field from the top: the start 01, the operation, the PHY, the register, the
-- turnaround and the data, of which a read sends none; then the status cleared, and the doorbell with the read bit for a read.
abbrev pub frame_of : Bool → ℕ → ℕ → ℕ → ℕ × ℕ × ℕ
frame_of true phy reg val = ((((1 * 4 + 2) * 32 + phy) * 32 + reg) * 262144, 0, 0x81)
frame_of false phy reg val =
    (((((1 * 4 + 1) * 32 + phy) * 32 + reg) * 4 + 2) * 65536 + val, 0, 0x80)

frame-of :
    (is_read : Bool) (phy reg val : ℕ)
    → phy < 32
    → reg < 32
    → (frame is_read phy reg val, 0, (if is_read then ctrl_read + ctrl_go else ctrl_go))
      ≡ frame_of is_read phy reg val
unfolding frame
frame-of true phy reg val p r = ap (λ (w : ℕ). (w, 0, 0x81)) (omega arith)
frame-of false phy reg val p r = ap (λ (w : ℕ). (w, 0, 0x80)) (omega arith)

-- `startTransaction` puts the frame of its transaction into the registers, for a PHY and a register below 32 and a value of 16
-- bits.
pub start_transaction-shown :
    (m : Master)
    → m.phy < 32
    → m.wire_reg < 32
    → IsU16 m.wire_val
    → shown (start_transaction m) ≡ frame_of m.wire_read m.phy m.wire_reg m.wire_val
unfolding start_transaction
start_transaction-shown m p r v =
    let (st, op, phy, reg, ta, payload, small) =
      frame_fields m.wire_read m.phy m.wire_reg m.wire_val p r v in
    ap (λ (w : ℕ). (w, 0, (if m.wire_read then ctrl_read + ctrl_go else ctrl_go)))
      (command_word-bytes (frame m.wire_read m.phy m.wire_reg m.wire_val) small)
    ∙ frame-of m.wire_read m.phy m.wire_reg m.wire_val p r
