-- ===== src/Mdio/Master/Indirect.antt =====
-- src/mdio/mdio_master.cpp: the ticks of an MMD access, one transaction after the other.
use ch32_tapioca.Prelude.{
  ℕ, ◌+◌, ◌*◌, ◌%◌, ◌<◌, ◌≡◌, ◌∙◌, sym, ap, subst, refl, arith, Bool, true, false, ◌&&◌, ap₂, not,
  if◌then◌else◌, some,
}
use ch32_tapioca.Prelude.Words.{IsU16, sub32}
use ch32_tapioca.Mdio.Master.{
  tick, poll, complete_transaction, finish, is_done, is_mmd, is_mmd_data, start_next_transaction,
  next_wire, next_mmd, start_transaction,
}
use ch32_tapioca.Mdio.Master.Frame.{shown, frame_of, start_transaction-shown}
use ch32_tapioca.Mdio.Slot.{
  Master, done, Op, Step, op_read_mmd, op_write_mmd, step_mmd_addr_mode, step_mmd_set_addr,
  step_mmd_data_mode, step_mmd_data, submit, dr_status, dr_res_h, dr_res_l, st_ok, put,
}

-- The direction, the register and the value of a transaction.
abbrev pub Wire : Type 0
Wire = Bool × ℕ × ℕ

-- The blob answers with OK and a result.
abbrev pub answer : Master → ℕ → ℕ → Master
answer m h l = record m { dr = put (put (put m.dr dr_res_h h) dr_res_l l) dr_status st_ok }

abbrev pub mmd_op : Bool → Op
mmd_op true = op_read_mmd
mmd_op false = op_write_mmd

-- The transaction of a request has `step` as its place in the sequence.
abbrev pub IsAt : Master → Bool → ℕ → ℕ → ℕ → ℕ → Step → Wire → Type 0
IsAt m is_read mmd reg val at step wire =
    (m.active ≡ true)
    × (m.started ≡ true)
    × (m.op ≡ mmd_op is_read)
    × (m.mmd ≡ mmd)
    × (m.reg ≡ reg)
    × (m.val ≡ val)
    × (m.resp ≡ some at)
    × (m.step ≡ step)
    × (m.wire_read ≡ wire.0)
    × (m.wire_reg ≡ wire.1)
    × (m.wire_val ≡ wire.2)

pub to_set_addr :
    (is_read : Bool) (m : Master) (mmd reg val at h l now : ℕ) (wire : Wire)
    → IsAt m is_read mmd reg val at step_mmd_addr_mode wire
    → IsAt (tick (answer m h l) now) is_read mmd reg val at step_mmd_set_addr (false, 0x0e, reg)
unfolding tick poll complete_transaction finish start_next_transaction next_wire next_mmd
    start_transaction
to_set_addr true m mmd reg val at h l now wire p = ground arith
to_set_addr false m mmd reg val at h l now wire p = ground arith

pub to_data_mode :
    (is_read : Bool) (m : Master) (mmd reg val at h l now : ℕ) (wire : Wire)
    → IsAt m is_read mmd reg val at step_mmd_set_addr wire
    → IsAt
        (tick (answer m h l) now)
        is_read
        mmd
        reg
        val
        at
        step_mmd_data_mode
        (false, 0x0d, (0x4000 + mmd % 32) % 65536)
unfolding tick poll complete_transaction finish start_next_transaction next_wire next_mmd
    start_transaction
to_data_mode true m mmd reg val at h l now wire p = ground arith
to_data_mode false m mmd reg val at h l now wire p = ground arith

pub to_data :
    (is_read : Bool) (m : Master) (mmd reg val at h l now : ℕ) (wire : Wire)
    → IsAt m is_read mmd reg val at step_mmd_data_mode wire
    → IsAt (tick (answer m h l) now) is_read mmd reg val at step_mmd_data (is_read, 0x0e, val)
unfolding tick poll complete_transaction finish start_next_transaction next_wire next_mmd
    start_transaction
to_data true m mmd reg val at h l now wire p = ground arith
to_data false m mmd reg val at h l now wire p = ground arith

pub to_end :
    (is_read : Bool) (m : Master) (mmd reg val at h l now : ℕ) (wire : Wire)
    → m.wire_read ≡ is_read
    → IsAt m is_read mmd reg val at step_mmd_data wire
    → let final = tick (answer m h l) now in
      (final.active ≡ false)
      × (final.responses at
          ≡ record { status = done; value = (if is_read then (h * 256 + l) % 65536 else 0) })
unfolding tick poll complete_transaction finish start_next_transaction next_wire next_mmd
    start_transaction
to_end true m mmd reg val at h l now wire w p = ground arith
to_end false m mmd reg val at h l now wire w p = ground arith

abbrev pub wire : Master → Wire
wire m = (m.wire_read, m.wire_reg, m.wire_val)

pub IsAt-wire :
    (m : Master) (is_read : Bool) (mmd reg val at : ℕ) (step : Step) (w : Wire)
    → IsAt m is_read mmd reg val at step w
    → wire m ≡ w
IsAt-wire m is_read mmd reg val at step w (_, _, _, _, _, _, _, _, a, b, c) = cc

pub begin_mmd :
    (is_read : Bool) (m : Master) (phy mmd reg val at now : ℕ)
    → m.active ≡ false
    → let s = (submit m (mmd_op is_read) phy mmd reg val at).1 in
      let v = start_next_transaction s now in
      IsAt v is_read mmd reg val at step_mmd_addr_mode (false, 0x0d, mmd % 32)
      × (v.started_ms ≡ now)
      × (s.active ≡ true)
      × (s.started ≡ false)
      × (s.phy ≡ phy)
unfolding start_next_transaction next_wire next_mmd start_transaction submit
begin_mmd true m phy mmd reg val at now free = ground arith
begin_mmd false m phy mmd reg val at now free = ground arith

-- After an answer with OK in the middle of a sequence, a tick goes on to the next transaction.
tick-next :
    (m : Master) (h l now : ℕ)
    → m.active ≡ true
    → m.started ≡ true
    → is_done m.step ≡ false
    → is_mmd_data m.step ≡ false
    → tick (answer m h l) now
      ≡ start_next_transaction (record (answer m h l) { started = false }) now
unfolding tick poll complete_transaction
tick-next m h l now a s d x = rw (a, s, d, x) refl

-- A transaction that has just been started is not yet over.
poll-waits : (m : Master) (now : ℕ) → m.dr dr_status ≡ 0 → m.started_ms ≡ now → poll m now ≡ m
unfolding poll
poll-waits m now z ms = let none_ : sub32 now now ≡ 0 = omega arith in rw (z, ms, none_) refl

-- The first tick after a request starts its first transaction.
pub tick-first :
    (m : Master) (now : ℕ)
    → let v = start_next_transaction m now in
      m.active ≡ true → m.started ≡ false → v.dr dr_status ≡ 0 → v.started_ms ≡ now → tick m now ≡ v
unfolding tick
tick-first m now a s z ms =
    let v = start_next_transaction m now in
    ap₂ (λ on begun. if not on then m else poll (if begun then m else v) now) a s
    ∙ poll-waits v now z ms

next_wire-kept :
    (m : Master) (op : Op) → ((next_wire m op).started ≡ m.started) × ((next_wire m op).phy ≡ m.phy)
unfolding next_wire next_mmd
next_wire-kept m op = ground arith

started-shown :
    (n : Master) (now phy : ℕ) (over : Bool) (w : Wire)
    → let v =
        if over then n else record (start_transaction n) { started = true; started_ms = now } in
      v.started ≡ true
      → n.started ≡ false
      → n.phy ≡ phy
      → wire v ≡ w
      → phy < 32
      → w.1 < 32
      → IsU16 w.2
      → (shown v ≡ frame_of w.0 phy w.1 w.2) × (v.phy ≡ phy)
unfolding start_transaction
started-shown n now phy true w on off who same p r u = absurd (cc)
started-shown n now phy false w on off who same p r u =
    let reg : n.wire_reg ≡ w.1 = ap (λ (x : Wire). x.1) same in
    let val : n.wire_val ≡ w.2 = ap (λ (x : Wire). x.2) same in
    (
      start_transaction-shown n (omega (arith, who, p)) (omega (arith, reg, r))
            (omega (arith, val, u))
          ∙ ap₂ (λ (x : Wire) (y : ℕ). frame_of x.0 y x.1 x.2) same who,
      who,
    )

-- A transaction of a request that has been started is in the registers.
pub start_next-shown :
    (m : Master) (now phy : ℕ) (w : Wire)
    → let v = start_next_transaction m now in
      v.started ≡ true
      → wire v ≡ w
      → m.phy ≡ phy
      → phy < 32
      → w.1 < 32
      → IsU16 w.2
      → (shown v ≡ frame_of w.0 phy w.1 w.2) × (v.phy ≡ phy)
unfolding start_next_transaction
start_next-shown m now phy w on same who =
    let n = next_wire (record m { started = false }) m.op in
    let (off, kept) = next_wire-kept (record m { started = false }) m.op in
    started-shown n now phy (is_done n.step && is_mmd n.op) w on off (kept ∙ who) same

-- So is one that follows in the middle of a sequence.
pub tick-shown :
    (m : Master) (phy h l now : ℕ) (w : Wire)
    → m.active ≡ true
    → m.started ≡ true
    → is_done m.step ≡ false
    → is_mmd_data m.step ≡ false
    → let v = tick (answer m h l) now in
      v.started ≡ true
      → wire v ≡ w
      → m.phy ≡ phy
      → phy < 32
      → w.1 < 32
      → IsU16 w.2
      → (shown v ≡ frame_of w.0 phy w.1 w.2) × (v.phy ≡ phy)
tick-shown m phy h l now w a s d x on same who p r u =
    let e = tick-next m h l now a s d x in
    subst (λ (v : Master). (shown v ≡ frame_of w.0 phy w.1 w.2) × (v.phy ≡ phy)) (sym e)
      (start_next-shown (record (answer m h l) { started = false }) now phy w
        (ap (λ (v : Master). v.started) (sym e) ∙ on) (ap wire (sym e) ∙ same) who p r u)
