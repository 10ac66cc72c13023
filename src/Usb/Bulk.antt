-- ===== src/Usb/Bulk.antt =====
-- src/usb/usb_cdc.cpp: the bulk endpoints, the dispatch of the interrupt flags and the step of the main loop.
pub mod Flow
pub mod Throttle
pub mod Packets
pub mod Stream
pub mod Pump
pub mod Flush
pub mod Halt
use ch32_tapioca.Prelude.{
  ℕ, ◌+◌, Bool, true, false, not, ◌&&◌, ◌||◌, List, ltb, leb, ◌==◌, if◌then◌else◌,
}
use ch32_tapioca.Prelude.Words.{to_u16, add32, sub32}
use ch32_tapioca.Ring.{size, free, push, pop}
use ch32_tapioca.Usb.Descriptors.{packet}
use ch32_tapioca.Usb.Device.{
  Response, ack, nak, stall, Ctrl, Sdk, UsbCdc, rx_capacity, tx_capacity, partial_flush_ms,
  bus_reset,
}
use ch32_tapioca.Usb.Control.{handle_setup, handle_ep0_in, handle_ep0_out}

pub data Token : Type 0 where
  token_in token_out token_setup token_sof : Token

-- What the peripheral shows of the last transfer: `INT_ST`, the first `RX_LEN` bytes of `ep2_`, and the suspend bit of
-- `MIS_ST`.
pub record Status : Type 0 where
  pub token : Token
  pub endp : ℕ
  pub tog_ok : Bool
  pub received : List ℕ
  pub ums_suspend : Bool

unfoldable pub arm_ep3 : UsbCdc → ℕ → UsbCdc
arm_ep3 u len = record u {
  tx_len3 = len;
  ctrl3 = record (u.ctrl3) { t_res = ack };
  ep3_busy = true;
}

unfoldable pub arm_ep3_from_tx : UsbCdc → Bool → Bool × UsbCdc
unfolding arm_ep3
arm_ep3_from_tx u allow_short =
    let n = size u.tx in
    let m = if ltb packet n then packet else n in
    let (bytes, tx) = pop tx_capacity u.tx m in
    let full = m == packet in
    let popped = record u {
      ep3 = bytes;
      tx = tx;
      tx_bytes = add32 u.tx_bytes m;
      full_pkts = if full then add32 u.full_pkts 1 else u.full_pkts;
      short_pkts = if full then u.short_pkts else add32 u.short_pkts 1;
    } in
    if n == 0
    then (false, u)
    else if ltb n packet && not allow_short
    then (false, u)
    else (true, arm_ep3 popped (to_u16 m))

-- The completion of a packet at endpoint 3.
abbrev pub ep3_done : UsbCdc → UsbCdc
ep3_done u = record u {
  ctrl3 = record (u.ctrl3) { t_tog = not u.ctrl3.t_tog; t_res = nak };
  ep3_busy = false;
  tx_pkts = add32 u.tx_pkts 1;
}

abbrev ep1_done : UsbCdc → UsbCdc
ep1_done u = record u { ctrl1 = record (u.ctrl1) { t_tog = not u.ctrl1.t_tog; t_res = nak } }

-- A packet from the host at endpoint 2.
unfoldable pub ep2_received : UsbCdc → List ℕ → UsbCdc
ep2_received u bytes =
    let (n, rx) = push rx_capacity u.rx bytes in
    let u0 = record u { rx = rx; ctrl2 = record (u.ctrl2) { r_tog = not u.ctrl2.r_tog } } in
    if ltb (free rx_capacity rx) packet
    then record u0 { ctrl2 = record (u0.ctrl2) { r_res = nak }; ep2_nak = true }
    else u0

-- The switch on the endpoint of an OUT token.
out_at : Sdk → UsbCdc → Status → ℕ → UsbCdc
unfolding ep2_received
out_at k u s e =
    if e == 0
    then (if s.tog_ok then handle_ep0_out u else u)
    else if e == 2
    then ep2_received u s.received
    else u

transfer : Sdk → UsbCdc → Status → Token → UsbCdc
unfolding out_at
transfer k u s token_in =
    if s.endp == 0
    then handle_ep0_in k u
    else if s.endp == 1
    then ep1_done u
    else if s.endp == 3
    then ep3_done u
    else u
transfer k u s token_out = out_at k u s s.endp
transfer k u s token_setup = handle_setup k u
transfer k u s token_sof = u

-- The flags of `INT_FG`, in the order in which they are tested; the one that is handled is cleared.
dispatch : Sdk → UsbCdc → Status → Bool → Bool → Bool → UsbCdc
unfolding transfer
dispatch k u s true _ _ = record (transfer k u s s.token) { fg_transfer = false }
dispatch k u s false true _ = record (bus_reset u) { fg_bus_rst = false }
dispatch k u s false false true = record u { fg_suspend = false; suspended = s.ums_suspend }
dispatch k u s false false false = u

unfoldable pub on_irq : Sdk → UsbCdc → Status → UsbCdc
unfolding dispatch
on_irq k u s = dispatch k u s u.fg_transfer u.fg_bus_rst u.fg_suspend

-- `tick` after the poll of the flags: the OUT endpoint, then the coalescing of the stream.
unfoldable pub reopen_ep2 : UsbCdc → UsbCdc
reopen_ep2 u =
    if u.ep2_nak && leb packet (free rx_capacity u.rx)
    then record u { ctrl2 = record (u.ctrl2) { r_res = ack }; ep2_nak = false }
    else u

-- The residual bytes, held since `partialSinceMs_`.
abbrev pub hold : UsbCdc → ℕ → UsbCdc
hold u now_ms = record u {
  partial_pending = true;
  partial_since_ms = if u.partial_pending then u.partial_since_ms else now_ms;
}

unfoldable pub coalesce_free : UsbCdc → ℕ → UsbCdc
coalesce_free u now_ms =
    let n = size u.tx in
    let held = hold u now_ms in
    if leb packet n
    then (arm_ep3_from_tx (record u { partial_pending = false }) false).1
    else if not (n == 0)
    then (if leb partial_flush_ms (sub32 now_ms held.partial_since_ms)
        then (arm_ep3_from_tx (record held { partial_pending = false }) true).1
        else held)
    else record u { partial_pending = false }

unfoldable pub coalesce : UsbCdc → ℕ → UsbCdc
unfolding coalesce_free
coalesce u now_ms = if u.ep3_busy then u else coalesce_free u now_ms

-- The poll of the flags that `tick` begins with.
unfoldable pub poll_flags : Sdk → UsbCdc → Status → UsbCdc
poll_flags k u s = if u.fg_transfer || u.fg_bus_rst || u.fg_suspend then on_irq k u s else u

unfoldable pub tick : Sdk → UsbCdc → Status → ℕ → UsbCdc
unfolding poll_flags reopen_ep2 coalesce
tick k u s now_ms = coalesce (reopen_ep2 (poll_flags k u s)) now_ms

abbrev is_in : Token → Bool
is_in token_in = true
is_in _ = false

abbrev pub is_ep3_in : Status → Bool
is_ep3_in s = is_in s.token && s.endp == 3

-- `pump` after its test that endpoint 3 has completed.
unfoldable pub next_packet : UsbCdc → UsbCdc
next_packet u =
    let (armed, v) = arm_ep3_from_tx (record (ep3_done u) { fg_transfer = false }) false in
    if armed then record v { partial_pending = false } else v

-- The two tests of `pump`.
pump_case : Sdk → UsbCdc → Status → Bool → Bool → UsbCdc
unfolding next_packet
pump_case k u s false _ = u
pump_case k u s true false = on_irq k u s
pump_case k u s true true = next_packet u

unfoldable pub pump : Sdk → UsbCdc → Status → UsbCdc
unfolding pump_case
pump k u s = pump_case k u s u.fg_transfer (is_ep3_in s)
