-- ===== src/Usb/Control.antt =====
-- src/usb/usb_cdc.cpp: the handlers of endpoint 0.
pub mod Frame
pub mod Endpoint2
pub mod Copies
pub mod Read
pub mod Coding
use ch32_tapioca.Prelude.{
  ℕ, ◌+◌, ◌-◌, ◌/◌, ◌%◌, Bool, true, false, not, ◌&&◌, List, Option, none, some, ltb, leb, ◌==◌,
  if◌then◌else◌, get_or,
}
use ch32_tapioca.Ring.{clear, read_run}
use ch32_tapioca.Usb.Descriptors.{
  ep0_size, str_lang, str_manu, str_prod, str_serial, device_table, config_table, lang_table,
  manufacturer_table, product_table, serial_table, device_len, config_len,
}
use ch32_tapioca.Usb.Device.{
  Response, ack, nak, stall, Ctrl, DescrKind, device, config, string, other_kind, Feature,
  remote_wakeup, endp_halt, other_feature, RequestType, standard, class_type, vendor, reserved,
  Recipient, to_device, to_interface, to_endpoint, to_other, Code, get_descriptor, set_address,
  get_configuration, set_configuration, clear_feature, set_feature, get_interface, set_interface,
  get_status, get_line_coding, set_line_coding, set_line_ctlste, send_break, other_code, Setup, Sdk,
  UsbCdc, at, memcpy, store, whole, decode_line_coding,
}
use ch32_tapioca.Usb.Requests.{at_most_packet, is_standard, stage, class_request, standard_request}

-- The end of `handleSetup`: a stall, the first packet of a data stage to the host, or the next stage armed.
unfoldable pub arm_setup : UsbCdc → Bool → UsbCdc
arm_setup u err =
    let len = if ltb ep0_size u.setup_len then ep0_size else u.setup_len in
    if err
    then record u { ctrl0 = whole stall stall true true }
    else if u.setup.to_host
    then record u {
      setup_len = u.setup_len - len;
      tx_len0 = len;
      ctrl0 = record (u.ctrl0) { t_res = ack; t_tog = true };
    }
    else if u.setup_len == 0
    then record u { tx_len0 = 0; ctrl0 = record (u.ctrl0) { t_res = ack; t_tog = true } }
    else record u { ctrl0 = record (u.ctrl0) { r_res = ack; r_tog = true } }

unfoldable pub handle_setup : Sdk → UsbCdc → UsbCdc
unfolding class_request standard_request arm_setup
handle_setup k u =
    let req = k.setup_of u.ep0 in
    let u0 = record u {
      ctrl0 = whole nak nak true true;
      descr = none;
      setup = req;
      setup_len = req.len;
    } in
    let (u1, err) =
      if is_standard req.type_of then standard_request k u0 req.code else class_request k u0 in
    arm_setup u1 err

abbrev ep0_in_code : Sdk → UsbCdc → Code → UsbCdc
ep0_in_code k u get_descriptor =
    let len = at_most_packet u.setup_len in
    record (stage u len) {
      setup_len = u.setup_len - len;
      tx_len0 = len;
      ctrl0 = record (u.ctrl0) { t_tog = not u.ctrl0.t_tog };
    }
ep0_in_code k u set_address = record u { addr_reg = k.with_address u.addr_reg u.dev_addr }
ep0_in_code k u _ = u

-- The status stage of a transfer to the host.
status_stage : UsbCdc → UsbCdc
status_stage u =
    if u.setup_len == 0
    then record u { ctrl0 = record (u.ctrl0) { r_res = ack; r_tog = true } }
    else u

unfoldable pub handle_ep0_in : Sdk → UsbCdc → UsbCdc
unfolding stage status_stage
handle_ep0_in k u =
    let u0 = status_stage u in
    if is_standard u.setup.type_of then ep0_in_code k u0 u.setup.code else u0

abbrev is_set_line_coding : Code → Bool
is_set_line_coding set_line_coding = true
is_set_line_coding _ = false

-- The data stage of `SET_LINE_CODING`.
unfoldable pub set_coding : UsbCdc → UsbCdc
unfolding decode_line_coding read_run
set_coding u = record (decode_line_coding (record u { lc_wire = read_run u.ep0 0 7 })) {
  lc_changed = true;
}

ep0_out_data : UsbCdc → Bool → Bool → UsbCdc
ep0_out_data u true coding = u
ep0_out_data u false true = record (set_coding u) { setup_len = 0 }
ep0_out_data u false false = record u { setup_len = 0 }

ep0_out_status : UsbCdc → UsbCdc
ep0_out_status u =
    if u.setup_len == 0
    then record u { tx_len0 = 0; ctrl0 = record (u.ctrl0) { t_res = ack; t_tog = true } }
    else u

unfoldable pub handle_ep0_out : UsbCdc → UsbCdc
unfolding ep0_out_data ep0_out_status set_coding
handle_ep0_out u =
    ep0_out_status (ep0_out_data u (is_standard u.setup.type_of) (is_set_line_coding u.setup.code))
