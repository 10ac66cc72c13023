-- ===== src/Usb/Requests.antt =====
-- src/usb/usb_cdc.cpp: the requests of a SETUP packet. A request handler returns the device and `errflag`.
use ch32_tapioca.Prelude.{
  ℕ, ◌+◌, ◌/◌, ◌%◌, Bool, true, false, not, ◌&&◌, List, Option, none, some, ltb, leb, ◌==◌,
  if◌then◌else◌, get_or,
}
use ch32_tapioca.Ring.{clear}
use ch32_tapioca.Usb.Descriptors.{
  ep0_size, str_lang, str_manu, str_prod, str_serial, device_table, config_table, lang_table,
  manufacturer_table, product_table, serial_table, device_len, config_len,
}
use ch32_tapioca.Usb.Device.{
  Response, ack, nak, stall, DescrKind, device, config, string, other_kind, Feature, remote_wakeup,
  endp_halt, RequestType, standard, class_type, vendor, reserved, Recipient, to_device, to_endpoint,
  Code, get_descriptor, set_address, get_configuration, set_configuration, clear_feature,
  set_feature, get_interface, set_interface, get_status, get_line_coding, set_line_coding,
  set_line_ctlste, send_break, Sdk, UsbCdc, at, memcpy, store, whole,
}

-- `UEP_IN | UEP1`, `UEP_OUT | UEP2` and `UEP_IN | UEP3`.
abbrev pub endpoint_in1 : ℕ
endpoint_in1 = 0x81

abbrev pub endpoint_out2 : ℕ
endpoint_out2 = 0x02

abbrev pub endpoint_in3 : ℕ
endpoint_in3 = 0x83

abbrev pub low_byte : ℕ → ℕ
low_byte v = v % 256

abbrev pub at_most_packet : ℕ → ℕ
at_most_packet n = if leb ep0_size n then ep0_size else n

abbrev pub is_standard : RequestType → Bool
is_standard standard = true
is_standard class_type = false
is_standard vendor = false
is_standard reserved = false

-- `setupReqType_ & USB_REQ_TYP_CLASS`.
abbrev pub has_class_bit : RequestType → Bool
has_class_bit standard = false
has_class_bit class_type = true
has_class_bit vendor = false
has_class_bit reserved = true

-- `memcpy(ep0_, descr_, len); descr_ += len;`, if there is a descriptor.
unfoldable pub stage_at : UsbCdc → ℕ → Option (ℕ → ℕ) → UsbCdc
unfolding memcpy
stage_at u len none = u
stage_at u len (some d) = record u { ep0 = memcpy u.ep0 d len; descr = some (λ i. d (len + i)) }

unfoldable pub stage : UsbCdc → ℕ → UsbCdc
unfolding stage_at
stage u len = stage_at u len u.descr

unfoldable pub set_line_state : UsbCdc → UsbCdc
set_line_state u =
    let next_dtr = u.setup.value % 2 == 1 in
    let opened = record u { rx = clear u.rx; session_started = true } in
    record (if next_dtr && not u.dtr then opened else u) { dtr = next_dtr }

unfoldable pub class_code : Sdk → UsbCdc → Code → UsbCdc × Bool
unfolding set_line_state
class_code k u get_line_coding =
    (record u { descr = some (at u.lc_wire (k.past u.lc_wire)) }, false)
class_code k u set_line_coding = (u, false)
class_code k u set_line_ctlste = (set_line_state u, false)
class_code k u send_break = (u, false)
class_code k u _ = (u, true)

unfoldable pub class_request : Sdk → UsbCdc → UsbCdc × Bool
unfolding class_code stage
class_request k u =
    let (u', err) =
      if has_class_bit u.setup.type_of then class_code k u u.setup.code else (u, true) in
    (stage u' (at_most_packet u'.setup_len), err)

-- A table and its length; `none` is an error.
unfoldable pub string_descriptor : ℕ → Option (List ℕ × ℕ)
string_descriptor i =
    if i == str_lang
    then some (lang_table, get_or lang_table 0 0)
    else if i == str_manu
    then some (manufacturer_table, get_or manufacturer_table 0 0)
    else if i == str_prod
    then some (product_table, get_or product_table 0 0)
    else if i == str_serial
    then some (serial_table, get_or serial_table 0 0)
    else none

unfoldable pub descriptor_of : DescrKind → ℕ → Option (List ℕ × ℕ)
descriptor_of device i = some (device_table, device_len)
descriptor_of config i = some (config_table, config_len)
descriptor_of string i = string_descriptor i
descriptor_of other_kind i = none

unfoldable pub descriptor : Sdk → ℕ → Option (List ℕ × ℕ)
unfolding descriptor_of string_descriptor
descriptor k value = descriptor_of (k.kind_of (value / 256)) (low_byte value)

-- `if (setupLen_ > len) setupLen_ = len;`
abbrev pub clamp : ℕ → ℕ → ℕ
clamp n len = if ltb len n then len else n

unfoldable pub stage_table : Sdk → UsbCdc → Option (List ℕ × ℕ) → UsbCdc × Bool
unfolding stage
stage_table k u none = (record u { setup_len = clamp u.setup_len 0 }, true)
stage_table k u (some (table, len)) =
    let n = clamp u.setup_len len in
    (
      stage (record u { descr = some (at table (k.past table)); setup_len = n }) (at_most_packet n),
      false,
    )

unfoldable pub get_descriptor_request : Sdk → UsbCdc → UsbCdc × Bool
unfolding stage_table
get_descriptor_request k u = stage_table k u (descriptor k u.setup.value)

-- The switches on the endpoint of `CLEAR_FEATURE`, `SET_FEATURE` and `GET_STATUS`.
unfoldable pub clear_halt : UsbCdc → ℕ → UsbCdc × Bool
clear_halt u e =
    if e == endpoint_in1
    then (record u { ctrl1 = whole nak ack false false }, false)
    else if e == endpoint_out2
    then (record u { ctrl2 = whole ack ack false false }, false)
    else if e == endpoint_in3
    then (record u { ctrl3 = whole nak ack false false }, false)
    else (u, true)

unfoldable pub set_halt : UsbCdc → ℕ → UsbCdc × Bool
set_halt u e =
    if e == endpoint_in1
    then (record u { ctrl1 = record (u.ctrl1) { t_res = stall } }, false)
    else if e == endpoint_out2
    then (record u { ctrl2 = record (u.ctrl2) { r_res = stall } }, false)
    else if e == endpoint_in3
    then (record u { ctrl3 = record (u.ctrl3) { t_res = stall } }, false)
    else (u, true)

abbrev is_stall : Response → Bool
is_stall stall = true
is_stall _ = false

abbrev put0 : UsbCdc → ℕ → UsbCdc
put0 u v = record u { ep0 = store u.ep0 0 v }

endpoint_status : UsbCdc → ℕ → UsbCdc × Bool
endpoint_status u e =
    let halted = λ (b : Bool). if b then put0 u 1 else u in
    if e == endpoint_in1
    then (halted (is_stall u.ctrl1.t_res), false)
    else if e == endpoint_out2
    then (halted (is_stall u.ctrl2.r_res), false)
    else if e == endpoint_in3
    then (halted (is_stall u.ctrl3.t_res), false)
    else (u, true)

unfoldable pub clear_feature_of : Recipient → Feature → UsbCdc → UsbCdc × Bool
unfolding clear_halt
clear_feature_of to_device remote_wakeup u = (record u { wakeup_enabled = false }, false)
clear_feature_of to_device _ u = (u, false)
clear_feature_of to_endpoint endp_halt u = clear_halt u (low_byte u.setup.index)
clear_feature_of _ _ u = (u, true)

unfoldable pub set_feature_of : Recipient → Feature → UsbCdc → UsbCdc × Bool
unfolding set_halt
set_feature_of to_device remote_wakeup u =
    if get_or config_table 7 0 / 32 % 2 == 1
    then (record u { wakeup_enabled = true }, false)
    else (u, true)
set_feature_of to_endpoint endp_halt u = set_halt u (low_byte u.setup.index)
set_feature_of _ _ u = (u, true)

unfoldable pub status_of : Recipient → UsbCdc → UsbCdc × Bool
unfolding endpoint_status
status_of to_device u = (if u.wakeup_enabled then put0 u 2 else u, false)
status_of to_endpoint u = endpoint_status u (low_byte u.setup.index)
status_of _ u = (u, true)

abbrev limit_len : ℕ → UsbCdc × Bool → UsbCdc × Bool
limit_len n (u, err) = (record u { setup_len = clamp u.setup_len n }, err)

unfoldable pub standard_request : Sdk → UsbCdc → Code → UsbCdc × Bool
unfolding get_descriptor_request clear_feature_of set_feature_of status_of
standard_request k u get_descriptor = get_descriptor_request k u
standard_request k u set_address = (record u { dev_addr = low_byte u.setup.value }, false)
standard_request k u get_configuration = limit_len 1 (put0 u u.dev_config, false)
standard_request k u set_configuration =
    (record u { dev_config = low_byte u.setup.value; enumerated = true }, false)
standard_request k u clear_feature =
    clear_feature_of u.setup.recipient (k.feature_of (low_byte u.setup.value)) u
standard_request k u set_feature =
    set_feature_of u.setup.recipient (k.feature_of (low_byte u.setup.value)) u
standard_request k u get_interface = limit_len 1 (put0 u 0, false)
standard_request k u set_interface = (u, false)
standard_request k u get_status =
    limit_len 2 (status_of u.setup.recipient (record u { ep0 = store (store u.ep0 0 0) 1 0 }))
standard_request k u _ = (u, true)
