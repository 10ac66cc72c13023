-- ===== src/Examples/Usb.antt =====
-- src/usb/usb_cdc.cpp at concrete inputs.
use ch32_tapioca.Prelude.{
  ◌-◌, ℕ, ◌+◌, ◌*◌, ◌≡◌, ◌≢◌, refl, arith, Bool, true, false, List, [], ◌∷◌, ◌++◌, none, some, ◌==◌,
  if◌then◌else◌, take,
}
use ch32_tapioca.Ring.{Ring, size, read_run}
use ch32_tapioca.Ring.Queue.{IsValid, contents}
use ch32_tapioca.Usb.Descriptors.{config_table, config_len}
use ch32_tapioca.Usb.Device.{
  UsbCdc, Sdk, Setup, Ctrl, ack, nak, DescrKind, device, config, string, other_kind, Feature,
  endp_halt, remote_wakeup, RequestType, standard, class_type, Recipient, to_device, to_endpoint,
  Code, get_descriptor, clear_feature, get_line_coding, set_line_coding, whole, write, rx_capacity,
  tx_capacity,
}
use ch32_tapioca.Usb.Control.{handle_setup, handle_ep0_out}
use ch32_tapioca.Usb.Requests.{descriptor}
use ch32_tapioca.Usb.Control.Read.{reply, replies, handle_setup-descriptor}
use ch32_tapioca.Usb.Control.Coding.{get_line_coding-reads_past, handle_ep0_out-coding}
use ch32_tapioca.Usb.Bulk.{
  Status, token_out, token_setup, token_sof, on_irq, tick, coalesce, ep2_received,
}
use ch32_tapioca.Usb.Bulk.Flow.{HasRoom, on_irq-received}
use ch32_tapioca.Usb.Bulk.Throttle.{IsShut, tick-IsShut, clear_halt-drops}
use ch32_tapioca.Usb.Bulk.Flush.{coalesce-flushes}
use ch32_tapioca.Usb.Bulk.Stream.{Runs, Runs-stream}
use ch32_tapioca.Usb.Bulk.Halt.{Quiet, clear_halt-IsDeaf}

abbrev request : Bool → RequestType → Recipient → Code → ℕ → ℕ → ℕ → Setup
request d t r c v i n = record {
  to_host = d;
  type_of = t;
  recipient = r;
  code = c;
  value = v;
  index = i;
  len = n;
}

-- The first byte of the buffer chooses one of five requests here.
abbrev setup_of : (ℕ → ℕ) → Setup
setup_of ep0 =
    if ep0 0 == 1
    then request true standard to_device get_descriptor 0x200 0 255
    else if ep0 0 == 2
    then request false standard to_endpoint clear_feature 0 0x83 0
    else if ep0 0 == 3
    then request true class_type to_device get_line_coding 0 0 64
    else if ep0 0 == 5
    then request false standard to_endpoint clear_feature 0 0x02 0
    else request true class_type to_device get_line_coding 0 0 7

abbrev kind_of : ℕ → DescrKind
kind_of v =
    if v == 1 then device else if v == 2 then config else if v == 3 then string else other_kind

abbrev feature_of : ℕ → Feature
feature_of v = if v == 0 then endp_halt else remote_wakeup

abbrev pub sdk : Sdk
sdk = record {
  setup_of = setup_of;
  kind_of = kind_of;
  feature_of = feature_of;
  with_address = λ old address. address;
  past = λ table i. 0xee;
}

abbrev empty : Ring ℕ
empty = record { head = 0; tail = 0; buf = λ i. 0 }

abbrev idle_ctrl : Ctrl
idle_ctrl = whole nak ack false false

-- A device whose endpoint-0 buffer starts with `first` and holds 7 bytes counted up from it.
abbrev device_with : ℕ → UsbCdc
device_with first = record {
  ep0 = λ i. first + i;
  ep3 = [];
  rx = empty;
  tx = empty;
  descr = none;
  setup = request false class_type to_device set_line_coding 0 0 7;
  setup_len = 7;
  dev_addr = 0;
  dev_config = 0;
  enumerated = true;
  wakeup_enabled = false;
  suspended = false;
  lc_wire = 0x00 ∷ 0xc2 ∷ 0x01 ∷ 0x00 ∷ 0x00 ∷ 0x00 ∷ 0x08 ∷ [];
  lc = record { baud = 115200; stop_bits = 0; parity = 0; data_bits = 8 };
  lc_changed = false;
  dtr = false;
  session_started = false;
  ep3_busy = false;
  ep2_nak = false;
  tx_pkts = 0;
  tx_bytes = 0;
  full_pkts = 0;
  short_pkts = 0;
  partial_pending = false;
  partial_since_ms = 0;
  ctrl0 = idle_ctrl;
  ctrl1 = idle_ctrl;
  ctrl2 = whole ack ack false false;
  ctrl3 = idle_ctrl;
  tx_len0 = 0;
  tx_len1 = 0;
  tx_len3 = 0;
  addr_reg = 5;
  fg_transfer = true;
  fg_bus_rst = false;
  fg_suspend = false;
}

rx-IsValid : IsValid rx_capacity empty
unfolding size
rx-IsValid = record {
  fits = record { positive = omega arith; small = omega arith };
  head_word = omega arith;
  tail_word = omega arith;
  within = omega arith;
}

tx-IsValid : IsValid tx_capacity empty
unfolding size
tx-IsValid = record {
  fits = record { positive = omega arith; small = omega arith };
  head_word = omega arith;
  tail_word = omega arith;
  within = omega arith;
}

room : HasRoom (device_with 1)
unfolding size
room = record { valid = rx-IsValid; room = λ p. omega arith }

-- Three bytes have come in at endpoint 2.
abbrev came_in : Status
came_in = record {
  token = token_out;
  endp = 2;
  tog_ok = true;
  received = 10 ∷ 11 ∷ 12 ∷ [];
  ums_suspend = false;
}

tick-IsShut_example :
    HasRoom (tick sdk (device_with 1) came_in 20) × IsShut (tick sdk (device_with 1) came_in 20)
tick-IsShut_example =
    tick-IsShut sdk (device_with 1) came_in 20 (λ (e : token_out ≡ token_setup). absurd (cc)) room
      (λ (e : (device_with 1).ep2_nak ≡ true). absurd (cc))

-- The ring of received bytes is full but for two, and the endpoint is throttled.
abbrev throttled : UsbCdc
throttled = record (device_with 5) {
  rx = record { head = 1022; tail = 0; buf = λ i. i };
  ep2_nak = true;
  ctrl2 = whole ack nak false false;
}

throttled-IsValid : IsValid rx_capacity throttled.rx
unfolding size
throttled-IsValid = record {
  fits = record { positive = omega arith; small = omega arith };
  head_word = omega arith;
  tail_word = omega arith;
  within = omega arith;
}

clear_halt-drops_example :
    let v = handle_setup sdk throttled in
    (v.ctrl2.r_res ≡ ack)
    × (v.ep2_nak ≡ true)
    × (v.rx ≡ throttled.rx)
    × (contents rx_capacity (ep2_received v (10 ∷ 11 ∷ 12 ∷ [])).rx
        ≡ contents rx_capacity throttled.rx
          ++ take (rx_capacity - size throttled.rx) (10 ∷ 11 ∷ 12 ∷ []))
clear_halt-drops_example =
    clear_halt-drops sdk throttled (10 ∷ 11 ∷ 12 ∷ []) (refl, refl, refl, refl, refl)
      throttled-IsValid refl

on_irq-received_example :
    contents rx_capacity (on_irq sdk (device_with 1) came_in).rx
    ≡ contents rx_capacity empty ++ 10 ∷ 11 ∷ 12 ∷ []
on_irq-received_example =
    on_irq-received sdk (device_with 1) came_in room refl refl refl refl (omega arith)

-- A device with five bytes to send.
abbrev pub filled : UsbCdc
filled = record (device_with 1) { tx = record { head = 5; tail = 0; buf = λ i. i } }

pub filled-IsValid : IsValid tx_capacity filled.tx
unfolding size
filled-IsValid = record {
  fits = record { positive = omega arith; small = omega arith };
  head_word = omega arith;
  tail_word = omega arith;
  within = omega arith;
}

filled-size : size filled.tx ≡ 5
unfolding size
filled-size = refl

coalesce-flushes_example : (coalesce (coalesce filled 4294967295) 0).ep3_busy ≡ true
coalesce-flushes_example =
    coalesce-flushes filled 4294967295 0 filled-IsValid (omega (arith, filled-size)) (omega arith)
      (omega arith) (omega arith) (omega arith)

-- Two bytes written to an empty stream.
abbrev two_bytes : List ℕ
two_bytes = 7 ∷ 8 ∷ []

two_written :
    Runs sdk
      (device_with 1)
      ([] ++ take (write (device_with 1) two_bytes).0 two_bytes)
      []
      (write (device_with 1) two_bytes).1
two_written = Runs.write_step two_bytes Runs.here

Runs-stream_example :
    (contents tx_capacity empty ++ ([] ++ take (write (device_with 1) two_bytes).0 two_bytes)
      ≡ [] ++ contents tx_capacity (write (device_with 1) two_bytes).1.tx)
    × IsValid tx_capacity (write (device_with 1) two_bytes).1.tx
Runs-stream_example = Runs-stream sdk (device_with 1) tx-IsValid two_written

config_found : descriptor sdk 0x200 ≡ some (config_table, config_len)
unfolding descriptor
config_found = refl

-- The configuration descriptor, of 67 bytes, goes out in two packets.
handle_setup-descriptor_example :
    reply (handle_setup sdk (device_with 1)) ++ replies sdk (handle_setup sdk (device_with 1)) 1
    ≡ take 67 config_table
unfolding config_table
handle_setup-descriptor_example =
    handle_setup-descriptor sdk (device_with 1) config_table config_len 1 refl refl refl
      config_found

-- A packet is in flight at endpoint 3 when the host clears its halt.
abbrev busy_device : UsbCdc
busy_device = record (device_with 2) { ep3_busy = true }

abbrev pub nothing_more : Status
nothing_more = record {
  token = token_sof;
  endp = 0;
  tog_ok = false;
  received = [];
  ums_suspend = false;
}

after_setup :
    Quiet sdk (handle_setup sdk busy_device) (write (handle_setup sdk busy_device) two_bytes).1
after_setup = Quiet.write_step two_bytes Quiet.here

clear_halt-IsDeaf_example :
    ((write (handle_setup sdk busy_device) two_bytes).1.ep3_busy ≡ true)
    × ((write (handle_setup sdk busy_device) two_bytes).1.ctrl3.t_res ≢ ack)
clear_halt-IsDeaf_example =
    clear_halt-IsDeaf sdk busy_device refl refl refl refl refl refl after_setup

get_line_coding-reads_past_example :
    reply (handle_setup sdk (device_with 3))
    ≡ (0x00 ∷ 0xc2 ∷ 0x01 ∷ 0x00 ∷ 0x00 ∷ 0x00 ∷ 0x08 ∷ []) ++ read_run (λ (i : ℕ). 0xee) 0 57
get_line_coding-reads_past_example =
    get_line_coding-reads_past sdk (device_with 3) refl refl refl refl (omega arith) (omega arith)

handle_ep0_out-coding_example :
    let v = handle_ep0_out (device_with 1) in
    let w = record v { ep0 = λ (i : ℕ). 4 } in
    (v.lc.baud ≡ 1 + 2 * 256 + 3 * 65536 + 4 * 16777216)
    × (v.lc.stop_bits ≡ 5)
    × (v.lc.parity ≡ 6)
    × (v.lc.data_bits ≡ 7)
    × (v.lc_changed ≡ true)
    × (v.lc_wire ≡ read_run (λ (i : ℕ). 1 + i) 0 7)
    × (reply (handle_setup sdk w) ≡ read_run (λ (i : ℕ). 1 + i) 0 7)
handle_ep0_out-coding_example =
    handle_ep0_out-coding sdk (device_with 1)
      (record (handle_ep0_out (device_with 1)) { ep0 = λ (i : ℕ). 4 }) refl refl refl refl refl refl
      refl
