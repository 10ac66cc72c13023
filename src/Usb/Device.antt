-- ===== src/Usb/Device.antt =====
-- src/usb/usb_cdc.hpp: the members of `UsbCdc` and the registers of the peripheral that it writes.
-- A `CTRL_H` register is its four fields, the response and the data toggle in each direction; a value that the source
-- writes whole has the response ACK and a clear toggle where it does not name another, since these are zero bits.
-- The peripheral may change `INT_FG` and the buffer of endpoint 0 between two calls; the flags of `INT_FG` that the
-- source names are members. A buffer is a function from indices to bytes. A pointer is the bytes from it on.
-- The arguments of type `Sdk` stand for the names of the vendor's headers that are not constants of one switch.
use ch32_tapioca.Prelude.{
  ℕ, ◌+◌, ◌-◌, ◌*◌, Bool, true, false, List, Option, ltb, ◌==◌, if◌then◌else◌, get_or, length,
}
use ch32_tapioca.Ring.{
  Ring, size, free, pop, push, clear, free_contig, write_run, write_ptr, write_commit,
}

pub data Response : Type 0 where
  ack nak stall : Response

pub record Ctrl : Type 0 where
  pub t_res : Response
  pub r_res : Response
  pub t_tog : Bool
  pub r_tog : Bool

pub data DescrKind : Type 0 where
  device config string other_kind : DescrKind

pub data Feature : Type 0 where
  remote_wakeup endp_halt other_feature : Feature

-- The type and the recipient in `bRequestType`.
pub data RequestType : Type 0 where
  standard class_type vendor reserved : RequestType

pub data Recipient : Type 0 where
  to_device to_interface to_endpoint to_other : Recipient

-- The values of `bRequest` that the source names.
pub data Code : Type 0 where
  get_descriptor set_address get_configuration set_configuration clear_feature set_feature : Code
  get_interface set_interface get_status : Code
  get_line_coding set_line_coding set_line_ctlste send_break other_code : Code

-- The SETUP packet; `to_host` is bit 7 of `bRequestType`.
pub record Setup : Type 0 where
  pub to_host : Bool
  pub type_of : RequestType
  pub recipient : Recipient
  pub code : Code
  pub value : ℕ
  pub index : ℕ
  pub len : ℕ

-- `setup_of` reads `*(PUSB_SETUP_REQ)ep0_`, `kind_of` and `feature_of` compare with `USB_DESCR_TYP_*` and `USB_REQ_FEAT_*`,
-- `with_address` keeps the bits `USBFS_UDA_GP_BIT` of `DEV_ADDR`, and `past` is what lies in memory behind a table.
pub record Sdk : Type 0 where
  pub setup_of : (ℕ → ℕ) → Setup
  pub kind_of : ℕ → DescrKind
  pub feature_of : ℕ → Feature
  pub with_address : ℕ → ℕ → ℕ
  pub past : List ℕ → ℕ → ℕ

pub record LineCoding : Type 0 where
  pub baud : ℕ
  pub stop_bits : ℕ
  pub parity : ℕ
  pub data_bits : ℕ

pub record UsbCdc : Type 0 where
  pub ep0 : ℕ → ℕ
  pub ep3 : List ℕ
  pub rx : Ring ℕ
  pub tx : Ring ℕ
  pub descr : Option (ℕ → ℕ)
  pub setup : Setup
  pub setup_len : ℕ
  pub dev_addr : ℕ
  pub dev_config : ℕ
  pub enumerated : Bool
  pub wakeup_enabled : Bool  -- bit 0 of sleepStatus_
  pub suspended : Bool  -- bit 1 of sleepStatus_
  pub lc_wire : List ℕ
  pub lc : LineCoding
  pub lc_changed : Bool
  pub dtr : Bool
  pub session_started : Bool
  pub ep3_busy : Bool
  pub ep2_nak : Bool
  pub tx_pkts : ℕ
  pub tx_bytes : ℕ
  pub full_pkts : ℕ
  pub short_pkts : ℕ
  pub partial_pending : Bool
  pub partial_since_ms : ℕ
  pub ctrl0 : Ctrl
  pub ctrl1 : Ctrl
  pub ctrl2 : Ctrl
  pub ctrl3 : Ctrl
  pub tx_len0 : ℕ
  pub tx_len1 : ℕ
  pub tx_len3 : ℕ
  pub addr_reg : ℕ
  pub fg_transfer : Bool
  pub fg_bus_rst : Bool
  pub fg_suspend : Bool

abbrev pub rx_capacity : ℕ
rx_capacity = 1024

abbrev pub tx_capacity : ℕ
tx_capacity = 512

abbrev pub partial_flush_ms : ℕ
partial_flush_ms = 1

-- `at table past` points to the first byte of a table.
abbrev pub at : List ℕ → (ℕ → ℕ) → ℕ → ℕ
at xs past i = if ltb i (length xs) then get_or xs i 0 else past (i - length xs)

-- `memcpy(dst, src, n)`.
unfoldable pub memcpy : (ℕ → ℕ) → (ℕ → ℕ) → ℕ → ℕ → ℕ
memcpy dst src n i = if ltb i n then src i else dst i

abbrev pub store : (ℕ → ℕ) → ℕ → ℕ → ℕ → ℕ
store buf i v j = if j == i then v else buf j

-- The stream interface.
unfoldable pub available : UsbCdc → ℕ
available u = size u.rx

unfoldable pub read : UsbCdc → ℕ → List ℕ × UsbCdc
read u max_len = let (bytes, r) = pop rx_capacity u.rx max_len in (bytes, record u { rx = r })

unfoldable pub write_space : UsbCdc → ℕ
write_space u = free tx_capacity u.tx

unfoldable pub write : UsbCdc → List ℕ → ℕ × UsbCdc
write u src = let (n, r) = push tx_capacity u.tx src in (n, record u { tx = r })

unfoldable pub tx_reserve : UsbCdc → ℕ
tx_reserve u = free_contig tx_capacity u.tx

-- The bytes that a caller has stored from `txReserve` on, committed.
unfoldable pub tx_commit : UsbCdc → List ℕ → UsbCdc
tx_commit u bytes =
    let r = record (u.tx) { buf = write_run u.tx.buf (write_ptr tx_capacity u.tx) bytes } in
    record u { tx = write_commit r (length bytes) }

unfoldable pub line_coding_changed : UsbCdc → Bool × UsbCdc
line_coding_changed u = (u.lc_changed, record u { lc_changed = false })

unfoldable pub take_session_started : UsbCdc → Bool × UsbCdc
take_session_started u = (u.session_started, record u { session_started = false })

-- `decodeLineCoding`: the four bytes of the rate do not overlap, so `|` is a sum.
unfoldable pub decode_line_coding : UsbCdc → UsbCdc
decode_line_coding u =
    let b = λ (i : ℕ). get_or u.lc_wire i 0 in
    record u {
      lc = record {
        baud = b 0 + b 1 * 256 + b 2 * 65536 + b 3 * 16777216;
        stop_bits = b 4;
        parity = b 5;
        data_bits = b 6;
      };
    }

-- A `CTRL_H` register that is written whole.
abbrev pub whole : Response → Response → Bool → Bool → Ctrl
whole t r tt_ rt = record { t_res = t; r_res = r; t_tog = tt_; r_tog = rt }

-- `endpointInit`, without the DMA addresses and the mode registers.
unfoldable pub endpoint_init : UsbCdc → UsbCdc
endpoint_init u = record u {
  ctrl0 = whole nak ack false false;
  ctrl2 = whole ack ack false false;
  tx_len1 = 0;
  tx_len3 = 0;
  ctrl1 = whole nak ack false false;
  ctrl3 = whole nak ack false false;
  ep3_busy = false;
  ep2_nak = false;
  partial_pending = false;
}

-- `init`, without the clocks, the pins and the pull-ups.
unfoldable pub init : UsbCdc → UsbCdc
unfolding decode_line_coding endpoint_init
init u = record (endpoint_init (decode_line_coding u)) {
  addr_reg = 0;
  fg_transfer = false;
  fg_bus_rst = false;
  fg_suspend = false;
}

-- `busReset`.
unfoldable pub bus_reset : UsbCdc → UsbCdc
unfolding endpoint_init
bus_reset u = endpoint_init (record u {
  dev_config = 0;
  dev_addr = 0;
  wakeup_enabled = false;
  suspended = false;
  enumerated = false;
  dtr = false;
  session_started = true;
  rx = clear u.rx;
  tx = clear u.tx;
  addr_reg = 0;
})
