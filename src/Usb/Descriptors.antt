-- ===== src/Usb/Descriptors.antt =====
-- src/usb/usb_descriptors.hpp: the tables that the device shows to the host.
use ch32_tapioca.Prelude.{ℕ, ◌+◌, ◌*◌, List, [], ◌∷◌, get_or}

abbrev pub ep0_size : ℕ
ep0_size = 64

abbrev pub packet : ℕ
packet = 64

abbrev pub str_lang : ℕ
str_lang = 0

abbrev pub str_manu : ℕ
str_manu = 1

abbrev pub str_prod : ℕ
str_prod = 2

abbrev pub str_serial : ℕ
str_serial = 3

unfoldable pub device_table : List ℕ
device_table =
    0x12 ∷ 0x01 ∷ 0x10 ∷ 0x01 ∷ 0x02 ∷ 0x00 ∷ 0x00 ∷ 0x40 ∷ 0x86 ∷ 0x1a ∷ 0x0c ∷ 0xfe ∷ 0x01 ∷ 0x00
    ∷ 0x01 ∷ 0x02 ∷ 0x00 ∷ 0x01 ∷ []

unfoldable pub config_table : List ℕ
config_table =
    0x09 ∷ 0x02 ∷ 0x43 ∷ 0x00 ∷ 0x02 ∷ 0x01 ∷ 0x00 ∷ 0x80 ∷ 0x32 ∷ 0x09 ∷ 0x04 ∷ 0x00 ∷ 0x00 ∷ 0x01
    ∷ 0x02 ∷ 0x02 ∷ 0x01 ∷ 0x00 ∷ 0x05 ∷ 0x24 ∷ 0x00 ∷ 0x10 ∷ 0x01 ∷ 0x05 ∷ 0x24 ∷ 0x01 ∷ 0x00
    ∷ 0x01 ∷ 0x04 ∷ 0x24 ∷ 0x02 ∷ 0x02 ∷ 0x05 ∷ 0x24 ∷ 0x06 ∷ 0x00 ∷ 0x01 ∷ 0x07 ∷ 0x05 ∷ 0x81
    ∷ 0x03 ∷ 0x40 ∷ 0x00 ∷ 0x01 ∷ 0x09 ∷ 0x04 ∷ 0x01 ∷ 0x00 ∷ 0x02 ∷ 0x0a ∷ 0x00 ∷ 0x00 ∷ 0x00
    ∷ 0x07 ∷ 0x05 ∷ 0x02 ∷ 0x02 ∷ 0x40 ∷ 0x00 ∷ 0x00 ∷ 0x07 ∷ 0x05 ∷ 0x83 ∷ 0x02 ∷ 0x40 ∷ 0x00
    ∷ 0x00 ∷ []

unfoldable pub lang_table : List ℕ
lang_table = 0x04 ∷ 0x03 ∷ 0x09 ∷ 0x04 ∷ []

unfoldable pub manufacturer_table : List ℕ
manufacturer_table =
    0x0e ∷ 0x03 ∷ 0x77 ∷ 0x00 ∷ 0x63 ∷ 0x00 ∷ 0x68 ∷ 0x00 ∷ 0x2e ∷ 0x00 ∷ 0x63 ∷ 0x00 ∷ 0x6e ∷ 0x00
    ∷ []

unfoldable pub product_table : List ℕ
product_table =
    0x16 ∷ 0x03 ∷ 0x55 ∷ 0x00 ∷ 0x53 ∷ 0x00 ∷ 0x42 ∷ 0x00 ∷ 0x20 ∷ 0x00 ∷ 0x53 ∷ 0x00 ∷ 0x65 ∷ 0x00
    ∷ 0x72 ∷ 0x00 ∷ 0x69 ∷ 0x00 ∷ 0x61 ∷ 0x00 ∷ 0x6c ∷ 0x00 ∷ []

unfoldable pub serial_table : List ℕ
serial_table =
    0x16 ∷ 0x03 ∷ 0x30 ∷ 0x00 ∷ 0x31 ∷ 0x00 ∷ 0x32 ∷ 0x00 ∷ 0x33 ∷ 0x00 ∷ 0x34 ∷ 0x00 ∷ 0x35 ∷ 0x00
    ∷ 0x36 ∷ 0x00 ∷ 0x37 ∷ 0x00 ∷ 0x38 ∷ 0x00 ∷ 0x39 ∷ 0x00 ∷ []

unfoldable pub device_len : ℕ
unfolding device_table
device_len = get_or device_table 0 0

-- The two bytes do not overlap, so `|` is a sum.
unfoldable pub config_len : ℕ
unfolding config_table
config_len = get_or config_table 2 0 + get_or config_table 3 0 * 256
