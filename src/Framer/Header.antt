-- ===== src/Framer/Header.antt =====
-- src/sniffer/record_framer.hpp: the header, read back in the layout of docs/sniffer-usb-wire-api.md.
use ch32_tapioca.Prelude.{ℕ, ◌+◌, ◌*◌, ◌≡◌, arith, List, ◌++◌, length, All, get_or}
use ch32_tapioca.Prelude.Words.{IsByte, IsU16, IsU32}
use ch32_tapioca.Framer.{put_header, header_len}

-- Little-endian fields at an offset.
abbrev pub byte_at : List ℕ → ℕ → ℕ
byte_at raw i = get_or raw i 0

abbrev pub u16_at : List ℕ → ℕ → ℕ
u16_at raw i = byte_at raw i + byte_at raw (i + 1) * 256

abbrev pub u32_at : List ℕ → ℕ → ℕ
u32_at raw i = u16_at raw i + u16_at raw (i + 2) * 65536

module _ (kind t_us dur_us onset_us flags n : ℕ) (kind_byte : IsByte kind) (t_word : IsU32 t_us)
    (dur_word : IsU16 dur_us) (onset_word : IsU16 onset_us) (flags_byte : IsByte flags)
    (n_word : IsU16 n) where
  -- The header is 12 bytes, whatever payload follows it; every field in the range of its type is read back at
  -- its offset.
  pub put_header_lem :
      (payload : List ℕ)
      → let raw = put_header kind t_us dur_us onset_us flags n ++ payload in
        (length (put_header kind t_us dur_us onset_us flags n) ≡ header_len)
        × All IsByte (put_header kind t_us dur_us onset_us flags n)
        × (byte_at raw 0 ≡ kind)
        × (u32_at raw 1 ≡ t_us)
        × (u16_at raw 5 ≡ dur_us)
        × (u16_at raw 7 ≡ onset_us)
        × (byte_at raw 9 ≡ flags)
        × (u16_at raw 10 ≡ n)
  unfolding put_header
  put_header_lem payload = omega arith
