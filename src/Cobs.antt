-- ===== src/Cobs.antt =====
-- src/util/cobs.hpp: COBS framing in two keyings, `encode`/`decode` on 0x00 and `ff_encode`/`ff_decode`
-- on 0xFF. The source spells the two keyings out as two copies of one algorithm; here the delimiter
-- and the code of a full group are the parameters of a section.
-- The output buffer is the list of the bytes below `write_index`, so `write_index` is its length; the
-- byte reserved at `code_index` holds 0 until it is patched.
mod Spec
pub mod RoundTrip
pub mod Bounds
use ch32_tapioca.Prelude.{
  ℕ, zero, suc, ◌+◌, ◌-◌, ◌/◌, Bool, not, ◌&&◌, ◌||◌, List, [], ◌∷◌, ◌++◌, Option, none, some, ltb,
  ◌==◌, if◌then◌else◌, length, set, take, drop,
}
use ch32_tapioca.Prelude.Words.{to_u8}

pub max_encoded : ℕ → ℕ
max_encoded n = n + n / 254 + 1

unfoldable pub ff_max_encoded : ℕ → ℕ
ff_max_encoded n = n + n / 253 + 1

pub record Encoder : Type 0 where
  pub out : List ℕ
  pub code_index : ℕ
  pub code : ℕ

-- What the decoder returns, and what it has written by then.
pub record Decoded : Type 0 where
  pub size : ℕ
  pub out : List ℕ

abbrev pub is_empty : List ℕ → Bool
is_empty xs = length xs == 0

abbrev new_encoder : Encoder
new_encoder = record { out = 0 ∷ []; code_index = 0; code = 1 }

-- `out[code_index] = code; code = 1; code_index = write_index++`
close_group : Encoder → Encoder
close_group e = record {
  out = set e.out e.code_index e.code ++ 0 ∷ [];
  code_index = length e.out;
  code = 1;
}

module _ (delim full : ℕ) where
  encode_byte : Encoder → ℕ → Encoder
  unfolding close_group
  encode_byte e b =
      let grown : Encoder = record e { out = e.out ++ b ∷ []; code = to_u8 (e.code + 1) } in
      if b == delim then close_group e else if grown.code == full then close_group grown else grown

  encode_loop : Encoder → List ℕ → List ℕ
  encode_loop e [] = set e.out e.code_index e.code
  encode_loop e (b ∷ bs) = encode_loop (encode_byte e b) bs

  -- The list argument is what `read_index` has not reached. `none`: the fuel ran out.
  decode_loop : ℕ → List ℕ → List ℕ → Option Decoded
  decode_loop fuel [] out = some (record { size = length out; out = out })
  decode_loop zero (code ∷ rest) out = none
  decode_loop (suc fuel) (code ∷ rest) out =
      let after = drop (code - 1) rest in
      let copied = out ++ take (code - 1) rest in
      let written =
        if not (code == full) && not (is_empty after) then copied ++ delim ∷ [] else copied in
      let next = decode_loop fuel after written in
      if code == delim || code == 0
      then some (record { size = 0; out = out })
      else if ltb (length rest) (code - 1)
      then some (record { size = 0; out = out })
      else next

pub encode : List ℕ → List ℕ
unfolding encode_loop encode_byte
encode bytes = encode_loop 0x00 0xff new_encoder bytes

pub decode : List ℕ → Option Decoded
unfolding decode_loop
decode bytes = decode_loop 0x00 0xff (length bytes) bytes []

unfoldable pub ff_encode : List ℕ → List ℕ
unfolding encode_loop encode_byte
ff_encode bytes = encode_loop 0xff 0xfe new_encoder bytes

unfoldable pub ff_decode : List ℕ → Option Decoded
unfolding decode_loop
ff_decode bytes = decode_loop 0xff 0xfe (length bytes) bytes []
