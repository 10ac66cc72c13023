-- ===== src/Framer.antt =====
-- src/sniffer/record_framer.hpp: the 12-byte record header and the three kinds of frame. What a function
-- writes to its output buffer is the list that it returns, and the number that it returns is the length of that
-- list; `frame_meta` returns the empty list where the source returns 0.
pub mod Header
pub mod Demux
use ch32_tapioca.Prelude.{
  ℕ, ◌+◌, ◌/◌, Bool, true, false, ◌||◌, List, [], ◌∷◌, ◌++◌, Option, none, some, ltb, ◌==◌,
  if◌then◌else◌, length,
}
use ch32_tapioca.Prelude.Words.{to_u8}
use ch32_tapioca.Cobs.{ff_encode}

abbrev pub header_len : ℕ
header_len = 12

abbrev pub type_mdio : ℕ
type_mdio = 0x01

abbrev pub flag_ovf_pioc : ℕ
flag_ovf_pioc = 0x01

abbrev pub flag_ovf_ram : ℕ
flag_ovf_ram = 0x02

abbrev pub flag_continued : ℕ
flag_continued = 0x04

unfoldable pub put_u16 : ℕ → List ℕ
put_u16 v = to_u8 v ∷ to_u8 (v / 256) ∷ []

unfoldable pub put_u32 : ℕ → List ℕ
put_u32 v = to_u8 v ∷ to_u8 (v / 256) ∷ to_u8 (v / 65536) ∷ to_u8 (v / 16777216) ∷ []

-- `type`, `t_us`, `dur_us`, `onset_us`, `flags`, `n`.
unfoldable pub put_header : ℕ → ℕ → ℕ → ℕ → ℕ → ℕ → List ℕ
unfolding put_u16 put_u32
put_header kind t_us dur_us onset_us flags n =
    kind ∷ (put_u32 t_us ++ (put_u16 dur_us ++ (put_u16 onset_us ++ flags ∷ put_u16 n)))

unfoldable pub frame_record : List ℕ → List ℕ
frame_record raw = ff_encode raw ++ 0xff ∷ []

-- The text of the loop: the characters copied, or `none` at the first one that is not printable.
unfoldable pub copy_printable : List ℕ → Option (List ℕ)
copy_printable [] = some []
copy_printable (c ∷ cs) =
    let rest : Option (List ℕ) = elim (copy_printable cs) [
      | none ↦ none
      | some out ↦ some (c ∷ out)
    ] in
    if ltb c 0x20 || ltb 0x7e c then none else rest

abbrev pub starts_with_bracket : List ℕ → Bool
starts_with_bracket [] = false
starts_with_bracket (c ∷ cs) = c == b'['

-- `none` is the null pointer; the characters are those before the NUL.
unfoldable pub frame_meta : Option (List ℕ) → List ℕ
unfolding copy_printable
frame_meta none = []
frame_meta (some ascii) =
    let block : List ℕ = elim (copy_printable ascii) [
      | none ↦ []
      | some out ↦ 0xfe ∷ (out ++ 0xfe ∷ 0xff ∷ [])
    ] in
    if starts_with_bracket ascii then block else []

unfoldable pub frame_loss : List ℕ
frame_loss = 0xfd ∷ 0xff ∷ []
