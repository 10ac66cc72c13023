-- ===== src/Examples/Framing.antt =====
-- src/util/cobs.hpp, src/sniffer/record_framer.hpp, src/sniffer/mode_command.hpp and src/main_sniffer.cpp at concrete inputs.
use ch32_tapioca.Prelude.{
  ℕ, ◌≤◌, ◌<◌, ◌≡◌, ◌≢◌, ◌↔◌, refl, arith, true, [], ◌∷◌, ◌++◌, List, some, length, All, map,
}
use ch32_tapioca.Prelude.Words.{IsByte}
use ch32_tapioca.Cobs.{Decoded, encode, decode, ff_encode, ff_decode, max_encoded, ff_max_encoded}
use ch32_tapioca.Cobs.RoundTrip.{ff_decode-ff_encode}
use ch32_tapioca.Cobs.Bounds.{ff_encode-IsPlain, encode_size, Outcome, decode_total}
use ch32_tapioca.Framer.Demux.{Item, record_of, meta_of, loss, demux, stream, demux-stream}
use ch32_tapioca.Mode.{rle, clocked, parse}
use ch32_tapioca.Mode.Grammar.{IsModeLine, parse_iff}
use ch32_tapioca.Selector.{
  Selector, poll_command, run_line, poll_command-line, poll_command-long_line,
}

abbrev sample : List ℕ
sample = 0x11 ∷ 0x00 ∷ 0xff ∷ 0x22 ∷ []

ff_encode_run : ff_encode sample ≡ 0x03 ∷ 0x11 ∷ 0x00 ∷ 0x02 ∷ 0x22 ∷ []
unfolding ff_encode
ff_encode_run = refl

ff_decode-ff_encode_example :
    ff_decode (ff_encode sample) ≡ some (record { size = 4; out = sample })
ff_decode-ff_encode_example = ff_decode-ff_encode sample

ff_encode-IsPlain_example : All (λ b. IsByte b × (b ≢ 0xff)) (ff_encode sample)
ff_encode-IsPlain_example = ff_encode-IsPlain sample (omega arith)

encode_size_example :
    (4 < length (encode sample))
    × (length (encode sample) ≤ max_encoded 4)
    × (4 < length (ff_encode sample))
    × (length (ff_encode sample) ≤ ff_max_encoded 4)
encode_size_example = encode_size sample

decode_total_example :
    ((d : Decoded) × (decode sample ≡ some d) × Outcome 0x00 0xff sample d)
    × ((d : Decoded) × (ff_decode sample ≡ some d) × Outcome 0xff 0xfe sample d)
decode_total_example = decode_total sample

abbrev items : List Item
items = meta_of (b'[' ∷ b'M' ∷ b']' ∷ []) ∷ record_of (0x01 ∷ 0xff ∷ 0x00 ∷ []) ∷ loss ∷ []

demux-stream_example : demux (stream items) ≡ map some items
demux-stream_example = demux-stream items ((refl, omega arith), ((refl, omega arith), (tt, tt)))

-- ` !mode rle` and a line end.
abbrev mode_line : List ℕ
mode_line = b' ' ∷ b'!' ∷ b'm' ∷ b'o' ∷ b'd' ∷ b'e' ∷ b' ' ∷ b'r' ∷ b'l' ∷ b'e' ∷ 0x0a ∷ []

parse_iff_example :
    (parse mode_line ≡ record { valid = true; mode = rle }) ↔ IsModeLine rle mode_line
parse_iff_example = parse_iff mode_line rle

parse_run : parse mode_line ≡ record { valid = true; mode = rle }
unfolding parse
parse_run = refl

abbrev selector : Selector
selector = record { mode = clocked; line = []; switches = [] }

abbrev mode_text : List ℕ
mode_text = b'!' ∷ b'm' ∷ b'o' ∷ b'd' ∷ b'e' ∷ b' ' ∷ b'r' ∷ b'l' ∷ b'e' ∷ []

poll_command-line_example :
    poll_command selector (mode_text ++ 0x0a ∷ [])
    ≡ record (run_line selector mode_text) { line = [] }
poll_command-line_example =
    poll_command-line selector mode_text 0x0a refl
      (refl, (refl, (refl, (refl, (refl, (refl, (refl, (refl, (refl, tt))))))))) refl (omega arith)
      (omega arith)

abbrev junk : List ℕ
junk =
    65 ∷ 65 ∷ 65 ∷ 65 ∷ 65 ∷ 65 ∷ 65 ∷ 65 ∷ 65 ∷ 65 ∷ 65 ∷ 65 ∷ 65 ∷ 65 ∷ 65 ∷ 65 ∷ 65 ∷ 65 ∷ 65
    ∷ 65 ∷ 65 ∷ 65 ∷ 65 ∷ 65 ∷ []

poll_command-long_line_example :
    poll_command selector (junk ++ 65 ∷ (mode_text ++ 0x0a ∷ []))
    ≡ record (run_line selector mode_text) { line = [] }
poll_command-long_line_example =
    poll_command-long_line selector junk 65 mode_text 0x0a refl (ground arith) refl refl
      (ground arith) refl (omega arith) (omega arith)

-- The command behind the long line has been run.
long_line_run : (poll_command selector (junk ++ 65 ∷ (mode_text ++ 0x0a ∷ []))).mode ≡ rle
unfolding poll_command run_line parse
long_line_run = refl
