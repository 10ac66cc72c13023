-- ===== src/Mode.antt =====
-- src/sniffer/mode_command.hpp: the runtime command `!mode <rle|clocked>`.
pub mod Grammar
use ch32_tapioca.Prelude.{
  ℕ, suc, Bool, true, false, ◌&&◌, ◌||◌, not, List, [], ◌∷◌, Option, none, some, if◌then◌else◌,
  drop,
}
use ch32_tapioca.Text.{trim, skip_ws, match_keyword, starts_blank, at_end}

pub data CaptureMode : Type 0 where
  rle clocked : CaptureMode

pub record Command : Type 0 where
  pub valid : Bool
  pub mode : CaptureMode

abbrev pub mode_keyword : List ℕ
mode_keyword = b'!' ∷ b'm' ∷ b'o' ∷ b'd' ∷ b'e' ∷ []

abbrev pub rle_keyword : List ℕ
rle_keyword = b'r' ∷ b'l' ∷ b'e' ∷ []

abbrev pub clocked_keyword : List ℕ
clocked_keyword = b'c' ∷ b'l' ∷ b'o' ∷ b'c' ∷ b'k' ∷ b'e' ∷ b'd' ∷ []

unfoldable pub token_is : List ℕ → List ℕ → Bool
unfolding match_keyword
token_is p kw = elim (match_keyword p kw) [
  | none ↦ false
  | some rest ↦ at_end rest || starts_blank rest
]

abbrev refused : CaptureMode → Command
refused m = record { valid = false; mode = m }

-- From the mode token on.
parse_mode : List ℕ → Command
unfolding token_is skip_ws
parse_mode p =
    if token_is p rle_keyword
    then record { valid = at_end (skip_ws (drop 3 p)); mode = rle }
    else if token_is p clocked_keyword
    then record { valid = at_end (skip_ws (drop 7 p)); mode = clocked }
    else refused rle

unfoldable pub parse : List ℕ → Command
unfolding parse_mode trim skip_ws match_keyword
parse line = elim (match_keyword (skip_ws (trim line)) mode_keyword) [
  | none ↦ refused rle
  | some p ↦ if starts_blank p then parse_mode (skip_ws p) else refused rle
]
