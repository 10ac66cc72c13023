-- ===== src/Text.antt =====
-- The character loops that the two command parsers share, src/sniffer/mode_command.hpp and
-- src/mdio/mdio_bridge.hpp. The range `[p, end)` is the list of the characters that `p` has not passed.
pub mod Spans
use ch32_tapioca.Prelude.{
  ℕ, zero, suc, Bool, true, false, ◌||◌, List, [], ◌∷◌, Option, none, some, ◌==◌, if◌then◌else◌,
  length, take, get_or,
}

abbrev pub is_blank : ℕ → Bool
is_blank c = c == b' ' || c == 0x09

abbrev pub is_trailing : ℕ → Bool
is_trailing c = c == 0x0d || c == 0x0a || c == b' ' || c == 0x09

-- `while (len && (line[len - 1] == '\r' || ...)) len--;`
unfoldable pub trim_len : List ℕ → ℕ → ℕ
trim_len line zero = 0
trim_len line (suc len) =
    let less = trim_len line len in if is_trailing (get_or line len 0) then less else suc len

unfoldable pub trim : List ℕ → List ℕ
unfolding trim_len
trim line = take (trim_len line (length line)) line

-- `while (p < end && (*p == ' ' || *p == '\t')) p++;`
unfoldable pub skip_ws : List ℕ → List ℕ
skip_ws [] = []
skip_ws (c ∷ cs) = if is_blank c then skip_ws cs else c ∷ cs

-- The loop over a NUL-terminated keyword, which is the list of its characters: what follows it in the input,
-- or `none` if the input differs.
unfoldable pub match_keyword : List ℕ → List ℕ → Option (List ℕ)
match_keyword p [] = some p
match_keyword [] (k ∷ ks) = none
match_keyword (c ∷ cs) (k ∷ ks) = if c == k then match_keyword cs ks else none

-- `p >= end || (*p != ' ' && *p != '\t')`, negated.
abbrev pub starts_blank : List ℕ → Bool
starts_blank [] = false
starts_blank (c ∷ cs) = is_blank c

abbrev pub at_end : List ℕ → Bool
at_end [] = true
at_end (c ∷ cs) = false
