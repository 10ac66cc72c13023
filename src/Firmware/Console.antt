-- ===== src/Firmware/Console.antt =====
-- src/main_sniffer.cpp: `unifiedPollCommand` over the receive ring of the USB device.
use ch32_tapioca.Prelude.{
  ℕ, zero, suc, Bool, true, false, not, ◌&&◌, List, [], ◌∷◌, ◌++◌, ltb, ◌==◌, if◌then◌else◌, length,
  get_or,
}
use ch32_tapioca.Mode.{CaptureMode, parse}
use ch32_tapioca.Selector.{Selector, line_capacity, is_newline, same_mode}
use ch32_tapioca.Usb.Device.{available, read}
use ch32_tapioca.Firmware.{Surroundings, Firmware, switch_to}

-- The firmware with `g_cmdLine` and `g_cmdLen` as a list, the switches so far, and the bytes that have been read.
pub record Console : Type 0 where
  pub firmware : Firmware
  pub line : List ℕ
  pub switches : List CaptureMode
  pub taken : List ℕ

-- A complete line. `around i` is what surrounds the switch number `i`.
unfoldable pub run_line : (ℕ → Surroundings) → Console → Console
run_line around c =
    let p = parse c.line in
    if p.valid && not (same_mode p.mode c.firmware.mode)
    then record c {
      firmware = switch_to (around (length c.switches)) c.firmware p.mode;
      switches = c.switches ++ p.mode ∷ [];
    }
    else c

unfoldable pub accept : (ℕ → Surroundings) → Console → ℕ → Console
unfolding run_line
accept around c b =
    if is_newline b
    then (if not (length c.line == 0) then record (run_line around c) { line = [] } else c)
    else if ltb (length c.line) line_capacity
    then record c { line = c.line ++ b ∷ [] }
    else record c { line = [] }

-- The condition of the loop.
unfoldable pub reads : Console → Bool
reads c = not (available c.firmware.usb == 0) && length (read c.firmware.usb 1).0 == 1

unfoldable pub poll_round : (ℕ → Surroundings) → Console → Console
unfolding accept
poll_round around c =
    let (bytes, u) = read c.firmware.usb 1 in
    let b = get_or bytes 0 0 in
    accept around
      (record c { firmware = record (c.firmware) { usb = u }; taken = c.taken ++ b ∷ [] }) b

-- On fuel, the number of bytes that may be read.
unfoldable pub poll : (ℕ → Surroundings) → ℕ → Console → Console
unfolding reads poll_round
poll around zero c = c
poll around (suc fuel) c = elim (reads c) [
  | true ↦ poll around fuel (poll_round around c)
  | false ↦ c
]

-- What the selector sees of the firmware.
abbrev pub view : Console → Selector
view c = record { mode = c.firmware.mode; line = c.line; switches = c.switches }
