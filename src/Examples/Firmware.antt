-- ===== src/Examples/Firmware.antt =====
-- src/main_sniffer.cpp and src/hal/time.cpp at concrete inputs.
use ch32_tapioca.Prelude.{
  ℕ, ◌+◌, ◌%◌, ◌≤◌, ◌≡◌, ◌⊎◌, refl, arith, false, List, [], ◌∷◌, ◌++◌, take, ◌==◌, if◌then◌else◌,
}
use ch32_tapioca.Ring.{size}
use ch32_tapioca.Ring.Queue.{IsValid, contents}
use ch32_tapioca.Mode.{rle, clocked}
use ch32_tapioca.Selector.{poll_command}
use ch32_tapioca.Usb.Device.{tx_capacity, rx_capacity}
use ch32_tapioca.Usb.Bulk.Stream.{Runs}
use ch32_tapioca.Firmware.{Surroundings, Event, Firmware, max_guard, seam, write_seam, switch_to}
use ch32_tapioca.Firmware.Switch.{IsCold, HasBegun, switch_to_lem}
use ch32_tapioca.Firmware.Poll.{poll_lem}
use ch32_tapioca.Firmware.Console.{Console, view, poll}
use ch32_tapioca.Time.{run, micros}
use ch32_tapioca.Time.Micros.{micros_lem}
use ch32_tapioca.Examples.Capture.{clocked_state}
use ch32_tapioca.Examples.Usb.{sdk, filled, filled-IsValid, nothing_more}
use ch32_tapioca.Examples.Services.{service_state}

abbrev event : ℕ → Event
event i = record {
  completed = false;
  reset = false;
  suspend = false;
  ep0 = λ j. 0;
  status = nothing_more;
}

abbrev surroundings : Surroundings
surroundings = record {
  sdk = sdk;
  events = event;
  millis = λ i. i;
  begin_ms = 7;
  head = 0;
  marker = b'[' ∷ b'a' ∷ [];
}

abbrev firmware : Firmware
firmware = record {
  mode = clocked;
  rle_sniffer = service_state;
  clocked_sniffer = clocked_state;
  usb = filled;
}

switch_to_lem_example :
    let f' = switch_to surroundings firmware rle in
    let y = write_seam surroundings filled in
    (f'.mode ≡ rle)
    × IsCold clocked f'
    × ((y.off ≡ 3) ⊎ (max_guard ≤ y.guard))
    × (size filled.tx + 3 ≤ tx_capacity → y.off ≡ 3)
    × ((p : List ℕ) × (beat : List ℕ) × Runs sdk filled (take y.off seam) p y.usb
        × (contents tx_capacity filled.tx ++ (take y.off seam ++ beat)
            ≡ p ++ contents tx_capacity f'.usb.tx)
        × (contents tx_capacity f'.usb.tx ≡ contents tx_capacity y.usb.tx ++ beat)
        × IsValid tx_capacity f'.usb.tx
        × HasBegun surroundings rle (size y.usb.tx) f' beat)
switch_to_lem_example =
    switch_to_lem surroundings firmware rle refl filled-IsValid refl (λ (i : ℕ). refl)

-- The host has sent `!m` and a newline.
abbrev console : Console
console = record {
  firmware = record firmware {
    usb = record filled {
      rx = record {
        head = 3;
        tail = 0;
        buf = λ i. if i == 0 then 0x21 else if i == 1 then 0x6d else 0x0a;
      };
    };
  };
  line = [];
  switches = [];
  taken = [];
}

console-IsValid : IsValid rx_capacity console.firmware.usb.rx
unfolding size
console-IsValid = record {
  fits = record { positive = omega arith; small = omega arith };
  head_word = omega arith;
  tail_word = omega arith;
  within = omega arith;
}

poll_lem_example :
    let d = poll (λ (i : ℕ). surroundings) 3 console in
    (poll_command (view console) d.taken ≡ view d)
    × (d.switches ≡ []
        → (d.taken ++ contents rx_capacity d.firmware.usb.rx
            ≡ contents rx_capacity console.firmware.usb.rx)
          × (size console.firmware.usb.rx ≤ 3 → contents rx_capacity d.firmware.usb.rx ≡ []))
poll_lem_example = poll_lem (λ (i : ℕ). surroundings) 3 console console-IsValid refl

-- A millisecond ends between the reads.
micros_lem_example :
    (n : ℕ) × (998 ≤ n)
    × (n ≤ 1001)
    × (micros (run 998) (run 999) (run 1000) (run 1001) ≡ n % 4294967296)
micros_lem_example =
    micros_lem 998 999 1000 1001 (omega arith) (omega arith) (omega arith) (omega arith)
