-- ===== src/Firmware.antt =====
-- src/main_sniffer.cpp: the switch between the capture modes, over the two sniffers and the USB device. An `Event` is what the
-- peripheral does before a `tick`: it may raise flags and fill the buffer of endpoint 0.
pub mod Seam
pub mod Switch
pub mod Console
pub mod Poll
use ch32_tapioca.Prelude.{
  ℕ, zero, suc, ◌+◌, Bool, true, false, ◌&&◌, ◌||◌, List, [], ◌∷◌, ltb, ◌==◌, if◌then◌else◌, drop,
}
use ch32_tapioca.Mode.{CaptureMode, rle, clocked}
use ch32_tapioca.Usb.Device.{UsbCdc, Sdk, write}
use ch32_tapioca.Usb.Bulk.{Status, tick}
use ch32_tapioca.Clocked
use ch32_tapioca.Rle.Service

pub record Event : Type 0 where
  pub completed : Bool
  pub reset : Bool
  pub suspend : Bool
  pub ep0 : ℕ → ℕ
  pub status : Status

abbrev pub happen : UsbCdc → Event → UsbCdc
happen u e = record u {
  ep0 = e.ep0;
  fg_transfer = u.fg_transfer || e.completed;
  fg_bus_rst = u.fg_bus_rst || e.reset;
  fg_suspend = u.fg_suspend || e.suspend;
}

-- What surrounds a switch: `millis` is what each `tick` of the seam gets, and `marker` the text that `snprintf` makes.
pub record Surroundings : Type 0 where
  pub sdk : Sdk
  pub events : ℕ → Event
  pub millis : ℕ → ℕ
  pub begin_ms : ℕ
  pub head : ℕ
  pub marker : List ℕ

abbrev pub seam : List ℕ
seam = 0xff ∷ 0xfd ∷ 0xff ∷ []

abbrev pub max_guard : ℕ
max_guard = 100000

-- The locals of the loop that writes the seam, and the number of its rounds.
pub record Progress : Type 0 where
  pub off : ℕ
  pub guard : ℕ
  pub rounds : ℕ
  pub usb : UsbCdc

unfoldable pub seam_round : Surroundings → Progress → Progress
seam_round w x =
    let (n, u) = write x.usb (drop x.off seam) in
    let e = w.events x.rounds in
    record {
      off = x.off + n;
      guard = if n == 0 then x.guard + 1 else 0;
      rounds = x.rounds + 1;
      usb = tick w.sdk (happen u e) e.status (w.millis x.rounds);
    }

abbrev pub going : Progress → Bool
going x = ltb x.off 3 && ltb x.guard max_guard

-- On fuel.
unfoldable pub seam_loop : Surroundings → ℕ → Progress → Progress
unfolding seam_round
seam_loop w zero x = x
seam_loop w (suc fuel) x = elim (going x) [ true ↦ seam_loop w fuel (seam_round w x) | false ↦ x ]

abbrev pub seam_fuel : ℕ
seam_fuel = 400003

unfoldable pub write_seam : Surroundings → UsbCdc → Progress
unfolding seam_loop
write_seam w u = seam_loop w seam_fuel (record { off = 0; guard = 0; rounds = 0; usb = u })

-- `g_mode`, `g_rle`, `g_clocked` and `Board::usb`.
pub record Firmware : Type 0 where
  pub mode : CaptureMode
  pub rle_sniffer : Service.Service
  pub clocked_sniffer : Clocked.Clocked
  pub usb : UsbCdc

unfoldable pub stop_active : Firmware → CaptureMode → Firmware
stop_active f rle = record f { rle_sniffer = Service.stop f.rle_sniffer }
stop_active f clocked = record f { clocked_sniffer = Clocked.stop f.clocked_sniffer }

unfoldable pub begin_other : Surroundings → Firmware → CaptureMode → Firmware
begin_other w f rle =
    let (s, u) = Service.begin w.marker w.begin_ms f.rle_sniffer f.usb in
    record f { mode = rle; rle_sniffer = s; usb = u }
begin_other w f clocked = record f {
  mode = clocked;
  clocked_sniffer = Clocked.begin f.clocked_sniffer w.head w.begin_ms;
}

unfoldable pub switch_to : Surroundings → Firmware → CaptureMode → Firmware
unfolding stop_active write_seam begin_other
switch_to w f m =
    let stopped = stop_active f f.mode in
    begin_other w (record stopped { usb = (write_seam w stopped.usb).usb }) m
