-- ===== src/Firmware/Switch.antt =====
-- src/main_sniffer.cpp: `unifiedSwitchTo` as a whole.
use ch32_tapioca.Prelude.{
  ℕ, ◌+◌, ◌≤◌, ◌≡◌, ◌⊎◌, ◌∙◌, sym, ap, subst, refl, false, List, [], ◌∷◌, ◌++◌, some, take,
  append_assoc, append-nil,
}
use ch32_tapioca.Ring.{size}
use ch32_tapioca.Ring.Queue.{IsValid, contents}
use ch32_tapioca.Framer.{frame_meta}
use ch32_tapioca.Mode.{CaptureMode, rle, clocked}
use ch32_tapioca.Selector.{same_mode}
use ch32_tapioca.Usb.Device.{UsbCdc, tx_capacity}
use ch32_tapioca.Usb.Bulk.Stream.{Runs}
use ch32_tapioca.Clocked
use ch32_tapioca.Clocked.Lifecycle.{begin_lem, contents-clear}
use ch32_tapioca.Rle.Drain.{ring_count}
use ch32_tapioca.Rle.Service
use ch32_tapioca.Rle.Service.Loss.{NoMark, emit_mode_marker-Adds}
use ch32_tapioca.Rle.Service.Markers.{Adds}
use ch32_tapioca.Firmware.{
  Surroundings, Firmware, max_guard, seam, write_seam, stop_active, begin_other, switch_to,
}
use ch32_tapioca.Firmware.Seam.{write_seam_lem}

-- Nothing is staged and no burst is open.
abbrev pub IsCold : CaptureMode → Firmware → Type 0
IsCold rle f = (ring_count f.rle_sniffer.drain ≡ 0) × (f.rle_sniffer.sniff_active ≡ false)
IsCold clocked f =
    (contents Clocked.ring_size f.clocked_sniffer.ring ≡ [])
    × (f.clocked_sniffer.burst_open ≡ false)
    × (f.clocked_sniffer.need_terminal ≡ false)

-- The sniffer of the mode has begun; `beat` is what it has put into a stream of `n` bytes.
abbrev pub HasBegun : Surroundings → CaptureMode → ℕ → Firmware → List ℕ → Type 0
HasBegun w rle n f beat =
    (ring_count f.rle_sniffer.drain ≡ 0)
    × (f.rle_sniffer.drain.ram_drop ≡ f.rle_sniffer.loss_seen)
    × (((beat ≡ []) × NoMark w.marker n) ⊎ (beat ≡ 0xff ∷ frame_meta (some w.marker)))
HasBegun w clocked n f beat =
    (contents Clocked.ring_size f.clocked_sniffer.ring
      ≡ 0xff ∷ 0xfe ∷ (Clocked.marker ++ 0xfe ∷ 0xff ∷ []))
    × (f.clocked_sniffer.ovf_ram ≡ 0)
    × (beat ≡ [])

stop_active-IsCold : (f : Firmware) (old : CaptureMode) → IsCold old (stop_active f old)
unfolding stop_active Service.stop Clocked.stop ring_count
stop_active-IsCold f rle = (refl, refl)
stop_active-IsCold f clocked = (contents-clear f.clocked_sniffer.ring, refl, refl)

-- A start leaves the other sniffer as it is and adds at most the announcement to the stream.
begin_other-HasBegun :
    (w : Surroundings) (f : Firmware) (old m : CaptureMode)
    → same_mode old m ≡ false
    → IsCold old f
    → IsValid tx_capacity f.usb.tx
    → let f' = begin_other w f m in
      (f'.mode ≡ m)
      × IsCold old f'
      × ((beat : List ℕ) × Adds f.usb beat f'.usb × HasBegun w m (size f.usb.tx) f' beat)
unfolding begin_other Service.begin ring_count
begin_other-HasBegun w f rle rle other cold valid = absurd (cc)
begin_other-HasBegun w f clocked clocked other cold valid = absurd (cc)
begin_other-HasBegun w f clocked rle other cold valid =
    let (beat, added, which) = emit_mode_marker-Adds w.marker f.usb valid in
    (refl, cold, (beat, added, (refl, refl, which)))
begin_other-HasBegun w f rle clocked other cold valid =
    let (staged, still, shut, ram, pioc, tail) = begin_lem f.clocked_sniffer w.head w.begin_ms in
    (
      refl,
      cold,
      ([], (sym (append-nil (contents tx_capacity f.usb.tx)), valid), (staged, ram, refl)),
    )

stop_active-usb : (f : Firmware) (old : CaptureMode) → (stop_active f old).usb ≡ f.usb
unfolding stop_active
stop_active-usb f rle = refl
stop_active-usb f clocked = refl

usb-IsCold :
    (f : Firmware) (u : UsbCdc) (m : CaptureMode) → IsCold m f → IsCold m (record f { usb = u })
usb-IsCold f u rle cold = cold
usb-IsCold f u clocked cold = cold

-- A switch to the other mode leaves the sniffer of the old mode cold, and starts the one of the new mode with nothing staged
-- but, in the clocked mode, a boundary and its announcement. The stream gets, in order behind what it had, the seam, and in the
-- RLE mode then the announcement behind a boundary, or nothing, and that only if its text makes no block or there is no room
-- for the whole of it. `p` are the bytes of the packets that a run of the code's writes and ticks sends meanwhile; with them no
-- byte is lost or moved, and after that run every byte of the stream is still there, with the announcement behind it. The
-- seam is whole unless 100000 attempts in a row have found no room, and if there was room for it at the start. This is for
-- a valid stream, with no bus reset pending and none on the way.
pub switch_to_lem :
    (w : Surroundings) (f : Firmware) (m : CaptureMode)
    → same_mode f.mode m ≡ false
    → IsValid tx_capacity f.usb.tx
    → f.usb.fg_bus_rst ≡ false
    → ((i : ℕ) → (w.events i).reset ≡ false)
    → let f' = switch_to w f m in
      let y = write_seam w f.usb in
      (f'.mode ≡ m)
      × IsCold f.mode f'
      × ((y.off ≡ 3) ⊎ (max_guard ≤ y.guard))
      × (size f.usb.tx + 3 ≤ tx_capacity → y.off ≡ 3)
      × ((p : List ℕ) × (beat : List ℕ) × Runs w.sdk f.usb (take y.off seam) p y.usb
          × (contents tx_capacity f.usb.tx ++ (take y.off seam ++ beat)
              ≡ p ++ contents tx_capacity f'.usb.tx)
          × (contents tx_capacity f'.usb.tx ≡ contents tx_capacity y.usb.tx ++ beat)
          × IsValid tx_capacity f'.usb.tx
          × HasBegun w m (size y.usb.tx) f' beat)
unfolding switch_to
switch_to_lem w f m other valid calm quiet =
    let stopped = stop_active f f.mode in
    let y = write_seam w f.usb in
    let g : Firmware = record stopped { usb = y.usb } in
    let (p, runs, stream, still, whole, room) = write_seam_lem w f.usb valid calm quiet in
    let cold = usb-IsCold stopped y.usb f.mode (stop_active-IsCold f f.mode) in
    let (mode_, kept, (beat, (added, ok), begun)) =
      begin_other-HasBegun w g f.mode m other cold still in
    let same : begin_other w (record stopped { usb = (write_seam w stopped.usb).usb }) m
        ≡ begin_other w g m =
      ap (λ u. begin_other w (record stopped { usb = (write_seam w u).usb }) m)
        (stop_active-usb f f.mode) in
    let q = contents tx_capacity f.usb.tx in
    let s = take y.off seam in
    subst
      (λ (f' : Firmware).
        (f'.mode ≡ m)
        × IsCold f.mode f'
        × ((y.off ≡ 3) ⊎ (max_guard ≤ y.guard))
        × (size f.usb.tx + 3 ≤ tx_capacity → y.off ≡ 3)
        × ((p : List ℕ) × (beat : List ℕ) × Runs w.sdk f.usb s p y.usb
            × (q ++ (s ++ beat) ≡ p ++ contents tx_capacity f'.usb.tx)
            × (contents tx_capacity f'.usb.tx ≡ contents tx_capacity y.usb.tx ++ beat)
            × IsValid tx_capacity f'.usb.tx
            × HasBegun w m (size y.usb.tx) f' beat))
      (sym same)
      (
        mode_,
        kept,
        whole,
        room,
        (
          p,
          beat,
          runs,
          sym (append_assoc q s beat)
              ∙ ap (λ l. l ++ beat) stream
              ∙ append_assoc p (contents tx_capacity y.usb.tx) beat
              ∙ ap (λ l. p ++ l) (sym added),
          added,
          ok,
          begun,
        ),
      )
