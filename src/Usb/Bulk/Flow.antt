-- ===== src/Usb/Bulk/Flow.antt =====
-- src/usb/usb_cdc.cpp: the flow control of the bytes from the host.
use ch32_tapioca.Prelude.{
  ℕ, ◌+◌, ◌-◌, ◌≤◌, ◌≡◌, ◌∙◌, refl, arith, Bool, true, false, ◌&&◌, ◌||◌, List, ◌++◌, ltb, leb,
  ◌==◌, length, take, take_all, Bool-cases, inl, inr, ◌⊎◌, length-drop, ap,
}
use ch32_tapioca.Ring.{Ring, size, free, clear, pop, push}
use ch32_tapioca.Ring.Queue.{IsValid, contents, push_lem, pop_lem, free_lem, length-contents}
use ch32_tapioca.Usb.Descriptors.{packet}
use ch32_tapioca.Usb.Device.{UsbCdc, Sdk, rx_capacity, read, bus_reset}
use ch32_tapioca.Usb.Control.Frame.{
  Frame, handle_setup-Frame, handle_ep0_in-Frame, handle_ep0_out-Frame,
}
use ch32_tapioca.Usb.Bulk.{
  Status, Token, token_in, token_out, token_setup, token_sof, on_irq, poll_flags, transfer, out_at,
  dispatch, ep2_received, tick, reopen_ep2, coalesce, coalesce_free, hold, arm_ep3_from_tx,
}

-- The ring is valid, and while the endpoint is not throttled there is room for a packet.
pub record HasRoom (u : UsbCdc) : Type 0 where
  pub valid : IsValid rx_capacity u.rx
  pub room : u.ep2_nak ≡ false → size u.rx + packet ≤ rx_capacity

clear-IsValid : (r : Ring ℕ) → IsValid rx_capacity (clear r)
unfolding clear size
clear-IsValid r = record {
  fits = record { positive = omega arith; small = omega arith };
  head_word = omega arith;
  tail_word = omega arith;
  within = omega arith;
}

-- Anything that keeps the flag, and keeps or clears the ring, keeps the room.
kept-HasRoom :
    (u v : UsbCdc)
    → v.ep2_nak ≡ u.ep2_nak
    → (v.rx ≡ u.rx) ⊎ (v.rx ≡ clear u.rx)
    → HasRoom u
    → HasRoom v
kept-HasRoom u v same (inl rx) h = record {
  valid = rw rx h.valid;
  room = λ p. rw rx (h.room (rw (← same) p));
}
kept-HasRoom u v same (inr rx) h = record {
  valid = rw rx (clear-IsValid u.rx);
  room = λ p. rw rx (unfold clear size in omega arith);
}

Frame-HasRoom : (u v : UsbCdc) → Frame u v → HasRoom u → HasRoom v
Frame-HasRoom u v f h = kept-HasRoom u v f.same_nak f.rx_kept h

ep2_received-HasRoom : (u : UsbCdc) (bytes : List ℕ) → HasRoom u → HasRoom (ep2_received u bytes)
unfolding ep2_received
ep2_received-HasRoom u bytes h =
    let (count, appended, valid, same) = push_lem rx_capacity h.valid (inl refl) bytes in
    let rx = (push rx_capacity u.rx bytes).1 in
    let left : free rx_capacity rx ≡ rx_capacity - size rx =
      free_lem rx_capacity valid (inl refl) in
    elim (Bool-cases (ltb (free rx_capacity rx) packet)) [
      | inl few ↦ rw few (record { valid = valid; room = λ p. cc })
      | inr enough ↦
          rw enough (record { valid = valid; room = λ p. ground (arith, left, valid.within) })
    ]

transfer-HasRoom :
    (k : Sdk) (u : UsbCdc) (s : Status) (t : Token) → HasRoom u → HasRoom (transfer k u s t)
unfolding transfer
transfer-HasRoom k u s token_in h = elim (Bool-cases (s.endp == 0)) [
  | inl control ↦ rw control (Frame-HasRoom u _ (handle_ep0_in-Frame k u) h)
  | inr other ↦ rw other (kept-HasRoom u _ (ground arith) (inl (ground arith)) h)
]
transfer-HasRoom k u s token_out h = elim (Bool-cases (s.endp == 0)) [
  | inl control ↦ elim (Bool-cases s.tog_ok) [
    | inl fine ↦ rw (control, fine, out_at) (Frame-HasRoom u _ (handle_ep0_out-Frame u) h)
    | inr stale ↦ rw (control, stale, out_at) h
  ]
  | inr other ↦ elim (Bool-cases (s.endp == 2)) [
    | inl bulk ↦ rw (other, bulk, out_at) (ep2_received-HasRoom u s.received h)
    | inr none_ ↦ rw (other, none_, out_at) h
  ]
]
transfer-HasRoom k u s token_setup h = Frame-HasRoom u _ (handle_setup-Frame k u) h
transfer-HasRoom k u s token_sof h = h

bus_reset-HasRoom : (u : UsbCdc) → HasRoom (bus_reset u)
unfolding bus_reset
bus_reset-HasRoom u = record {
  valid = clear-IsValid u.rx;
  room = λ p. unfold clear size in omega arith;
}

dispatch-HasRoom :
    (k : Sdk) (u : UsbCdc) (s : Status) (t b z : Bool) → HasRoom u → HasRoom (dispatch k u s t b z)
unfolding dispatch
dispatch-HasRoom k u s true b z h =
    let v = transfer k u s s.token in
    kept-HasRoom v (record v { fg_transfer = false }) refl (inl refl)
      (transfer-HasRoom k u s s.token h)
dispatch-HasRoom k u s false true z h =
    let v = bus_reset u in
    kept-HasRoom v (record v { fg_bus_rst = false }) refl (inl refl) (bus_reset-HasRoom u)
dispatch-HasRoom k u s false false true h =
    kept-HasRoom u (record u { fg_suspend = false; suspended = s.ums_suspend }) refl (inl refl) h
dispatch-HasRoom k u s false false false h = h

on_irq-HasRoom : (k : Sdk) (u : UsbCdc) (s : Status) → HasRoom u → HasRoom (on_irq k u s)
unfolding on_irq
on_irq-HasRoom k u s h = dispatch-HasRoom k u s u.fg_transfer u.fg_bus_rst u.fg_suspend h

reopen_ep2-HasRoom : (u : UsbCdc) → HasRoom u → HasRoom (reopen_ep2 u)
unfolding reopen_ep2
reopen_ep2-HasRoom u h =
    let left : free rx_capacity u.rx ≡ rx_capacity - size u.rx =
      free_lem rx_capacity h.valid (inl refl) in
    let room = h.room in
    elim (Bool-cases (u.ep2_nak && leb packet (free rx_capacity u.rx))) [
      | inl open_ ↦
          rw open_ (record { valid = h.valid; room = λ p. ground (arith, left, h.valid.within) })
      | inr shut ↦ rw shut h
    ]

arm_ep3_from_tx-kept :
    (u : UsbCdc) (short : Bool)
    → let v = (arm_ep3_from_tx u short).1 in (v.ep2_nak ≡ u.ep2_nak) × (v.rx ≡ u.rx)
unfolding arm_ep3_from_tx
arm_ep3_from_tx-kept u short = ground arith

coalesce-kept :
    (u : UsbCdc) (now_ms : ℕ) → let v = coalesce u now_ms in (v.ep2_nak ≡ u.ep2_nak) × (v.rx ≡ u.rx)
unfolding coalesce coalesce_free
coalesce-kept u now_ms = ground (
  arith,
  arm_ep3_from_tx-kept (record u { partial_pending = false }) false,
  arm_ep3_from_tx-kept (record (hold u now_ms) { partial_pending = false }) true,
)

poll_flags-HasRoom : (k : Sdk) (u : UsbCdc) (s : Status) → HasRoom u → HasRoom (poll_flags k u s)
unfolding poll_flags
poll_flags-HasRoom k u s h = elim (Bool-cases (u.fg_transfer || u.fg_bus_rst || u.fg_suspend)) [
  | inl some_ ↦ rw some_ (on_irq-HasRoom k u s h)
  | inr quiet ↦ rw quiet h
]

pub tick-HasRoom :
    (k : Sdk) (u : UsbCdc) (s : Status) (now_ms : ℕ) → HasRoom u → HasRoom (tick k u s now_ms)
unfolding tick
tick-HasRoom k u s now_ms h =
    let step = λ (v : UsbCdc) (room : HasRoom v).
      let w = reopen_ep2 v in
      let (nak_, rx) = coalesce-kept w now_ms in
      kept-HasRoom w (coalesce w now_ms) nak_ (inl rx) (reopen_ep2-HasRoom v room) in
    step (poll_flags k u s) (poll_flags-HasRoom k u s h)

read-HasRoom : (u : UsbCdc) (n : ℕ) → HasRoom u → HasRoom (read u n).1
unfolding read
read-HasRoom u n h =
    let (items, left, valid, same) = pop_lem rx_capacity h.valid (inl refl) n in
    let fewer : size (pop rx_capacity u.rx n).1 ≤ size u.rx = omega (
      arith,
      length-contents rx_capacity (pop rx_capacity u.rx n).1,
      length-contents rx_capacity u.rx,
      ap length left,
      length-drop n (contents rx_capacity u.rx),
    ) in
    record { valid = valid; room = λ p. omega (arith, fewer, h.room p) }

ep2_received-whole :
    (u : UsbCdc) (bytes : List ℕ)
    → HasRoom u
    → u.ep2_nak ≡ false
    → length bytes ≤ packet
    → contents rx_capacity (ep2_received u bytes).rx ≡ contents rx_capacity u.rx ++ bytes
unfolding ep2_received
ep2_received-whole u bytes h open_ small =
    let (count, appended, valid, same) = push_lem rx_capacity h.valid (inl refl) bytes in
    let room = h.room open_ in
    let all : take (rx_capacity - size u.rx) bytes ≡ bytes =
      take_all (rx_capacity - size u.rx) bytes (omega (arith, small, room)) in
    let done = appended ∙ ap (λ l. contents rx_capacity u.rx ++ l) all in
    elim (Bool-cases (ltb (free rx_capacity (push rx_capacity u.rx bytes).1) packet)) [
      | inl few ↦ rw few done
      | inr enough ↦ rw enough done
    ]

-- A packet of at most 64 bytes from the host, which completes at the bulk OUT endpoint while it is not throttled, is
-- received whole, after what was there. This is for a device whose ring is valid and has room for a packet.
pub on_irq-received :
    (k : Sdk) (u : UsbCdc) (s : Status)
    → HasRoom u
    → u.ep2_nak ≡ false
    → u.fg_transfer ≡ true
    → s.token ≡ token_out
    → s.endp ≡ 2
    → length s.received ≤ packet
    → contents rx_capacity (on_irq k u s).rx ≡ contents rx_capacity u.rx ++ s.received
unfolding on_irq dispatch
on_irq-received k u s h open_ done out bulk small =
    ap (λ b. contents rx_capacity (dispatch k u s b u.fg_bus_rst u.fg_suspend).rx) done
    ∙ ap (λ t. contents rx_capacity (transfer k u s t).rx) out
    ∙ received
  where
    received :
        contents rx_capacity (transfer k u s token_out).rx ≡ contents rx_capacity u.rx ++ s.received
    received =
        ap (λ e. contents rx_capacity (out_at k u s e).rx) bulk
        ∙ ep2_received-whole u s.received h open_ small
