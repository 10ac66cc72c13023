-- ===== src/Usb/Bulk/Throttle.antt =====
-- src/usb/usb_cdc.cpp: the register of the bulk OUT endpoint while its packets are throttled.
use ch32_tapioca.Prelude.{
  ℕ, ◌-◌, ◌++◌, take, ◌≡◌, ◌≢◌, ◌∙◌, sym, ap, refl, arith, Bool, true, false, ◌&&◌, ◌||◌, List, ltb,
  leb, ◌==◌, Bool-cases, inl, inr,
}
use ch32_tapioca.Ring.{size, free, push}
use ch32_tapioca.Ring.Queue.{IsValid, contents, push_lem}
use ch32_tapioca.Usb.Descriptors.{packet}
use ch32_tapioca.Usb.Device.{Ctrl, UsbCdc, Sdk, ack, rx_capacity, bus_reset}
use ch32_tapioca.Usb.Control.{handle_setup, handle_ep0_in, handle_ep0_out}
use ch32_tapioca.Usb.Control.Frame.{handle_setup-Frame, handle_ep0_in-Frame, handle_ep0_out-Frame}
use ch32_tapioca.Usb.Control.Endpoint2.{
  Kept2, ClearsOut, handle_setup-Kept2, clear_halt-ep2, handle_ep0_in-ctrl2, handle_ep0_out-ctrl2,
}
use ch32_tapioca.Usb.Bulk.{
  Status, Token, token_in, token_out, token_setup, token_sof, on_irq, poll_flags, transfer, out_at,
  dispatch, ep2_received, tick, reopen_ep2, coalesce, coalesce_free, hold, arm_ep3_from_tx, arm_ep3,
}
use ch32_tapioca.Usb.Bulk.Flow.{HasRoom, tick-HasRoom}

-- While the endpoint is throttled, it does not answer ACK.
abbrev pub IsShut : UsbCdc → Type 0
IsShut u = u.ep2_nak ≡ true → u.ctrl2.r_res ≢ ack

kept-IsShut : (u v : UsbCdc) → v.ep2_nak ≡ u.ep2_nak → Kept2 u v → IsShut u → IsShut v
kept-IsShut u v same kept h p q = h (sym same ∙ p) (kept q)

same-IsShut : (u v : UsbCdc) → v.ep2_nak ≡ u.ep2_nak → v.ctrl2 ≡ u.ctrl2 → IsShut u → IsShut v
same-IsShut u v same e h = kept-IsShut u v same (λ p. ap (λ (c : Ctrl). c.r_res) (sym e) ∙ p) h

ep2_received-IsShut : (u : UsbCdc) (bytes : List ℕ) → IsShut u → IsShut (ep2_received u bytes)
unfolding ep2_received
ep2_received-IsShut u bytes h =
    elim (Bool-cases (ltb (free rx_capacity (push rx_capacity u.rx bytes).1) packet)) [
      | inl few ↦ rw few (λ p q. absurd (cc))
      | inr enough ↦ rw enough h
    ]

transfer-IsShut :
    (k : Sdk) (u : UsbCdc) (s : Status) (t : Token)
    → (t ≡ token_setup → ¬ ClearsOut k u)
    → IsShut u
    → IsShut (transfer k u s t)
unfolding transfer
transfer-IsShut k u s token_in other h = elim (Bool-cases (s.endp == 0)) [
  | inl control ↦ rw control (
      same-IsShut u (handle_ep0_in k u) (handle_ep0_in-Frame k u).same_nak (handle_ep0_in-ctrl2 k u)
        h)
  | inr bulk ↦ elim (Bool-cases (s.endp == 1)) [
    | inl one ↦ rw (bulk, one) h
    | inr no1 ↦ elim (Bool-cases (s.endp == 3)) [
      | inl three ↦ rw (bulk, no1, three) h
      | inr no3 ↦ rw (bulk, no1, no3) h
    ]
  ]
]
transfer-IsShut k u s token_out other h = elim (Bool-cases (s.endp == 0)) [
  | inl control ↦ elim (Bool-cases s.tog_ok) [
    | inl fine ↦
        rw (control, fine, out_at)
          (same-IsShut u (handle_ep0_out u) (handle_ep0_out-Frame u).same_nak
            (handle_ep0_out-ctrl2 u) h)
    | inr stale ↦ rw (control, stale, out_at) h
  ]
  | inr no_ ↦ elim (Bool-cases (s.endp == 2)) [
    | inl bulk ↦ rw (no_, bulk, out_at) (ep2_received-IsShut u s.received h)
    | inr none_ ↦ rw (no_, none_, out_at) h
  ]
]
transfer-IsShut k u s token_setup other h =
    kept-IsShut u (handle_setup k u) (handle_setup-Frame k u).same_nak
      (handle_setup-Kept2 k u (other refl)) h
transfer-IsShut k u s token_sof other h = h

bus_reset-IsShut : (u : UsbCdc) → IsShut (bus_reset u)
unfolding bus_reset
bus_reset-IsShut u p = absurd (cc)

dispatch-IsShut :
    (k : Sdk) (u : UsbCdc) (s : Status) (t b z : Bool)
    → (s.token ≡ token_setup → ¬ ClearsOut k u)
    → IsShut u
    → IsShut (dispatch k u s t b z)
unfolding dispatch
dispatch-IsShut k u s true b z other h = transfer-IsShut k u s s.token other h
dispatch-IsShut k u s false true z other h = bus_reset-IsShut u
dispatch-IsShut k u s false false true other h = h
dispatch-IsShut k u s false false false other h = h

poll_flags-IsShut :
    (k : Sdk) (u : UsbCdc) (s : Status)
    → (s.token ≡ token_setup → ¬ ClearsOut k u)
    → IsShut u
    → IsShut (poll_flags k u s)
unfolding poll_flags on_irq
poll_flags-IsShut k u s other h =
    elim (Bool-cases (u.fg_transfer || u.fg_bus_rst || u.fg_suspend)) [
      | inl some_ ↦ rw some_ (dispatch-IsShut k u s u.fg_transfer u.fg_bus_rst u.fg_suspend other h)
      | inr quiet ↦ rw quiet h
    ]

reopen_ep2-IsShut : (u : UsbCdc) → IsShut u → IsShut (reopen_ep2 u)
unfolding reopen_ep2
reopen_ep2-IsShut u h = elim (Bool-cases (u.ep2_nak && leb packet (free rx_capacity u.rx))) [
  | inl open_ ↦ rw open_ (λ p. absurd (cc))
  | inr shut ↦ rw shut h
]

arm_ep3_from_tx-ctrl2 :
    (u : UsbCdc) (short : Bool)
    → let v = (arm_ep3_from_tx u short).1 in (v.ctrl2 ≡ u.ctrl2) × (v.ep2_nak ≡ u.ep2_nak)
unfolding arm_ep3_from_tx arm_ep3
arm_ep3_from_tx-ctrl2 u short = ground arith

coalesce-ctrl2 :
    (u : UsbCdc) (now_ms : ℕ)
    → let v = coalesce u now_ms in (v.ctrl2 ≡ u.ctrl2) × (v.ep2_nak ≡ u.ep2_nak)
unfolding coalesce coalesce_free
coalesce-ctrl2 u now_ms = ground (
  arith,
  arm_ep3_from_tx-ctrl2 (record u { partial_pending = false }) false,
  arm_ep3_from_tx-ctrl2 (record (hold u now_ms) { partial_pending = false }) true,
)

-- A tick keeps the flow control of the host's bytes, whatever else the peripheral reports: the ring is valid; while the bulk OUT
-- endpoint is not throttled there is room for a packet of 64 bytes; and while it is throttled, its register does not
-- answer ACK. This is for a tick that does not handle a SETUP packet which clears the halt of that endpoint.
pub tick-IsShut :
    (k : Sdk) (u : UsbCdc) (s : Status) (now_ms : ℕ)
    → (s.token ≡ token_setup → ¬ ClearsOut k u)
    → HasRoom u
    → IsShut u
    → HasRoom (tick k u s now_ms) × IsShut (tick k u s now_ms)
unfolding tick
tick-IsShut k u s now_ms other room shut =
    let w = reopen_ep2 (poll_flags k u s) in
    let (out, nak_) = coalesce-ctrl2 w now_ms in
    (
      tick-HasRoom k u s now_ms room,
      same-IsShut w (coalesce w now_ms) nak_ out
          (reopen_ep2-IsShut (poll_flags k u s) (poll_flags-IsShut k u s other shut)),
    )

-- A SETUP packet that clears the halt of the bulk OUT endpoint, while that is throttled, makes it answer ACK although it stays
-- throttled and no room has been made: of the next packet from the host, only as many bytes as there is room for are kept.
-- This is for a valid ring.
pub clear_halt-drops :
    (k : Sdk) (u : UsbCdc) (bytes : List ℕ)
    → ClearsOut k u
    → IsValid rx_capacity u.rx
    → u.ep2_nak ≡ true
    → let v = handle_setup k u in
      (v.ctrl2.r_res ≡ ack)
      × (v.ep2_nak ≡ true)
      × (v.rx ≡ u.rx)
      × (contents rx_capacity (ep2_received v bytes).rx
          ≡ contents rx_capacity u.rx ++ take (rx_capacity - size u.rx) bytes)
clear_halt-drops k u bytes clears valid throttled =
    let (answers, nak_, rx) = clear_halt-ep2 k u clears in
    (
      answers,
      nak_ ∙ throttled,
      rx,
      ep2_received-rx (handle_setup k u) bytes
          ∙ ap (λ r. contents rx_capacity (push rx_capacity r bytes).1) rx
          ∙ (push_lem rx_capacity valid (inl refl) bytes).1,
    )
  where
    ep2_received-rx :
        (v : UsbCdc) (bytes : List ℕ)
        → contents rx_capacity (ep2_received v bytes).rx
          ≡ contents rx_capacity (push rx_capacity v.rx bytes).1
    ep2_received-rx v bytes = unfold ep2_received in ground arith
