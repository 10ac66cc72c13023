-- ===== src/Usb/Bulk/Halt.antt =====
-- src/usb/usb_cdc.cpp: `CLEAR_FEATURE(ENDPOINT_HALT)` for the bulk IN endpoint while a packet is in flight.
use ch32_tapioca.Prelude.{
  ℕ, ◌≡◌, ◌≢◌, ◌∙◌, sym, subst, refl, arith, Bool, true, false, leb, ◌&&◌, ◌||◌, List, ◌==◌,
  Bool-cases, inl, inr,
}
use ch32_tapioca.Ring.{free}
use ch32_tapioca.Usb.Descriptors.{packet}
use ch32_tapioca.Usb.Device.{
  rx_capacity, UsbCdc, Sdk, ack, standard, to_endpoint, endp_halt, clear_feature, write, read,
  tx_commit,
}
use ch32_tapioca.Usb.Control.{handle_setup}
use ch32_tapioca.Usb.Requests.{low_byte, endpoint_in3}
use ch32_tapioca.Usb.Control.Frame.{
  Frame, handle_setup-Frame, handle_ep0_in-Frame, handle_ep0_out-Frame, clear_halt-ep3,
}
use ch32_tapioca.Usb.Bulk.{
  Status, Token, token_in, token_out, token_setup, token_sof, on_irq, poll_flags, transfer, out_at,
  dispatch, ep2_received, tick, reopen_ep2, coalesce, pump, pump_case, is_ep3_in,
}
use ch32_tapioca.Usb.Bulk.Flush.{coalesce-busy}

-- The driver waits for a completion of the packet at endpoint 3, and the endpoint does not answer the host.
pub record IsDeaf (u : UsbCdc) : Type 0 where
  pub waiting : u.ep3_busy ≡ true
  pub silent : u.ctrl3.t_res ≢ ack

Frame-IsDeaf : (u v : UsbCdc) → Frame u v → IsDeaf u → IsDeaf v
Frame-IsDeaf u v f d = record {
  waiting = f.same_busy ∙ d.waiting;
  silent = λ p. d.silent (f.no_ack p);
}

transfer-IsDeaf :
    (k : Sdk) (u : UsbCdc) (s : Status) (t : Token)
    → s.token ≡ t
    → is_ep3_in s ≡ false
    → IsDeaf u
    → IsDeaf (transfer k u s t)
unfolding transfer out_at
transfer-IsDeaf k u s token_in is other d =
    let no3 : (s.endp == 3) ≡ false = sym (rw is refl) ∙ other in
    elim (Bool-cases (s.endp == 0)) [
      | inl control ↦ rw control (Frame-IsDeaf u _ (handle_ep0_in-Frame k u) d)
      | inr bulk ↦ elim (Bool-cases (s.endp == 1)) [
        | inl one ↦ rw (bulk, one) (record { waiting = d.waiting; silent = d.silent })
        | inr none_ ↦ rw (bulk, none_, no3) d
      ]
    ]
transfer-IsDeaf k u s token_out is other d = elim (Bool-cases (s.endp == 0)) [
  | inl control ↦ elim (Bool-cases s.tog_ok) [
    | inl fine ↦ rw (control, fine) (Frame-IsDeaf u _ (handle_ep0_out-Frame u) d)
    | inr stale ↦ rw (control, stale) d
  ]
  | inr bulk ↦ elim (Bool-cases (s.endp == 2)) [
    | inl two ↦ rw (bulk, two) (received s.received)
    | inr none_ ↦ rw (bulk, none_) d
  ]
]
  where
    received : (bytes : List ℕ) → IsDeaf (ep2_received u bytes)
    received bytes = unfold ep2_received in record { waiting = ground arith; silent = ground arith }
transfer-IsDeaf k u s token_setup is other d = Frame-IsDeaf u _ (handle_setup-Frame k u) d
transfer-IsDeaf k u s token_sof is other d = d

dispatch-IsDeaf :
    (k : Sdk) (u : UsbCdc) (s : Status) (t z : Bool)
    → is_ep3_in s ≡ false
    → IsDeaf u
    → IsDeaf (dispatch k u s t false z)
unfolding dispatch
dispatch-IsDeaf k u s true z other d =
    let r = transfer-IsDeaf k u s s.token refl other d in
    record { waiting = r.waiting; silent = r.silent }
dispatch-IsDeaf k u s false true other d = record { waiting = d.waiting; silent = d.silent }
dispatch-IsDeaf k u s false false other d = d

on_irq-IsDeaf :
    (k : Sdk) (u : UsbCdc) (s : Status)
    → u.fg_bus_rst ≡ false
    → is_ep3_in s ≡ false
    → IsDeaf u
    → IsDeaf (on_irq k u s)
unfolding on_irq
on_irq-IsDeaf k u s calm other d =
    subst (λ b. IsDeaf (dispatch k u s u.fg_transfer b u.fg_suspend)) (sym calm)
      (dispatch-IsDeaf k u s u.fg_transfer u.fg_suspend other d)

reopen_ep2-IsDeaf : (u : UsbCdc) → IsDeaf u → IsDeaf (reopen_ep2 u)
unfolding reopen_ep2
reopen_ep2-IsDeaf u d = elim (Bool-cases (u.ep2_nak && leb packet (free rx_capacity u.rx))) [
  | inl open_ ↦ rw open_ (record { waiting = d.waiting; silent = d.silent })
  | inr shut ↦ rw shut d
]

tick-IsDeaf :
    (k : Sdk) (u : UsbCdc) (s : Status) (now_ms : ℕ)
    → u.fg_bus_rst ≡ false
    → is_ep3_in s ≡ false
    → IsDeaf u
    → IsDeaf (tick k u s now_ms)
unfolding tick poll_flags
tick-IsDeaf k u s now_ms calm other d =
    elim (Bool-cases (u.fg_transfer || u.fg_bus_rst || u.fg_suspend)) [
      | inl some_ ↦ rw some_ (rest (on_irq k u s) (on_irq-IsDeaf k u s calm other d))
      | inr quiet ↦ rw quiet (rest u d)
    ]
  where
    rest : (v : UsbCdc) → IsDeaf v → IsDeaf (coalesce (reopen_ep2 v) now_ms)
    rest v e = let f = reopen_ep2-IsDeaf v e in rw (coalesce-busy (reopen_ep2 v) now_ms f.waiting) f

pump-IsDeaf :
    (k : Sdk) (u : UsbCdc) (s : Status)
    → u.fg_bus_rst ≡ false
    → is_ep3_in s ≡ false
    → IsDeaf u
    → IsDeaf (pump k u s)
unfolding pump
pump-IsDeaf k u s calm other d = rw other (by_flag u.fg_transfer)
  where
    by_flag : (t : Bool) → IsDeaf (pump_case k u s t false)
    by_flag true = unfold pump_case in on_irq-IsDeaf k u s calm other d
    by_flag false = unfold pump_case in d

-- What may happen with no completion at endpoint 3 and no bus reset.
pub data Quiet (k : Sdk) (u : UsbCdc) : UsbCdc → Type 0 where
  here : Quiet k u u
  write_step : {v : UsbCdc} (bytes : List ℕ) → Quiet k u v → Quiet k u (write v bytes).1
  commit_step : {v : UsbCdc} (bytes : List ℕ) → Quiet k u v → Quiet k u (tx_commit v bytes)
  read_step : {v : UsbCdc} (n : ℕ) → Quiet k u v → Quiet k u (read v n).1
  tick_step :
      {v : UsbCdc} (s : Status) (now_ms : ℕ)
      → v.fg_bus_rst ≡ false
      → is_ep3_in s ≡ false
      → Quiet k u v
      → Quiet k u (tick k v s now_ms)
  pump_step :
      {v : UsbCdc} (s : Status)
      → v.fg_bus_rst ≡ false
      → is_ep3_in s ≡ false
      → Quiet k u v
      → Quiet k u (pump k v s)
  signal_step :
      {v : UsbCdc} (ep0 : ℕ → ℕ) (transfer suspend : Bool)
      → Quiet k u v
      → Quiet k u (record v { ep0 = ep0; fg_transfer = transfer; fg_suspend = suspend })

Quiet-IsDeaf : (k : Sdk) (u : UsbCdc) {v : UsbCdc} → IsDeaf u → Quiet k u v → IsDeaf v
unfolding write read tx_commit
Quiet-IsDeaf k u d here = d
Quiet-IsDeaf k u d (write_step {v} bytes q) =
    let e = Quiet-IsDeaf k u d q in record { waiting = e.waiting; silent = e.silent }
Quiet-IsDeaf k u d (commit_step {v} bytes q) =
    let e = Quiet-IsDeaf k u d q in record { waiting = e.waiting; silent = e.silent }
Quiet-IsDeaf k u d (read_step {v} n q) =
    let e = Quiet-IsDeaf k u d q in record { waiting = e.waiting; silent = e.silent }
Quiet-IsDeaf k u d (tick_step {v} s now_ms calm other q) =
    tick-IsDeaf k v s now_ms calm other (Quiet-IsDeaf k u d q)
Quiet-IsDeaf k u d (pump_step {v} s calm other q) =
    pump-IsDeaf k v s calm other (Quiet-IsDeaf k u d q)
Quiet-IsDeaf k u d (signal_step {v} ep0 t z q) =
    let e = Quiet-IsDeaf k u d q in record { waiting = e.waiting; silent = e.silent }

-- A host that clears the halt of the bulk IN endpoint while a packet waits there makes it deaf: from then on, whatever is
-- written, polled or requested, as long as no packet completes there and the bus is not reset, the driver waits for the
-- completion and the endpoint does not answer, so that none can come.
pub clear_halt-IsDeaf :
    (k : Sdk) (u : UsbCdc) {v : UsbCdc}
    → let req = k.setup_of u.ep0 in
      u.ep3_busy ≡ true
      → req.type_of ≡ standard
      → req.code ≡ clear_feature
      → req.recipient ≡ to_endpoint
      → k.feature_of (low_byte req.value) ≡ endp_halt
      → low_byte req.index ≡ endpoint_in3
      → Quiet k (handle_setup k u) v
      → (v.ep3_busy ≡ true) × (v.ctrl3.t_res ≢ ack)
clear_halt-IsDeaf k u busy std code_ rec feat ep q =
    let f = handle_setup-Frame k u in
    let d : IsDeaf (handle_setup k u) = record {
      waiting = f.same_busy ∙ busy;
      silent = λ p. cc (clear_halt-ep3 k u std code_ rec feat ep);
    } in
    let e = Quiet-IsDeaf k (handle_setup k u) d q in (e.waiting, e.silent)
