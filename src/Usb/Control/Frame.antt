-- ===== src/Usb/Control/Frame.antt =====
-- src/usb/usb_cdc.cpp: what a control transfer leaves alone.
use ch32_tapioca.Prelude.{
  ℕ, ◌≡◌, refl, arith, Bool, true, false, Option, none, some, ◌⊎◌, inl, inr, ◌∙◌, ap, List,
  if◌then◌else◌, Bool-cases,
}
use ch32_tapioca.Ring.{Ring, clear}
use ch32_tapioca.Usb.Device.{
  Ctrl, standard, ack, nak, Feature, remote_wakeup, endp_halt, Recipient, to_device, to_endpoint,
  Code, get_descriptor, clear_feature, set_feature, get_status, get_line_coding, set_line_coding,
  set_line_ctlste, Sdk, UsbCdc, at, store, whole,
}
use ch32_tapioca.Usb.Control.{
  arm_setup, handle_setup, handle_ep0_in, handle_ep0_out, ep0_out_data, ep0_out_status, set_coding,
  is_set_line_coding,
}
use ch32_tapioca.Usb.Requests.{
  stage, stage_table, clamp, class_code, class_request, descriptor, get_descriptor_request,
  clear_halt, clear_feature_of, set_feature_of, status_of, standard_request, at_most_packet,
  low_byte, endpoint_in3, is_standard, has_class_bit,
}

-- The state of the bulk endpoints and what the flags show. Endpoint 3 may lose its permission to answer; the ring of
-- received bytes may be cleared.
pub record Frame (u v : UsbCdc) : Type 0 where
  pub same_tx : v.tx ≡ u.tx
  pub same_ep3 : v.ep3 ≡ u.ep3
  pub same_busy : v.ep3_busy ≡ u.ep3_busy
  pub same_nak : v.ep2_nak ≡ u.ep2_nak
  pub same_pending : v.partial_pending ≡ u.partial_pending
  pub same_len3 : v.tx_len3 ≡ u.tx_len3
  pub same_reset : v.fg_bus_rst ≡ u.fg_bus_rst
  pub no_ack : v.ctrl3.t_res ≡ ack → u.ctrl3.t_res ≡ ack
  pub rx_kept : (v.rx ≡ u.rx) ⊎ (v.rx ≡ clear u.rx)

Frame-refl : (u : UsbCdc) → Frame u u
Frame-refl u = record {
  same_tx = refl;
  same_ep3 = refl;
  same_busy = refl;
  same_nak = refl;
  same_pending = refl;
  same_len3 = refl;
  same_reset = refl;
  no_ack = λ p. p;
  rx_kept = inl refl;
}

clear-clear : (r : Ring ℕ) → clear (clear r) ≡ clear r
unfolding clear
clear-clear r = refl

stage-Frame : (u : UsbCdc) (n : ℕ) → Frame u (stage u n)
unfolding stage
stage-Frame u n = ground arith

class_code-Frame : (k : Sdk) (u : UsbCdc) (c : Code) → Frame u (class_code k u c).0
unfolding class_code
class_code-Frame k u set_line_ctlste = ground arith
class_code-Frame k u get_line_coding = ground arith
class_code-Frame k u set_line_coding = ground arith
class_code-Frame k u c = ground arith

clear_feature_of-Frame :
    (r : Recipient) (f : Feature) (u : UsbCdc) → Frame u (clear_feature_of r f u).0
unfolding clear_feature_of
clear_feature_of-Frame to_device remote_wakeup u = ground arith
clear_feature_of-Frame to_endpoint endp_halt u = ground arith
clear_feature_of-Frame r f u = ground arith

set_feature_of-Frame : (r : Recipient) (f : Feature) (u : UsbCdc) → Frame u (set_feature_of r f u).0
unfolding set_feature_of
set_feature_of-Frame to_device remote_wakeup u = ground arith
set_feature_of-Frame to_endpoint endp_halt u = ground arith
set_feature_of-Frame r f u = ground arith

status_of-Frame : (r : Recipient) (u : UsbCdc) → Frame u (status_of r u).0
unfolding status_of
status_of-Frame to_device u = ground arith
status_of-Frame to_endpoint u = ground arith
status_of-Frame r u = ground arith

arm_setup-Frame : (u : UsbCdc) (err : Bool) → Frame u (arm_setup u err)
unfolding arm_setup
arm_setup-Frame u err = ground arith

Frame-trans : (u v w : UsbCdc) → Frame u v → Frame v w → Frame u w
Frame-trans u v w a b = record {
  same_tx = b.same_tx ∙ a.same_tx;
  same_ep3 = b.same_ep3 ∙ a.same_ep3;
  same_busy = b.same_busy ∙ a.same_busy;
  same_nak = b.same_nak ∙ a.same_nak;
  same_pending = b.same_pending ∙ a.same_pending;
  same_len3 = b.same_len3 ∙ a.same_len3;
  same_reset = b.same_reset ∙ a.same_reset;
  no_ack = λ p. a.no_ack (b.no_ack p);
  rx_kept = elim b.rx_kept [
    | inl p ↦ elim a.rx_kept [ inl q ↦ inl (p ∙ q) | inr q ↦ inr (p ∙ q) ]
    | inr p ↦ elim a.rx_kept [
      | inl q ↦ inr (p ∙ ap clear q)
      | inr q ↦ inr (p ∙ ap clear q ∙ clear-clear u.rx)
    ]
  ];
}

set_coding-Frame : (u : UsbCdc) → Frame u (set_coding u)
unfolding set_coding
set_coding-Frame u = record {
  same_tx = refl;
  same_ep3 = refl;
  same_busy = refl;
  same_nak = refl;
  same_pending = refl;
  same_len3 = refl;
  same_reset = refl;
  no_ack = λ p. p;
  rx_kept = inl refl;
}

ep0_out_data-Frame : (u : UsbCdc) (s c : Bool) → Frame u (ep0_out_data u s c)
unfolding ep0_out_data
ep0_out_data-Frame u true c = Frame-refl u
ep0_out_data-Frame u false true = Frame-trans u (set_coding u) _ (set_coding-Frame u) (ground arith)
ep0_out_data-Frame u false false = ground arith

ep0_out_status-Frame : (u : UsbCdc) → Frame u (ep0_out_status u)
unfolding ep0_out_status
ep0_out_status-Frame u = ground arith

pub handle_ep0_out-Frame : (u : UsbCdc) → Frame u (handle_ep0_out u)
unfolding handle_ep0_out
handle_ep0_out-Frame u =
    Frame-trans u _ _
      (ep0_out_data-Frame u (is_standard u.setup.type_of) (is_set_line_coding u.setup.code))
      (ep0_out_status-Frame
        (ep0_out_data u (is_standard u.setup.type_of) (is_set_line_coding u.setup.code)))

pub handle_ep0_in-Frame : (k : Sdk) (u : UsbCdc) → Frame u (handle_ep0_in k u)
unfolding handle_ep0_in
handle_ep0_in-Frame k u = ground arith

stage_table-Frame : (k : Sdk) (u : UsbCdc) (t : Option (List ℕ × ℕ)) → Frame u (stage_table k u t).0
unfolding stage_table
stage_table-Frame k u none = ground arith
stage_table-Frame k u (some (table, len)) =
    let n = clamp u.setup_len len in
    let v = record u { descr = some (at table (k.past table)); setup_len = n } in
    Frame-trans u v (stage v (at_most_packet n)) (ground arith) (stage-Frame v (at_most_packet n))

get_descriptor_request-Frame : (k : Sdk) (u : UsbCdc) → Frame u (get_descriptor_request k u).0
unfolding get_descriptor_request
get_descriptor_request-Frame k u = stage_table-Frame k u (descriptor k u.setup.value)

standard_request-Frame : (k : Sdk) (u : UsbCdc) (c : Code) → Frame u (standard_request k u c).0
unfolding standard_request
standard_request-Frame k u get_descriptor = get_descriptor_request-Frame k u
standard_request-Frame k u clear_feature = clear_feature_of-Frame _ _ u
standard_request-Frame k u set_feature = set_feature_of-Frame _ _ u
standard_request-Frame k u get_status =
    let v = record u { ep0 = store (store u.ep0 0 0) 1 0 } in
    let first : Frame u v = ground arith in
    let w = (status_of u.setup.recipient v).0 in
    let second : Frame v w = status_of-Frame u.setup.recipient v in
    Frame-trans u w _ (Frame-trans u v w first second) (ground arith)
standard_request-Frame k u c = ground arith

class_request-Frame : (k : Sdk) (u : UsbCdc) → Frame u (class_request k u).0
unfolding class_request
class_request-Frame k u = elim (Bool-cases (has_class_bit u.setup.type_of)) [
  | inl yes_ ↦
      let v = (class_code k u u.setup.code).0 in
      rw yes_ (
        Frame-trans u v _ (class_code-Frame k u u.setup.code)
          (stage-Frame v (at_most_packet v.setup_len)))
  | inr no_ ↦ rw no_ (stage-Frame u (at_most_packet u.setup_len))
]

-- A control transfer does not touch the stream to the host, and never lets endpoint 3 answer again.
pub handle_setup-Frame : (k : Sdk) (u : UsbCdc) → Frame u (handle_setup k u)
unfolding handle_setup
handle_setup-Frame k u =
    let req = k.setup_of u.ep0 in
    let u0 = record u {
      ctrl0 = whole nak nak true true;
      descr = none;
      setup = req;
      setup_len = req.len;
    } in
    let started : Frame u u0 = ground arith in
    elim (Bool-cases (is_standard req.type_of)) [
      | inl std ↦
          let r = standard_request k u0 req.code in
          rw std (
            Frame-trans u r.0 _
              (Frame-trans u u0 r.0 started (standard_request-Frame k u0 req.code))
              (arm_setup-Frame r.0 r.1))
      | inr other ↦
          let r = class_request k u0 in
          rw other (
            Frame-trans u r.0 _ (Frame-trans u u0 r.0 started (class_request-Frame k u0))
              (arm_setup-Frame r.0 r.1))
    ]

arm_setup-ctrl3 : (u : UsbCdc) (err : Bool) → (arm_setup u err).ctrl3 ≡ u.ctrl3
unfolding arm_setup
arm_setup-ctrl3 u err = ground arith

-- Clearing the halt of endpoint 3 makes it answer NAK.
pub clear_halt-ep3 :
    (k : Sdk) (u : UsbCdc)
    → let req = k.setup_of u.ep0 in
      req.type_of ≡ standard
      → req.code ≡ clear_feature
      → req.recipient ≡ to_endpoint
      → k.feature_of (low_byte req.value) ≡ endp_halt
      → low_byte req.index ≡ endpoint_in3
      → (handle_setup k u).ctrl3.t_res ≡ nak
unfolding handle_setup standard_request clear_feature_of clear_halt
clear_halt-ep3 k u std code_ rec feat ep =
    let req = k.setup_of u.ep0 in
    let u0 = record u {
      ctrl0 = whole nak nak true true;
      descr = none;
      setup = req;
      setup_len = req.len;
    } in
    let r =
      if is_standard req.type_of then standard_request k u0 req.code else class_request k u0 in
    ap (λ (c : Ctrl). c.t_res) (arm_setup-ctrl3 r.0 r.1)
    ∙ ap
        (λ t.
          (if is_standard t
            then standard_request k u0 req.code
            else class_request k u0).0.ctrl3.t_res)
        std
    ∙ ap (λ c. (standard_request k u0 c).0.ctrl3.t_res) code_
    ∙ ap (λ c. (clear_feature_of c (k.feature_of (low_byte req.value)) u0).0.ctrl3.t_res) rec
    ∙ ap (λ c. (clear_feature_of to_endpoint c u0).0.ctrl3.t_res) feat
    ∙ ap (λ e. (clear_halt u0 e).0.ctrl3.t_res) ep
