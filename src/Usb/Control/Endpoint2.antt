-- ===== src/Usb/Control/Endpoint2.antt =====
-- src/usb/usb_cdc.cpp: what a control transfer does to the response of the bulk OUT endpoint.
use ch32_tapioca.Prelude.{
  ℕ, ◌≡◌, ◌≢◌, ◌∙◌, sym, ap, refl, arith, Bool, true, false, List, Option, none, some, ◌==◌, ==_iff,
  Bool-cases, inl, inr, if◌then◌else◌,
}
use ch32_tapioca.Usb.Device.{
  decode_line_coding, RequestType, class_type, vendor, reserved, Ctrl, standard, ack, nak, Feature,
  remote_wakeup, endp_halt, other_feature, Recipient, to_device, to_interface, to_endpoint,
  to_other, Code, get_descriptor, clear_feature, set_feature, get_status, get_line_coding,
  set_line_coding, set_line_ctlste, Sdk, UsbCdc, at, store, whole,
}
use ch32_tapioca.Usb.Control.{
  arm_setup, handle_setup, handle_ep0_in, handle_ep0_out, ep0_out_data, ep0_out_status, set_coding,
  is_set_line_coding,
}
use ch32_tapioca.Usb.Requests.{
  stage, stage_table, clamp, class_code, class_request, descriptor, get_descriptor_request,
  clear_halt, set_halt, clear_feature_of, set_feature_of, status_of, standard_request,
  at_most_packet, low_byte, endpoint_in1, endpoint_out2, endpoint_in3, is_standard, has_class_bit,
}

-- The endpoint does not answer ACK if it did not before.
abbrev pub Kept2 : UsbCdc → UsbCdc → Type 0
Kept2 u v = v.ctrl2.r_res ≡ ack → u.ctrl2.r_res ≡ ack

same-Kept2 : (u v : UsbCdc) → v.ctrl2 ≡ u.ctrl2 → Kept2 u v
same-Kept2 u v e p = ap (λ (c : Ctrl). c.r_res) (sym e) ∙ p

stage-ctrl2 : (u : UsbCdc) (n : ℕ) → (stage u n).ctrl2 ≡ u.ctrl2
unfolding stage
stage-ctrl2 u n = ground arith

class_code-ctrl2 : (k : Sdk) (u : UsbCdc) (c : Code) → (class_code k u c).0.ctrl2 ≡ u.ctrl2
unfolding class_code
class_code-ctrl2 k u set_line_ctlste = ground arith
class_code-ctrl2 k u get_line_coding = ground arith
class_code-ctrl2 k u set_line_coding = ground arith
class_code-ctrl2 k u c = ground arith

class_request-ctrl2 : (k : Sdk) (u : UsbCdc) → (class_request k u).0.ctrl2 ≡ u.ctrl2
unfolding class_request
class_request-ctrl2 k u = elim (Bool-cases (has_class_bit u.setup.type_of)) [
  | inl yes_ ↦
      let v = (class_code k u u.setup.code).0 in
      rw yes_ (stage-ctrl2 v (at_most_packet v.setup_len) ∙ class_code-ctrl2 k u u.setup.code)
  | inr no_ ↦ rw no_ (stage-ctrl2 u (at_most_packet u.setup_len))
]

stage_table-ctrl2 :
    (k : Sdk) (u : UsbCdc) (t : Option (List ℕ × ℕ)) → (stage_table k u t).0.ctrl2 ≡ u.ctrl2
unfolding stage_table
stage_table-ctrl2 k u none = refl
stage_table-ctrl2 k u (some (table, len)) =
    let n = clamp u.setup_len len in
    stage-ctrl2 (record u { descr = some (at table (k.past table)); setup_len = n })
      (at_most_packet n)

status_of-ctrl2 : (r : Recipient) (u : UsbCdc) → (status_of r u).0.ctrl2 ≡ u.ctrl2
unfolding status_of
status_of-ctrl2 to_device u = ground arith
status_of-ctrl2 to_endpoint u = ground arith
status_of-ctrl2 r u = ground arith

set_halt-Kept2 : (u : UsbCdc) (e : ℕ) → Kept2 u (set_halt u e).0
unfolding set_halt
set_halt-Kept2 u e = elim (Bool-cases (e == endpoint_in1)) [
  | inl one ↦ rw one (λ p. p)
  | inr no1 ↦ elim (Bool-cases (e == endpoint_out2)) [
    | inl two ↦ rw (no1, two) (λ p. absurd (cc))
    | inr no2 ↦ elim (Bool-cases (e == endpoint_in3)) [
      | inl three ↦ rw (no1, no2, three) (λ p. p)
      | inr no3 ↦ rw (no1, no2, no3) (λ p. p)
    ]
  ]
]

set_feature_of-Kept2 : (r : Recipient) (f : Feature) (u : UsbCdc) → Kept2 u (set_feature_of r f u).0
unfolding set_feature_of
set_feature_of-Kept2 to_device remote_wakeup u =
    same-Kept2 u (set_feature_of to_device remote_wakeup u).0 (ground arith)
set_feature_of-Kept2 to_device endp_halt u = λ p. p
set_feature_of-Kept2 to_device other_feature u = λ p. p
set_feature_of-Kept2 to_endpoint endp_halt u = set_halt-Kept2 u (low_byte u.setup.index)
set_feature_of-Kept2 to_endpoint remote_wakeup u = λ p. p
set_feature_of-Kept2 to_endpoint other_feature u = λ p. p
set_feature_of-Kept2 to_interface f u = λ p. p
set_feature_of-Kept2 to_other f u = λ p. p

clear_halt-Kept2 : (u : UsbCdc) (e : ℕ) → e ≢ endpoint_out2 → Kept2 u (clear_halt u e).0
unfolding clear_halt
clear_halt-Kept2 u e other = elim (Bool-cases (e == endpoint_in1)) [
  | inl one ↦ rw one (λ p. p)
  | inr no1 ↦ elim (Bool-cases (e == endpoint_out2)) [
    | inl two ↦ absurd (other ((==_iff e endpoint_out2).0 two))
    | inr no2 ↦ elim (Bool-cases (e == endpoint_in3)) [
      | inl three ↦ rw (no1, no2, three) (λ p. p)
      | inr no3 ↦ rw (no1, no2, no3) (λ p. p)
    ]
  ]
]

clear_feature_of-Kept2 :
    (r : Recipient) (f : Feature) (u : UsbCdc)
    → ¬ ((r ≡ to_endpoint) × (f ≡ endp_halt) × (low_byte u.setup.index ≡ endpoint_out2))
    → Kept2 u (clear_feature_of r f u).0
unfolding clear_feature_of
clear_feature_of-Kept2 to_device remote_wakeup u other = λ p. p
clear_feature_of-Kept2 to_device endp_halt u other = λ p. p
clear_feature_of-Kept2 to_device other_feature u other = λ p. p
clear_feature_of-Kept2 to_endpoint endp_halt u other =
    clear_halt-Kept2 u (low_byte u.setup.index) (λ e. other (refl, refl, e))
clear_feature_of-Kept2 to_endpoint remote_wakeup u other = λ p. p
clear_feature_of-Kept2 to_endpoint other_feature u other = λ p. p
clear_feature_of-Kept2 to_interface f u other = λ p. p
clear_feature_of-Kept2 to_other f u other = λ p. p

standard_request-Kept2 :
    (k : Sdk) (u : UsbCdc) (c : Code)
    → ¬ (
        (c ≡ clear_feature)
        × (u.setup.recipient ≡ to_endpoint)
        × (k.feature_of (low_byte u.setup.value) ≡ endp_halt)
        × (low_byte u.setup.index ≡ endpoint_out2))
    → Kept2 u (standard_request k u c).0
unfolding standard_request get_descriptor_request
standard_request-Kept2 k u get_descriptor other =
    same-Kept2 u (stage_table k u (descriptor k u.setup.value)).0
      (stage_table-ctrl2 k u (descriptor k u.setup.value))
standard_request-Kept2 k u clear_feature other =
    clear_feature_of-Kept2 u.setup.recipient (k.feature_of (low_byte u.setup.value)) u
      (λ e. other (refl, e.0, e.1, e.2))
standard_request-Kept2 k u set_feature other =
    set_feature_of-Kept2 u.setup.recipient (k.feature_of (low_byte u.setup.value)) u
standard_request-Kept2 k u get_status other =
    let v = record u { ep0 = store (store u.ep0 0 0) 1 0 } in
    same-Kept2 u (status_of u.setup.recipient v).0 (status_of-ctrl2 u.setup.recipient v)
standard_request-Kept2 k u c other = same-Kept2 u (standard_request k u c).0 (ground arith)

arm_setup-ctrl2 : (u : UsbCdc) (err : Bool) → (arm_setup u err).ctrl2 ≡ u.ctrl2
unfolding arm_setup
arm_setup-ctrl2 u err = ground arith

-- The SETUP packet in the buffer asks to clear the halt of the bulk OUT endpoint.
abbrev pub ClearsOut : Sdk → UsbCdc → Type 0
ClearsOut k u =
    let req = k.setup_of u.ep0 in
    (req.type_of ≡ standard)
    × (req.code ≡ clear_feature)
    × (req.recipient ≡ to_endpoint)
    × (k.feature_of (low_byte req.value) ≡ endp_halt)
    × (low_byte req.index ≡ endpoint_out2)

is_standard-only : (t : RequestType) → is_standard t ≡ true → t ≡ standard
is_standard-only standard e = refl
is_standard-only class_type e = absurd (cc)
is_standard-only vendor e = absurd (cc)
is_standard-only reserved e = absurd (cc)

pub handle_setup-Kept2 : (k : Sdk) (u : UsbCdc) → ¬ ClearsOut k u → Kept2 u (handle_setup k u)
unfolding handle_setup
handle_setup-Kept2 k u other =
    let req = k.setup_of u.ep0 in
    let u0 = record u {
      ctrl0 = whole nak nak true true;
      descr = none;
      setup = req;
      setup_len = req.len;
    } in
    elim (Bool-cases (is_standard req.type_of)) [
      | inl std ↦
          let r = standard_request k u0 req.code in
          rw std (λ p.
            standard_request-Kept2 k u0 req.code
              (λ e. other (is_standard-only req.type_of std, e.0, e.1, e.2, e.3))
              (same-Kept2 r.0 (arm_setup r.0 r.1) (arm_setup-ctrl2 r.0 r.1) p))
      | inr no_ ↦
          let r = class_request k u0 in
          rw no_
            (same-Kept2 u (arm_setup r.0 r.1) (arm_setup-ctrl2 r.0 r.1 ∙ class_request-ctrl2 k u0))
    ]

-- Such a request makes the endpoint answer ACK, and leaves its flag and the received bytes as they are.
pub clear_halt-ep2 :
    (k : Sdk) (u : UsbCdc)
    → ClearsOut k u
    → let v = handle_setup k u in (v.ctrl2.r_res ≡ ack) × (v.ep2_nak ≡ u.ep2_nak) × (v.rx ≡ u.rx)
unfolding handle_setup standard_request clear_feature_of clear_halt
clear_halt-ep2 k u (std, code_, rec, feat, ep) =
    let req = k.setup_of u.ep0 in
    let u0 = record u {
      ctrl0 = whole nak nak true true;
      descr = none;
      setup = req;
      setup_len = req.len;
    } in
    let v : UsbCdc = record u0 { ctrl2 = whole ack ack false false } in
    let e : handle_setup k u ≡ arm_setup v false =
      ap (λ (r : UsbCdc × Bool). arm_setup r.0 r.1)
        (ap (λ t. if is_standard t then standard_request k u0 req.code else class_request k u0) std
          ∙ ap (λ c. standard_request k u0 c) code_
          ∙ ap (λ c. clear_feature_of c (k.feature_of (low_byte req.value)) u0) rec
          ∙ ap (λ c. clear_feature_of to_endpoint c u0) feat
          ∙ ap (λ e. clear_halt u0 e) ep) in
    let (nak_, rx) = arm_setup-rx v false in
    (
      ap (λ (x : UsbCdc). x.ctrl2.r_res) e ∙ ap (λ (c : Ctrl). c.r_res) (arm_setup-ctrl2 v false),
      ap (λ (x : UsbCdc). x.ep2_nak) e ∙ nak_,
      ap (λ (x : UsbCdc). x.rx) e ∙ rx,
    )
  where
    arm_setup-rx :
        (u : UsbCdc) (err : Bool)
        → ((arm_setup u err).ep2_nak ≡ u.ep2_nak) × ((arm_setup u err).rx ≡ u.rx)
    arm_setup-rx u err = unfold arm_setup in ground arith

pub handle_ep0_in-ctrl2 : (k : Sdk) (u : UsbCdc) → (handle_ep0_in k u).ctrl2 ≡ u.ctrl2
unfolding handle_ep0_in
handle_ep0_in-ctrl2 k u = ground arith

ep0_out_data-ctrl2 : (u : UsbCdc) (s c : Bool) → (ep0_out_data u s c).ctrl2 ≡ u.ctrl2
unfolding ep0_out_data set_coding decode_line_coding
ep0_out_data-ctrl2 u true c = refl
ep0_out_data-ctrl2 u false true = refl
ep0_out_data-ctrl2 u false false = refl

ep0_out_status-ctrl2 : (u : UsbCdc) → (ep0_out_status u).ctrl2 ≡ u.ctrl2
unfolding ep0_out_status
ep0_out_status-ctrl2 u = ground arith

pub handle_ep0_out-ctrl2 : (u : UsbCdc) → (handle_ep0_out u).ctrl2 ≡ u.ctrl2
unfolding handle_ep0_out
handle_ep0_out-ctrl2 u =
    let s = is_standard u.setup.type_of in
    let c = is_set_line_coding u.setup.code in
    ep0_out_status-ctrl2 (ep0_out_data u s c) ∙ ep0_out_data-ctrl2 u s c
