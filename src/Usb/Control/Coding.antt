-- ===== src/Usb/Control/Coding.antt =====
-- src/usb/usb_cdc.cpp: the requests for the line coding.
use ch32_tapioca.Prelude.{
  ℕ, zero, suc, ◌+◌, ◌-◌, ◌*◌, ◌≤◌, ◌≡◌, ◌∙◌, sym, ap, ap₂, subst, refl, arith, Bool, true, false,
  List, ◌++◌, none, some, ltb, if◌then◌else◌, length, take_all,
}
use ch32_tapioca.Ring.{read_run}
use ch32_tapioca.Usb.Device.{
  UsbCdc, Sdk, Setup, nak, class_type, get_line_coding, set_line_coding, at, whole,
  decode_line_coding,
}
use ch32_tapioca.Usb.Control.{
  is_set_line_coding, arm_setup, handle_setup, handle_ep0_out, ep0_out_data, ep0_out_status,
  set_coding,
}
use ch32_tapioca.Usb.Requests.{
  stage, at_most_packet, is_standard, has_class_bit, standard_request, class_request, class_code,
}
use ch32_tapioca.Usb.Control.Read.{reply, stage-some, stage_setup, arm_setup-reads, memcpy-run}
use ch32_tapioca.Usb.Control.Copies.{read_run-at, read_run-append, read_run-ext}

-- A class request to the host for the line coding is answered from `lcWire_` on, with as many bytes as the host asked for, up
-- to 64.
coding-reply :
    (k : Sdk) (u : UsbCdc)
    → let req = k.setup_of u.ep0 in
      req.to_host ≡ true
      → req.type_of ≡ class_type
      → req.code ≡ get_line_coding
      → reply (handle_setup k u)
        ≡ read_run (at u.lc_wire (k.past u.lc_wire)) 0 (at_most_packet req.len)
unfolding handle_setup class_request class_code
coding-reply k u reads cls code_ =
    let req = k.setup_of u.ep0 in
    let d = at u.lc_wire (k.past u.lc_wire) in
    let len = at_most_packet req.len in
    let u0 = record u {
      ctrl0 = whole nak nak true true;
      descr = none;
      setup = req;
      setup_len = req.len;
    } in
    let P = λ (r : UsbCdc × Bool). reply (arm_setup r.0 r.1) ≡ read_run d 0 len in
    let body : UsbCdc × Bool → UsbCdc × Bool =
      λ r. (stage r.0 (at_most_packet r.0.setup_len), r.1) in
    let w = record u0 { descr = some d } in
    let (moved, copied) = stage-some w d len refl in
    let (same, kept) = stage_setup w len in
    let (setup_, descr_, ep0_, left_, tx) =
      arm_setup-reads (stage w len) (ap (λ (q : Setup). q.to_host) same ∙ reads) in
    subst
      (λ t. P (
        if is_standard t
        then standard_request k u0 req.code
        else body (if has_class_bit t then class_code k u0 req.code else (u0, true))))
      (sym cls)
      (subst (λ c. P (body (class_code k u0 c))) (sym code_)
        (ap₂ (λ e j. read_run e 0 j) (ep0_ ∙ copied) (tx ∙ ap (λ (j : ℕ). at_most_packet j) kept)
          ∙ memcpy-run u.ep0 d len))

-- A host that asks for `n` bytes of the line coding, from 7 to 64, gets the seven bytes of `lcWire_` and `n - 7` bytes of
-- what lies behind it in memory.
pub get_line_coding-reads_past :
    (k : Sdk) (u : UsbCdc)
    → let req = k.setup_of u.ep0 in
      req.to_host ≡ true
      → req.type_of ≡ class_type
      → req.code ≡ get_line_coding
      → length u.lc_wire ≡ 7
      → 7 ≤ req.len
      → req.len ≤ 64
      → reply (handle_setup k u) ≡ u.lc_wire ++ read_run (k.past u.lc_wire) 0 (req.len - 7)
get_line_coding-reads_past k u reads cls code_ seven low high =
    let req = k.setup_of u.ep0 in
    let table = u.lc_wire in
    let past = k.past table in
    let whole_ : at_most_packet req.len ≡ length table + (req.len - 7) = ground arith in
    coding-reply k u reads cls code_
    ∙ ap (read_run (at table past) 0) whole_
    ∙ read_run-append (at table past) 0 (length table) (req.len - 7)
    ∙ ap₂ ◌++◌
        (read_run-at table past (length table) (omega arith)
          ∙ take_all (length table) table (omega arith))
        (read_run-ext (at table past) past (0 + length table) 0 (req.len - 7)
          (λ i h. at-past table past i))
  where
    at-past : (xs : List ℕ) (past : ℕ → ℕ) (i : ℕ) → at xs past (0 + length xs + i) ≡ past (0 + i)
    at-past xs past i =
        let test : ltb (0 + length xs + i) (length xs) ≡ false = ground arith in
        let gone : 0 + length xs + i - length xs ≡ 0 + i = omega arith in rw (test, gone) refl

length-read_run : (f : ℕ → ℕ) (p n : ℕ) → length (read_run f p n) ≡ n
unfolding read_run
length-read_run f p zero = refl
length-read_run f p (suc n) = ap suc (length-read_run f (p + 1) n)

-- The data stage of `SET_LINE_CODING`, in a transfer to the class: the coding is the seven bytes that the host sent, and its
-- rate is their first four with the low byte first. In any state `w` that has the same `lcWire_` still, and the SETUP packet of a
-- `GET_LINE_CODING` for seven bytes in its buffer, the answer to that is the same seven bytes.
pub handle_ep0_out-coding :
    (k : Sdk) (u w : UsbCdc)
    → let v = handle_ep0_out u in
      let req = k.setup_of w.ep0 in
      u.setup.type_of ≡ class_type
      → u.setup.code ≡ set_line_coding
      → w.lc_wire ≡ v.lc_wire
      → req.to_host ≡ true
      → req.type_of ≡ class_type
      → req.code ≡ get_line_coding
      → req.len ≡ 7
      → (v.lc.baud ≡ u.ep0 0 + u.ep0 1 * 256 + u.ep0 2 * 65536 + u.ep0 3 * 16777216)
        × (v.lc.stop_bits ≡ u.ep0 4)
        × (v.lc.parity ≡ u.ep0 5)
        × (v.lc.data_bits ≡ u.ep0 6)
        × (v.lc_changed ≡ true)
        × (v.lc_wire ≡ read_run u.ep0 0 7)
        × (reply (handle_setup k w) ≡ read_run u.ep0 0 7)
unfolding handle_ep0_out ep0_out_data ep0_out_status set_coding decode_line_coding
handle_ep0_out-coding k u w cls code_ same reads cls' code' seven =
    let v = handle_ep0_out u in
    let bytes = read_run u.ep0 0 7 in
    let past = k.past bytes in
    let e : v ≡ ep0_out_status (ep0_out_data u false true) =
      ap₂ (λ t c. ep0_out_status (ep0_out_data u (is_standard t) (is_set_line_coding c))) cls
        code_ in
    let wire : v.lc_wire ≡ bytes = ap (λ (x : UsbCdc). x.lc_wire) e in
    let seven_ : length bytes ≡ 7 = length-read_run u.ep0 0 7 in
    (
      ap (λ (x : UsbCdc). x.lc.baud) e,
      ap (λ (x : UsbCdc). x.lc.stop_bits) e,
      ap (λ (x : UsbCdc). x.lc.parity) e,
      ap (λ (x : UsbCdc). x.lc.data_bits) e,
      ap (λ (x : UsbCdc). x.lc_changed) e,
      wire,
      coding-reply k w reads cls' code'
          ∙ ap₂ (λ l n. read_run (at l (k.past l)) 0 (at_most_packet n)) (same ∙ wire) seven
          ∙ read_run-at bytes past 7 (omega (arith, seven_))
          ∙ take_all 7 bytes (omega (arith, seven_)),
    )
