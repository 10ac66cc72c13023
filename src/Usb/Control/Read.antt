-- ===== src/Usb/Control/Read.antt =====
-- src/usb/usb_cdc.cpp: what the host reads from endpoint 0.
use ch32_tapioca.Prelude.{
  ℕ, zero, suc, ◌+◌, ◌-◌, ◌*◌, ◌/◌, ◌≡◌, ◌∙◌, sym, ap, ap₂, subst, refl, arith, Bool, true, false,
  List, [], ◌++◌, none, some, ◌==◌, if◌then◌else◌, length, take, min, Bool-cases, inl, inr,
}
use ch32_tapioca.Ring.{read_run}
use ch32_tapioca.Usb.Descriptors.{
  device_table, config_table, lang_table, manufacturer_table, product_table, serial_table,
  device_len, config_len,
}
use ch32_tapioca.Usb.Device.{
  UsbCdc, Sdk, Setup, nak, standard, DescrKind, device, config, string, other_kind, get_descriptor,
  at, memcpy, whole,
}
use ch32_tapioca.Usb.Control.{status_stage, arm_setup, handle_setup, handle_ep0_in, ep0_in_code}
use ch32_tapioca.Usb.Requests.{
  descriptor_of, string_descriptor, stage, stage_at, stage_table, clamp, at_most_packet,
  is_standard, descriptor, get_descriptor_request, standard_request, class_request, low_byte,
}
use ch32_tapioca.Usb.Control.Copies.{read_run-append, read_run-ext, read_run-at}

-- The data of the packet that is armed at endpoint 0.
abbrev pub reply : UsbCdc → List ℕ
reply u = read_run u.ep0 0 u.tx_len0

-- The data of the packets that follow, one at each completion.
pub replies : Sdk → UsbCdc → ℕ → List ℕ
replies k u zero = []
replies k u (suc n) = let v = handle_ep0_in k u in reply v ++ replies k v n

pub stage-some :
    (u : UsbCdc) (d : ℕ → ℕ) (n : ℕ)
    → u.descr ≡ some d
    → ((stage u n).descr ≡ some (λ i. d (n + i))) × ((stage u n).ep0 ≡ memcpy u.ep0 d n)
unfolding stage stage_at
stage-some u d n e = (ap (λ o. (stage_at u n o).descr) e, ap (λ o. (stage_at u n o).ep0) e)

pub stage_setup :
    (u : UsbCdc) (n : ℕ) → ((stage u n).setup ≡ u.setup) × ((stage u n).setup_len ≡ u.setup_len)
unfolding stage
stage_setup u n = ground arith

pub memcpy-run : (e d : ℕ → ℕ) (n : ℕ) → read_run (memcpy e d n) 0 n ≡ read_run d 0 n
memcpy-run e d n = read_run-ext (memcpy e d n) d 0 0 n (λ i h. unfold memcpy in ground arith)

-- A transfer that has `m` bytes from `d` on left to send.
pub record IsSending (u : UsbCdc) (d : ℕ → ℕ) (m : ℕ) : Type 0 where
  pub is_standard_ : u.setup.type_of ≡ standard
  pub is_descriptor : u.setup.code ≡ get_descriptor
  pub cursor : u.descr ≡ some d
  pub left : u.setup_len ≡ m

status_stage-IsSending :
    (u : UsbCdc) (d : ℕ → ℕ) (m : ℕ) → IsSending u d m → IsSending (status_stage u) d m
unfolding status_stage
status_stage-IsSending u d m s = elim (Bool-cases (u.setup_len == 0)) [
  | inl done ↦ rw done (record {
    is_standard_ = s.is_standard_;
    is_descriptor = s.is_descriptor;
    cursor = s.cursor;
    left = s.left;
  })
  | inr more ↦ rw more s
]

next_packet :
    (k : Sdk) (u : UsbCdc) (d : ℕ → ℕ) (m : ℕ)
    → IsSending u d m
    → let len = at_most_packet m in
      let v = ep0_in_code k u get_descriptor in
      (reply v ≡ read_run d 0 len) × IsSending v (λ i. d (len + i)) (m - len)
next_packet k u d m s =
    let len = at_most_packet u.setup_len in
    let (moved, copied) = stage-some u d len s.cursor in
    let (same, kept) = stage_setup u len in
    let v = ep0_in_code k u get_descriptor in
    subst
      (λ n.
        (reply v ≡ read_run d 0 (at_most_packet n))
        × IsSending v (λ i. d (at_most_packet n + i)) (n - at_most_packet n))
      s.left
      (
        ap (λ e. read_run e 0 len) copied ∙ memcpy-run u.ep0 d len,
        record {
          is_standard_ = ap (λ (q : Setup). q.type_of) same ∙ s.is_standard_;
          is_descriptor = ap (λ (q : Setup). q.code) same ∙ s.is_descriptor;
          cursor = moved;
          left = refl;
        },
      )

handle_ep0_in-sends :
    (k : Sdk) (u : UsbCdc) (d : ℕ → ℕ) (m : ℕ)
    → IsSending u d m
    → let len = at_most_packet m in
      (reply (handle_ep0_in k u) ≡ read_run d 0 len)
      × IsSending (handle_ep0_in k u) (λ i. d (len + i)) (m - len)
unfolding handle_ep0_in status_stage
handle_ep0_in-sends k u d m s =
    let u0 = status_stage u in
    let P = λ (v : UsbCdc).
      (reply v ≡ read_run d 0 (at_most_packet m))
      × IsSending v (λ i. d (at_most_packet m + i)) (m - at_most_packet m) in
    subst (λ t. P (if is_standard t then ep0_in_code k u0 u.setup.code else u0))
      (sym s.is_standard_)
      (subst (λ c. P (ep0_in_code k u0 c)) (sym s.is_descriptor)
        (next_packet k u0 d m (status_stage-IsSending u d m s)))

replies-run :
    (k : Sdk) (n : ℕ) (u : UsbCdc) (d : ℕ → ℕ) (m : ℕ)
    → IsSending u d m
    → replies k u n ≡ read_run d 0 (min m (n * 64))
unfolding replies read_run
replies-run k zero u d m s = let nothing : min m (0 * 64) ≡ 0 = omega arith in rw nothing refl
replies-run k (suc n) u d m s =
    let len = at_most_packet m in
    let (packet, more) = handle_ep0_in-sends k u d m s in
    let rest = replies-run k n (handle_ep0_in k u) (λ i. d (len + i)) (m - len) more in
    let moved : read_run (λ i. d (len + i)) 0 (min (m - len) (n * 64))
        ≡ read_run d (0 + len) (min (m - len) (n * 64)) =
      read_run-ext (λ i. d (len + i)) d 0 (0 + len) (min (m - len) (n * 64))
        (λ i h. ap d (omega arith)) in
    let total : min m (suc n * 64) ≡ len + min (m - len) (n * 64) = ground arith in
    ap₂ ◌++◌ packet (rest ∙ moved)
    ∙ sym (read_run-append d 0 len (min (m - len) (n * 64)))
    ∙ ap (read_run d 0) (sym total)

-- The end of `handleSetup` for a request that asks for data.
pub arm_setup-reads :
    (u : UsbCdc)
    → u.setup.to_host ≡ true
    → let v = arm_setup u false in
      let len = at_most_packet u.setup_len in
      (v.setup ≡ u.setup)
      × (v.descr ≡ u.descr)
      × (v.ep0 ≡ u.ep0)
      × (v.setup_len ≡ u.setup_len - len)
      × (v.tx_len0 ≡ len)
unfolding arm_setup
arm_setup-reads u reads = ground arith

-- The first packet of a descriptor.
staged-sends :
    (u : UsbCdc) (d : ℕ → ℕ) (n : ℕ)
    → u.setup.to_host ≡ true
    → IsSending u d n
    → let len = at_most_packet n in
      let v = arm_setup (stage u len) false in
      (reply v ≡ read_run d 0 len) × IsSending v (λ i. d (len + i)) (n - len)
staged-sends u d n reads s =
    let len = at_most_packet n in
    let w = stage u len in
    let (moved, copied) = stage-some u d len s.cursor in
    let (same, kept) = stage_setup u len in
    let (setup_, descr_, ep0_, left_, tx) =
      arm_setup-reads w (ap (λ (q : Setup). q.to_host) same ∙ reads) in
    let whole_ : w.setup_len ≡ n = kept ∙ s.left in
    let all : (setup_ : ℕ) → setup_ ≡ n → at_most_packet setup_ ≡ len =
      λ k e. ap (λ (j : ℕ). at_most_packet j) e in
    (
      ap₂ (λ e j. read_run e 0 j) (ep0_ ∙ copied) (tx ∙ all w.setup_len whole_)
          ∙ memcpy-run u.ep0 d len,
      record {
        is_standard_ = ap (λ (q : Setup). q.type_of) (setup_ ∙ same) ∙ s.is_standard_;
        is_descriptor = ap (λ (q : Setup). q.code) (setup_ ∙ same) ∙ s.is_descriptor;
        cursor = descr_ ∙ moved;
        left = left_ ∙ ap₂ ◌-◌ whole_ (all w.setup_len whole_);
      },
    )

handle_setup-sends :
    (k : Sdk) (u : UsbCdc) (table : List ℕ) (len : ℕ)
    → let req = k.setup_of u.ep0 in
      req.to_host ≡ true
      → req.type_of ≡ standard
      → req.code ≡ get_descriptor
      → descriptor k req.value ≡ some (table, len)
      → let d = at table (k.past table) in
        let n = clamp req.len len in
        let v = handle_setup k u in
        (reply v ≡ read_run d 0 (at_most_packet n))
        × IsSending v (λ i. d (at_most_packet n + i)) (n - at_most_packet n)
unfolding handle_setup standard_request get_descriptor_request stage_table
handle_setup-sends k u table len reads std code_ found =
    let req = k.setup_of u.ep0 in
    let d = at table (k.past table) in
    let n = clamp req.len len in
    let u0 = record u {
      ctrl0 = whole nak nak true true;
      descr = none;
      setup = req;
      setup_len = req.len;
    } in
    let P = λ (r : UsbCdc × Bool).
      (reply (arm_setup r.0 r.1) ≡ read_run d 0 (at_most_packet n))
      × IsSending (arm_setup r.0 r.1) (λ i. d (at_most_packet n + i)) (n - at_most_packet n) in
    subst (λ t. P (if is_standard t then standard_request k u0 req.code else class_request k u0))
      (sym std)
      (subst (λ c. P (standard_request k u0 c)) (sym code_)
        (subst (λ o. P (stage_table k u0 o)) (sym found)
          (staged-sends (record u0 { descr = some d; setup_len = n }) d n reads
            (record { is_standard_ = std; is_descriptor = code_; cursor = refl; left = refl }))))

-- The length that the source takes for a descriptor is that of its table.
string-length :
    (i : ℕ) (table : List ℕ) (len : ℕ)
    → string_descriptor i ≡ some (table, len)
    → length table ≡ len
unfolding string_descriptor lang_table manufacturer_table product_table serial_table
string-length i table len found = ground arith

descriptor_of-length :
    (c : DescrKind) (i : ℕ) (table : List ℕ) (len : ℕ)
    → descriptor_of c i ≡ some (table, len)
    → length table ≡ len
unfolding descriptor_of device_len config_len device_table config_table
descriptor_of-length device i table len found = ground arith
descriptor_of-length config i table len found = ground arith
descriptor_of-length string i table len found = string-length i table len found
descriptor_of-length other_kind i table len found = cc

descriptor-length :
    (k : Sdk) (value : ℕ) (table : List ℕ) (len : ℕ)
    → descriptor k value ≡ some (table, len)
    → length table ≡ len
unfolding descriptor
descriptor-length k value table len found =
    descriptor_of-length (k.kind_of (value / 256)) (low_byte value) table len found

-- A standard read of a descriptor that the device has: the data of the first packet and of the `n` that follow, at the
-- completion of each, are together the start of its table, as much of it as the host asked for and as fits into `n + 1` packets
-- of 64 bytes. Nothing behind the table is sent, and with enough completions all that was asked for is.
pub handle_setup-descriptor :
    (k : Sdk) (u : UsbCdc) (table : List ℕ) (len n : ℕ)
    → let req = k.setup_of u.ep0 in
      req.to_host ≡ true
      → req.type_of ≡ standard
      → req.code ≡ get_descriptor
      → descriptor k req.value ≡ some (table, len)
      → reply (handle_setup k u) ++ replies k (handle_setup k u) n
        ≡ take (min (min req.len (suc n * 64)) (length table)) table
handle_setup-descriptor k u table len n reads std code_ found =
    let req = k.setup_of u.ep0 in
    let d = at table (k.past table) in
    let m = clamp req.len len in
    let first = at_most_packet m in
    let size_ = descriptor-length k req.value table len found in
    let (packet, sending) = handle_setup-sends k u table len reads std code_ found in
    let rest = replies-run k n (handle_setup k u) (λ i. d (first + i)) (m - first) sending in
    let moved : read_run (λ i. d (first + i)) 0 (min (m - first) (n * 64))
        ≡ read_run d (0 + first) (min (m - first) (n * 64)) =
      read_run-ext (λ i. d (first + i)) d 0 (0 + first) (min (m - first) (n * 64))
        (λ i h. ap d (omega arith)) in
    let total : first + min (m - first) (n * 64) ≡ min (min req.len (suc n * 64)) (length table) =
      ground (arith, size_) in
    ap₂ ◌++◌ packet (rest ∙ moved)
    ∙ sym (read_run-append d 0 first (min (m - first) (n * 64)))
    ∙ ap (read_run d 0) total
    ∙ read_run-at table (k.past table) (min (min req.len (suc n * 64)) (length table)) (omega arith)
