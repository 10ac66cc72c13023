-- ===== src/Usb/Bulk/Packets.antt =====
-- src/usb/usb_cdc.cpp: which steps put a packet at endpoint 3, and what it is.
use ch32_tapioca.Prelude.{
  subst, if-elim, ℕ, ◌≤◌, ◌<◌, ◌≡◌, ◌∙◌, sym, ap, refl, arith, Bool, true, false, not, ◌&&◌, ◌||◌,
  List, ◌++◌, ltb, leb, ◌==◌, if◌then◌else◌, length, Bool-cases, inl, inr, ◌⊎◌, length-take,
  take-append-drop,
}
use ch32_tapioca.Prelude.Words.{sub32}
use ch32_tapioca.Ring.{size, pop}
use ch32_tapioca.Ring.Queue.{IsValid, contents, pop_lem, length-contents}
use ch32_tapioca.Usb.Descriptors.{packet}
use ch32_tapioca.Usb.Device.{UsbCdc, Sdk, tx_capacity, partial_flush_ms}
use ch32_tapioca.Usb.Control.Frame.{
  Frame, handle_setup-Frame, handle_ep0_in-Frame, handle_ep0_out-Frame,
}
use ch32_tapioca.Usb.Bulk.{
  Status, Token, token_in, token_out, token_setup, token_sof, on_irq, poll_flags, transfer, out_at,
  dispatch, ep2_received, reopen_ep2, coalesce, coalesce_free, hold, next_packet, arm_ep3_from_tx,
  arm_ep3, ep3_done,
}

abbrev pub queue : UsbCdc → List ℕ
queue u = contents tx_capacity u.tx

-- The front of the queue is now the packet at endpoint 3.
abbrev pub Sends : UsbCdc → UsbCdc → Type 0
Sends u v =
    (queue u ≡ v.ep3 ++ queue v)
    × IsValid tx_capacity v.tx
    × (v.ep3_busy ≡ true)
    × (v.tx_len3 ≡ length v.ep3)
    × (0 < length v.ep3)
    × (length v.ep3 ≤ packet)
    × (v.tx.head ≡ u.tx.head)

-- Nothing is armed, if there is nothing, or less than a packet where a short one is not allowed; else the front of the
-- queue is, and it is a full packet if a short one is not allowed.
pub arm_ep3_from_tx_lem :
    (u : UsbCdc) (short : Bool)
    → IsValid tx_capacity u.tx
    → let (armed, v) = arm_ep3_from_tx u short in
      ((armed ≡ false) × (v ≡ u) × ((size u.tx ≡ 0) ⊎ ((size u.tx < packet) × (short ≡ false))))
      ⊎ ((armed ≡ true) × Sends u v × ((short ≡ false) → length v.ep3 ≡ packet))
unfolding arm_ep3_from_tx arm_ep3
arm_ep3_from_tx_lem u short valid =
    let n = size u.tx in
    let m = if ltb packet n then packet else n in
    let (items, left, still, same) = pop_lem tx_capacity valid (inl refl) m in
    let split = take-append-drop m (queue u) in
    let count = length-take m (queue u) in
    let len = length-contents tx_capacity u.tx in
    elim (Bool-cases (n == 0)) [
      | inl empty ↦ rw empty (inl (refl, refl, inl (ground arith)))
      | inr some_ ↦ elim (Bool-cases (ltb n packet && not short)) [
        | inl hold ↦ rw (some_, hold) (inl (refl, refl, inr (ground arith, ground arith)))
        | inr go ↦
            let fits : m ≤ n = ground arith in
            let small : m ≤ packet = ground arith in
            let positive : 0 < m = ground arith in
            let full : (short ≡ false) → m ≡ packet = λ no_short. ground arith in
            let taken : length (pop tx_capacity u.tx m).0 ≡ m =
              ap length items ∙ count ∙ omega (arith, fits, len) in
            rw (some_, go)
              (inr (
                refl,
                (
                  rw (items, left) (sym split),
                  still,
                  refl,
                  omega (arith, taken, small),
                  omega (arith, taken, positive),
                  omega (arith, taken, small),
                  same,
                ),
                λ no_short. taken ∙ full no_short,
              ))
      ]
    ]

-- The queue, the packet at endpoint 3 and its length stay, and the endpoint is not busier.
pub record Rests (u v : UsbCdc) : Type 0 where
  pub same_tx : v.tx ≡ u.tx
  pub same_ep3 : v.ep3 ≡ u.ep3
  pub same_reset : v.fg_bus_rst ≡ u.fg_bus_rst
  pub no_busier : v.ep3_busy ≡ true → u.ep3_busy ≡ true

Frame-Rests : (u v : UsbCdc) → Frame u v → Rests u v
Frame-Rests u v f = record {
  same_tx = f.same_tx;
  same_ep3 = f.same_ep3;
  same_reset = f.same_reset;
  no_busier = λ p. sym f.same_busy ∙ p;
}

transfer-Rests : (k : Sdk) (u : UsbCdc) (s : Status) (t : Token) → Rests u (transfer k u s t)
unfolding transfer out_at
transfer-Rests k u s token_in = elim (Bool-cases (s.endp == 0)) [
  | inl control ↦ rw control (Frame-Rests u _ (handle_ep0_in-Frame k u))
  | inr other ↦ rw other (ground arith)
]
transfer-Rests k u s token_out = elim (Bool-cases (s.endp == 0)) [
  | inl control ↦ elim (Bool-cases s.tog_ok) [
    | inl fine ↦ rw (control, fine) (Frame-Rests u _ (handle_ep0_out-Frame u))
    | inr stale ↦ rw (control, stale) (ground arith)
  ]
  | inr other ↦ rw other (unfold ep2_received in ground arith)
]
transfer-Rests k u s token_setup = Frame-Rests u _ (handle_setup-Frame k u)
transfer-Rests k u s token_sof = ground arith

dispatch-Rests :
    (k : Sdk) (u : UsbCdc) (s : Status) (t z : Bool) → Rests u (dispatch k u s t false z)
unfolding dispatch
dispatch-Rests k u s true z =
    let r = transfer-Rests k u s s.token in
    record {
      same_tx = r.same_tx;
      same_ep3 = r.same_ep3;
      same_reset = r.same_reset;
      no_busier = r.no_busier;
    }
dispatch-Rests k u s false true = ground arith
dispatch-Rests k u s false false = ground arith

pub on_irq-Rests :
    (k : Sdk) (u : UsbCdc) (s : Status) → u.fg_bus_rst ≡ false → Rests u (on_irq k u s)
unfolding on_irq
on_irq-Rests k u s calm =
    subst (λ b. Rests u (dispatch k u s u.fg_transfer b u.fg_suspend)) (sym calm)
      (dispatch-Rests k u s u.fg_transfer u.fg_suspend)

pub poll_flags-Rests :
    (k : Sdk) (u : UsbCdc) (s : Status) → u.fg_bus_rst ≡ false → Rests u (poll_flags k u s)
unfolding poll_flags
poll_flags-Rests k u s calm = elim (Bool-cases (u.fg_transfer || u.fg_bus_rst || u.fg_suspend)) [
  | inl some_ ↦ rw some_ (on_irq-Rests k u s calm)
  | inr quiet ↦ rw quiet (ground arith)
]

pub reopen_ep2-Rests : (u : UsbCdc) → Rests u (reopen_ep2 u)
unfolding reopen_ep2
reopen_ep2-Rests u = ground arith

-- Either nothing moves, or endpoint 3 was free and the front of the queue is its packet.
abbrev pub Advances : UsbCdc → UsbCdc → Type 0
Advances u v =
    ((v.tx ≡ u.tx) × (v.ep3 ≡ u.ep3) × (v.ep3_busy ≡ u.ep3_busy))
    ⊎ ((u.ep3_busy ≡ false) × Sends u v)

arm_ep3_from_tx-Advances :
    (u : UsbCdc) (short : Bool)
    → u.ep3_busy ≡ false
    → IsValid tx_capacity u.tx
    → Advances u (arm_ep3_from_tx u short).1
arm_ep3_from_tx-Advances u short free_ valid = elim (arm_ep3_from_tx_lem u short valid) [
  | inl (idle, same, why) ↦ rw same (inl (refl, refl, refl))
  | inr (armed, sends, full) ↦ inr (free_, sends)
]

coalesce_free-Advances :
    (u : UsbCdc) (now_ms : ℕ)
    → u.ep3_busy ≡ false
    → IsValid tx_capacity u.tx
    → Advances u (coalesce_free u now_ms)
unfolding coalesce_free
coalesce_free-Advances u now_ms idle valid = elim (Bool-cases (leb packet (size u.tx))) [
  | inl many ↦
      rw many (arm_ep3_from_tx-Advances (record u { partial_pending = false }) false idle valid)
  | inr few ↦ elim (Bool-cases (size u.tx == 0)) [
    | inl none_ ↦ rw (few, none_) (inl (refl, refl, refl))
    | inr some_ ↦
        elim (Bool-cases (leb partial_flush_ms (sub32 now_ms (hold u now_ms).partial_since_ms))) [
          | inl due ↦
              rw (few, some_, due)
                (arm_ep3_from_tx-Advances (record (hold u now_ms) { partial_pending = false }) true
                  idle valid)
          | inr early ↦ rw (few, some_, early) (inl (refl, refl, refl))
        ]
  ]
]

pub coalesce-Advances :
    (u : UsbCdc) (now_ms : ℕ) → IsValid tx_capacity u.tx → Advances u (coalesce u now_ms)
unfolding coalesce
coalesce-Advances u now_ms valid =
    if-elim (λ (v : UsbCdc). Advances u v) u.ep3_busy u (coalesce_free u now_ms)
      (λ busy. inl (refl, refl, refl)) (λ idle. coalesce_free-Advances u now_ms idle valid)

pub next_packet-Advances :
    (u : UsbCdc) → IsValid tx_capacity u.tx → Advances (ep3_done u) (next_packet u)
unfolding next_packet
next_packet-Advances u valid =
    let v = record (ep3_done u) { fg_transfer = false } in
    let w = (arm_ep3_from_tx v false).1 in
    if-elim (λ (x : UsbCdc). Advances (ep3_done u) x) (arm_ep3_from_tx v false).0
      (record w { partial_pending = false }) w
      (λ armed. arm_ep3_from_tx-Advances v false refl valid)
      (λ idle. arm_ep3_from_tx-Advances v false refl valid)
