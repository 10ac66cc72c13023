-- ===== src/Firmware/Poll.antt =====
-- src/main_sniffer.cpp: `unifiedPollCommand` against the selector of Selector.antt.
use ch32_tapioca.Prelude.{
  ℕ, zero, suc, ◌+◌, ◌≤◌, ◌<◌, ◌≡◌, ◌∙◌, sym, ap, subst, refl, arith, true, false, not, ◌&&◌, List,
  [], ◌∷◌, ◌++◌, ltb, ◌==◌, length, get_or, append_assoc, append-nil, take, drop, length-take,
  length-drop, ◌⊎◌, length-append, Bool-cases, inl, inr,
}
use ch32_tapioca.Mode.{CaptureMode, rle, clocked, parse}
use ch32_tapioca.Selector.{
  Selector, line_capacity, is_newline, same_mode, take_byte, poll_command, poll_command-append,
}
use ch32_tapioca.Selector
use ch32_tapioca.Ring.{size}
use ch32_tapioca.Ring.Queue.{IsValid, contents, pop_lem, length-contents}
use ch32_tapioca.Usb.Device.{rx_capacity, available, read}
use ch32_tapioca.Firmware.{Surroundings, Firmware, switch_to, begin_other}
use ch32_tapioca.Firmware.Console.{Console, run_line, accept, reads, poll_round, poll, view}

switch_to-mode : (w : Surroundings) (f : Firmware) (m : CaptureMode) → (switch_to w f m).mode ≡ m
unfolding switch_to begin_other
switch_to-mode w f rle = refl
switch_to-mode w f clocked = refl

run_line-view :
    (around : ℕ → Surroundings) (c : Console)
    → view (run_line around c) ≡ Selector.run_line (view c) c.line
unfolding run_line Selector.run_line
run_line-view around c =
    let p = parse c.line in
    elim (Bool-cases (p.valid && not (same_mode p.mode c.firmware.mode))) [
      | inl go ↦ rw go (
          ap (λ m. record { mode = m; line = c.line; switches = c.switches ++ p.mode ∷ [] })
            (switch_to-mode (around (length c.switches)) c.firmware p.mode))
      | inr stay ↦ rw stay refl
    ]

accept-view :
    (around : ℕ → Surroundings) (c : Console) (b : ℕ)
    → view (accept around c b) ≡ take_byte (view c) b
unfolding accept take_byte
accept-view around c b = elim (Bool-cases (is_newline b)) [
  | inl newline ↦ elim (Bool-cases (not (length c.line == 0))) [
    | inl some_ ↦
        rw (newline, some_) (ap (λ (s : Selector). record s { line = [] }) (run_line-view around c))
    | inr empty ↦ rw (newline, empty) refl
  ]
  | inr text ↦ elim (Bool-cases (ltb (length c.line) line_capacity)) [
    | inl room ↦ rw (text, room) refl
    | inr long ↦ rw (text, long) refl
  ]
]

run_line-keeps :
    (around : ℕ → Surroundings) (c : Console)
    → let d = run_line around c in
      (d.taken ≡ c.taken)
      × (length c.switches ≤ length d.switches)
      × (length d.switches ≡ length c.switches → d.firmware ≡ c.firmware)
unfolding run_line
run_line-keeps around c =
    let p = parse c.line in
    elim (Bool-cases (p.valid && not (same_mode p.mode c.firmware.mode))) [
      | inl go ↦
          let more = length-append c.switches (p.mode ∷ []) in
          rw go (refl, omega (arith, more), λ same. absurd (omega (arith, more, same)))
      | inr stay ↦ rw stay (refl, omega arith, λ same. refl)
    ]

-- A byte that starts no switch leaves the device alone.
accept-keeps :
    (around : ℕ → Surroundings) (c : Console) (b : ℕ)
    → let d = accept around c b in
      (d.taken ≡ c.taken)
      × (length c.switches ≤ length d.switches)
      × (length d.switches ≡ length c.switches → d.firmware ≡ c.firmware)
unfolding accept
accept-keeps around c b = elim (Bool-cases (is_newline b)) [
  | inl newline ↦ elim (Bool-cases (not (length c.line == 0))) [
    | inl some_ ↦ rw (newline, some_) (run_line-keeps around c)
    | inr empty ↦ rw (newline, empty) (refl, omega arith, λ same. refl)
  ]
  | inr text ↦ elim (Bool-cases (ltb (length c.line) line_capacity)) [
    | inl room ↦ rw (text, room) (refl, omega arith, λ same. refl)
    | inr long ↦ rw (text, long) (refl, omega arith, λ same. refl)
  ]
]

-- The console sees of the bytes taken since `c` what the selector does.
abbrev Follows : Console → Console → Type 0
Follows c d =
    (bs : List ℕ) × (d.taken ≡ c.taken ++ bs)
    × (poll_command (view c) bs ≡ view d)
    × (length c.switches ≤ length d.switches)

poll_round-Follows : (around : ℕ → Surroundings) (c : Console) → Follows c (poll_round around c)
unfolding poll_round poll_command
poll_round-Follows around c =
    let (bytes, u) = read c.firmware.usb 1 in
    let b = get_or bytes 0 0 in
    let e : Console = record c {
      firmware = record (c.firmware) { usb = u };
      taken = c.taken ++ b ∷ [];
    } in
    let (taken_, more, kept) = accept-keeps around e b in
    (b ∷ [], taken_, sym (accept-view around e b), more)

Follows-trans : (c d e : Console) → Follows c d → Follows d e → Follows c e
Follows-trans c d e (xs, taken1, same1, more1) (ys, taken2, same2, more2) = (
  xs ++ ys,
  taken2 ∙ ap (λ l. l ++ ys) taken1 ∙ append_assoc c.taken xs ys,
  poll_command-append (view c) xs ys ∙ ap (λ s. poll_command s ys) same1 ∙ same2,
  omega (arith, more1, more2),
)

poll-Follows : (around : ℕ → Surroundings) (n : ℕ) (c : Console) → Follows c (poll around n c)
unfolding poll poll_command
poll-Follows around zero c = ([], sym (append-nil c.taken), refl, omega arith)
poll-Follows around (suc n) c = elim (Bool-cases (reads c)) [
  | inl go ↦
      let d = poll_round around c in
      rw (poll, go)
        (Follows-trans c d (poll around n d) (poll_round-Follows around c)
          (poll-Follows around n d))
  | inr stop ↦ rw (poll, stop) ([], sym (append-nil c.taken), refl, omega arith)
]

abbrev received : Console → List ℕ
received c = contents rx_capacity c.firmware.usb.rx

front : (xs : List ℕ) → 0 < length xs → get_or (take 1 xs) 0 0 ∷ drop 1 xs ≡ xs
front [] some_ = absurd (omega arith)
front (x ∷ []) some_ = refl
front (x ∷ (y ∷ xs)) some_ = refl

no_length : (xs : List ℕ) → length xs ≡ 0 → xs ≡ []
no_length [] none_ = refl
no_length (x ∷ xs) none_ = absurd (omega arith)

-- While there is a byte the loop goes on.
reads-size :
    (c : Console)
    → IsValid rx_capacity c.firmware.usb.rx
    → ((reads c ≡ true) × (0 < size c.firmware.usb.rx))
      ⊎ ((reads c ≡ false) × (size c.firmware.usb.rx ≡ 0))
unfolding reads available read
reads-size c valid =
    let rx = c.firmware.usb.rx in
    let (front_, rest, still, same) = pop_lem rx_capacity valid (inl refl) 1 in
    let count = ap length front_ ∙ length-take 1 (contents rx_capacity rx) in
    let whole = length-contents rx_capacity rx in
    elim (Bool-cases (size rx == 0)) [
      | inl empty ↦ inr (ground (arith, empty), ground (arith, empty))
      | inr some_ ↦ inl (ground (arith, count, whole, some_), ground (arith, some_))
    ]

poll_round-conserves :
    (around : ℕ → Surroundings) (c : Console)
    → IsValid rx_capacity c.firmware.usb.rx
    → 0 < size c.firmware.usb.rx
    → let d = poll_round around c in
      length d.switches ≡ length c.switches
      → (d.taken ++ received d ≡ c.taken ++ received c)
        × IsValid rx_capacity d.firmware.usb.rx
        × (size d.firmware.usb.rx + 1 ≡ size c.firmware.usb.rx)
unfolding poll_round read
poll_round-conserves around c valid some_ same =
    let rx = c.firmware.usb.rx in
    let (bytes, u) = read c.firmware.usb 1 in
    let b = get_or bytes 0 0 in
    let e : Console = record c {
      firmware = record (c.firmware) { usb = u };
      taken = c.taken ++ b ∷ [];
    } in
    let d = accept around e b in
    let (front_, rest, still, head_) = pop_lem rx_capacity valid (inl refl) 1 in
    let whole = length-contents rx_capacity rx in
    let (taken_, more, kept) = accept-keeps around e b in
    let stays : d.firmware.usb.rx ≡ u.rx = ap (λ (f : Firmware). f.usb.rx) (kept same) in
    let left = ap (contents rx_capacity) stays ∙ rest in
    (
      ap (λ l. l ++ received d) taken_
          ∙ append_assoc c.taken (b ∷ []) (received d)
          ∙ ap (λ l. c.taken ++ l)
              (ap (λ l. b ∷ l) left
                ∙ ap (λ l. get_or l 0 0 ∷ drop 1 (received c)) front_
                ∙ front (received c) (omega (arith, whole, some_))),
      subst (IsValid rx_capacity) (sym stays) still,
      omega (
        arith,
        ap length left,
        length-drop 1 (received c),
        length-contents rx_capacity d.firmware.usb.rx,
        whole,
        some_,
      ),
    )

poll-conserves :
    (around : ℕ → Surroundings) (n : ℕ) (c : Console)
    → IsValid rx_capacity c.firmware.usb.rx
    → let d = poll around n c in
      length d.switches ≡ length c.switches
      → (d.taken ++ received d ≡ c.taken ++ received c)
        × (size c.firmware.usb.rx ≤ n → received d ≡ [])
unfolding poll
poll-conserves around zero c valid = λ same. (
  refl,
  λ few. no_length (received c) (omega (arith, length-contents rx_capacity c.firmware.usb.rx, few)),
)
poll-conserves around (suc n) c valid = elim (reads-size c valid) [
  | inl (go, some_) ↦
      let d = poll_round around c in
      let (bs, taken_, view_, more) = poll_round-Follows around c in
      let (bs', taken', view', more') = poll-Follows around n d in
      rw (poll, go)
        (λ same.
          let still : length d.switches ≡ length c.switches = omega (arith, more, more', same) in
          let (kept, valid', less) = poll_round-conserves around c valid some_ still in
          let (kept', done) = poll-conserves around n d valid' (same ∙ sym still) in
          (kept' ∙ kept, λ few. done (omega (arith, few, less))))
  | inr (stop, empty) ↦
      rw (poll, stop)
        (λ same. (
          refl,
          λ few. no_length (received c) (length-contents rx_capacity c.firmware.usb.rx ∙ empty),
        ))
]

-- The poll runs the selector on the bytes that it reads, and makes the same switches with the same lines: the mode, the line
-- and the switches are those of the selector. If there is no switch, the bytes read are the front of what had been received, in order,
-- and where the fuel is as many bytes as are there, all of it is read. This is for a valid receive ring and a poll that
-- begins with no byte read.
pub poll_lem :
    (around : ℕ → Surroundings) (n : ℕ) (c : Console)
    → IsValid rx_capacity c.firmware.usb.rx
    → c.taken ≡ []
    → let d = poll around n c in
      (poll_command (view c) d.taken ≡ view d)
      × (d.switches ≡ c.switches
          → (d.taken ++ contents rx_capacity d.firmware.usb.rx
              ≡ contents rx_capacity c.firmware.usb.rx)
            × (size c.firmware.usb.rx ≤ n → contents rx_capacity d.firmware.usb.rx ≡ []))
poll_lem around n c valid none_ =
    let d = poll around n c in
    let (bs, taken_, same, more) = poll-Follows around n c in
    (
      ap (poll_command (view c)) (taken_ ∙ ap (λ l. l ++ bs) none_) ∙ same,
      λ quiet.
          let (kept, done) = poll-conserves around n c valid (ap length quiet) in
          (kept ∙ ap (λ l. l ++ received c) none_, done),
    )
