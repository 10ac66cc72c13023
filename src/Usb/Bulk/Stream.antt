-- ===== src/Usb/Bulk/Stream.antt =====
-- src/usb/usb_cdc.cpp: the stream of bytes to the host, from the writers to the packets of endpoint 3.
use ch32_tapioca.Prelude.{
  subst, ap₂, ℕ, ◌-◌, ◌≤◌, ◌≡◌, ◌∙◌, sym, ap, refl, Bool, true, false, not, ◌&&◌, List, [], ◌++◌,
  if◌then◌else◌, length, take, inl, inr, take-min, append_assoc, append-nil,
}
use ch32_tapioca.Ring.{size, push}
use ch32_tapioca.Ring.Queue.{IsValid, contents, push_lem}
use ch32_tapioca.Ring.Contiguous.{write_commit_lem}
use ch32_tapioca.Usb.Device.{UsbCdc, Sdk, tx_capacity, write, tx_reserve, tx_commit}
use ch32_tapioca.Usb.Bulk.{
  Status, on_irq, poll_flags, tick, reopen_ep2, coalesce, pump, pump_case, next_packet, ep3_done,
  is_ep3_in,
}
use ch32_tapioca.Usb.Bulk.Packets.{
  queue, Advances, Rests, on_irq-Rests, poll_flags-Rests, reopen_ep2-Rests, coalesce-Advances,
  next_packet-Advances,
}

-- The bytes that a step puts at endpoint 3, if it was free.
abbrev pub sent : UsbCdc → UsbCdc → List ℕ
sent u v = if not u.ep3_busy && v.ep3_busy then v.ep3 else []

-- The state in which `pump` finds endpoint 3, for its two tests.
abbrev pub completed_case : UsbCdc → Bool → Bool → UsbCdc
completed_case u false _ = u
completed_case u true false = u
completed_case u true true = ep3_done u

abbrev pub completed : UsbCdc → Status → UsbCdc
completed u s = completed_case u u.fg_transfer (is_ep3_in s)

-- What happens between two bus resets. `Runs k u w p v` goes from `u` to `v`, with the bytes `w` written and the bytes `p` put
-- into packets, each in order. The peripheral may raise flags and fill the buffer of endpoint 0 at any time.
pub data Runs (k : Sdk) (u : UsbCdc) : List ℕ → List ℕ → UsbCdc → Type 0 where
  here : Runs k u [] [] u
  write_step :
      {w p : List ℕ} {v : UsbCdc} (bytes : List ℕ)
      → Runs k u w p v
      → Runs k u (w ++ take (write v bytes).0 bytes) p (write v bytes).1
  commit_step :
      {w p : List ℕ} {v : UsbCdc} (bytes : List ℕ)
      → length bytes ≤ tx_reserve v
      → Runs k u w p v
      → Runs k u (w ++ bytes) p (tx_commit v bytes)
  tick_step :
      {w p : List ℕ} {v : UsbCdc} (s : Status) (now_ms : ℕ)
      → v.fg_bus_rst ≡ false
      → Runs k u w p v
      → Runs k u w
          (p ++ sent (reopen_ep2 (poll_flags k v s)) (tick k v s now_ms))
          (tick k v s now_ms)
  pump_step :
      {w p : List ℕ} {v : UsbCdc} (s : Status)
      → v.fg_bus_rst ≡ false
      → Runs k u w p v
      → Runs k u w (p ++ sent (completed v s) (pump k v s)) (pump k v s)
  signal_step :
      {w p : List ℕ} {v : UsbCdc} (ep0 : ℕ → ℕ) (transfer suspend : Bool)
      → Runs k u w p v
      → Runs k u w p (record v { ep0 = ep0; fg_transfer = transfer; fg_suspend = suspend })

abbrev Accounts : UsbCdc → UsbCdc → Type 0
Accounts u v = (queue u ≡ sent u v ++ queue v) × IsValid tx_capacity v.tx

quiet-Accounts :
    (u v : UsbCdc)
    → IsValid tx_capacity u.tx
    → v.tx ≡ u.tx
    → (not u.ep3_busy && v.ep3_busy) ≡ false
    → Accounts u v
quiet-Accounts u v valid tx quiet =
    rw quiet (ap (contents tx_capacity) (sym tx), subst (IsValid tx_capacity) (sym tx) valid)

no_rise : (a b : Bool) → (b ≡ true → a ≡ true) → (not a && b) ≡ false
no_rise true b h = refl
no_rise false true h = sym (h refl)
no_rise false false h = refl

Advances-Accounts : (u v : UsbCdc) → IsValid tx_capacity u.tx → Advances u v → Accounts u v
Advances-Accounts u v valid (inl (tx, ep3, busy)) =
    quiet-Accounts u v valid tx (no_rise u.ep3_busy v.ep3_busy (λ p. sym busy ∙ p))
Advances-Accounts u v valid (inr (idle, sends)) =
    let (split, still, busy, len, positive, small, head) = sends in
    let rise : (not u.ep3_busy && v.ep3_busy) ≡ true = ap₂ (λ a b. not a && b) idle busy in
    rw rise (split, still)

Rests-Accounts : (u v : UsbCdc) → IsValid tx_capacity u.tx → Rests u v → Accounts u v
Rests-Accounts u v valid r =
    quiet-Accounts u v valid r.same_tx (no_rise u.ep3_busy v.ep3_busy r.no_busier)

pump_case-Accounts :
    (k : Sdk) (u : UsbCdc) (s : Status) (t e : Bool)
    → u.fg_bus_rst ≡ false
    → IsValid tx_capacity u.tx
    → Accounts (completed_case u t e) (pump_case k u s t e)
unfolding pump_case
pump_case-Accounts k u s false e calm valid =
    quiet-Accounts u u valid refl (no_rise u.ep3_busy u.ep3_busy (λ p. p))
pump_case-Accounts k u s true false calm valid =
    Rests-Accounts u (on_irq k u s) valid (on_irq-Rests k u s calm)
pump_case-Accounts k u s true true calm valid =
    Advances-Accounts (ep3_done u) (next_packet u) valid (next_packet-Advances u valid)

pump-Accounts :
    (k : Sdk) (u : UsbCdc) (s : Status)
    → u.fg_bus_rst ≡ false
    → IsValid tx_capacity u.tx
    → Accounts (completed u s) (pump k u s)
unfolding pump
pump-Accounts k u s calm valid = pump_case-Accounts k u s u.fg_transfer (is_ep3_in s) calm valid

completed-queue : (u : UsbCdc) (t e : Bool) → queue (completed_case u t e) ≡ queue u
completed-queue u false e = refl
completed-queue u true false = refl
completed-queue u true true = refl

tick-Accounts :
    (k : Sdk) (u : UsbCdc) (s : Status) (now_ms : ℕ)
    → u.fg_bus_rst ≡ false
    → IsValid tx_capacity u.tx
    → Accounts (reopen_ep2 (poll_flags k u s)) (tick k u s now_ms)
      × ((reopen_ep2 (poll_flags k u s)).tx ≡ u.tx)
unfolding tick
tick-Accounts k u s now_ms calm valid =
    let polled = poll_flags k u s in
    let open_ = reopen_ep2 polled in
    let same = (reopen_ep2-Rests polled).same_tx ∙ (poll_flags-Rests k u s calm).same_tx in
    let still = subst (IsValid tx_capacity) (sym same) valid in
    let r =
      Advances-Accounts open_ (coalesce open_ now_ms) still
        (coalesce-Advances open_ now_ms still) in
    ((r.0, r.1), same)

-- `total` is `q ++ w`, what waited and what was written.
sent_more : (total p a b x : List ℕ) → total ≡ p ++ a → a ≡ x ++ b → total ≡ (p ++ x) ++ b
sent_more total p a b x e f = e ∙ ap (λ l. p ++ l) f ∙ sym (append_assoc p x b)

written_more : (q w p a b x : List ℕ) → q ++ w ≡ p ++ a → b ≡ a ++ x → q ++ (w ++ x) ≡ p ++ b
written_more q w p a b x e f =
    sym (append_assoc q w x) ∙ ap (λ l. l ++ x) e ∙ append_assoc p a x ∙ ap (λ l. p ++ l) (sym f)

commit-queue :
    (u : UsbCdc) (bytes : List ℕ)
    → IsValid tx_capacity u.tx
    → length bytes ≤ tx_reserve u
    → (queue (tx_commit u bytes) ≡ queue u ++ bytes) × IsValid tx_capacity (tx_commit u bytes).tx
unfolding tx_commit tx_reserve
commit-queue u bytes valid fits = write_commit_lem tx_capacity valid (inl refl) bytes fits

write-queue :
    (u : UsbCdc) (bytes : List ℕ)
    → IsValid tx_capacity u.tx
    → let (n, v) = write u bytes in (queue v ≡ queue u ++ take n bytes) × IsValid tx_capacity v.tx
unfolding write
write-queue u bytes valid =
    let (count, appended, still, same) = push_lem tx_capacity valid (inl refl) bytes in
    let part : take (push tx_capacity u.tx bytes).0 bytes ≡ take (tx_capacity - size u.tx) bytes =
      ap (λ n. take n bytes) count ∙ take-min (tx_capacity - size u.tx) bytes in
    (appended ∙ ap (λ l. queue u ++ l) (sym part), still)

-- Between two bus resets no byte of the stream is lost, repeated or moved: the bytes that were waiting and the bytes written
-- since are, in order, the bytes put into packets and the bytes that wait. The ring stays valid.
pub Runs-stream :
    (k : Sdk) (u : UsbCdc) {w p : List ℕ} {v : UsbCdc}
    → IsValid tx_capacity u.tx
    → Runs k u w p v
    → (contents tx_capacity u.tx ++ w ≡ p ++ contents tx_capacity v.tx) × IsValid tx_capacity v.tx
Runs-stream k u valid here = (append-nil (queue u), valid)
Runs-stream k u valid (write_step {w} {p} {v} bytes r) =
    let (e, ok) = Runs-stream k u valid r in
    let (more, still) = write-queue v bytes ok in
    let next = (write v bytes).1 in
    (written_more (queue u) w p (queue v) (queue next) (take (write v bytes).0 bytes) e more, still)
Runs-stream k u valid (commit_step {w} {p} {v} bytes fits r) =
    let (e, ok) = Runs-stream k u valid r in
    let (more, still) = commit-queue v bytes ok fits in
    (written_more (queue u) w p (queue v) (queue (tx_commit v bytes)) bytes e more, still)
Runs-stream k u valid (tick_step {w} {p} {v} s now_ms calm r) =
    let (e, ok) = Runs-stream k u valid r in
    let (acc, same) = tick-Accounts k v s now_ms calm ok in
    let before = reopen_ep2 (poll_flags k v s) in
    let next = tick k v s now_ms in
    (
      sent_more (queue u ++ w) p (queue v) (queue next) (sent before next) e
          (ap (contents tx_capacity) (sym same) ∙ acc.0),
      acc.1,
    )
Runs-stream k u valid (pump_step {w} {p} {v} s calm r) =
    let (e, ok) = Runs-stream k u valid r in
    let (more, still) = pump-Accounts k v s calm ok in
    let before = completed v s in
    let next = pump k v s in
    (
      sent_more (queue u ++ w) p (queue v) (queue next) (sent before next) e
          (sym (completed-queue v v.fg_transfer (is_ep3_in s)) ∙ more),
      still,
    )
Runs-stream k u valid (signal_step ep0 t z r) = Runs-stream k u valid r
