-- ===== src/Usb/Bulk/Pump.antt =====
-- src/usb/usb_cdc.cpp: `pump` between the reservation of space in the stream and its commit.
use ch32_tapioca.Prelude.{
  ℕ, zero, suc, [], ◌||◌, ◌≤◌, ◌≡◌, ◌∙◌, sym, ap, subst, refl, arith, Bool, true, false, List, ◌++◌,
  length, length-append, inl, inr,
}
use ch32_tapioca.Ring.{Ring, size, index, free_contig}
use ch32_tapioca.Ring.Queue.{IsValid, length-contents, free_lem}
use ch32_tapioca.Usb.Device.{UsbCdc, Sdk, tx_capacity, tx_reserve}
use ch32_tapioca.Usb.Bulk.{
  Status, pump, pump_case, next_packet, arm_ep3_from_tx, arm_ep3, ep3_done, is_ep3_in,
}
use ch32_tapioca.Usb.Bulk.Stream.{Runs, sent, completed}
use ch32_tapioca.Usb.Bulk.Packets.{queue, Advances, on_irq-Rests, next_packet-Advances}

-- The write cursor stays, nothing is added to the queue, and there is no bus reset.
pub record Drains (u v : UsbCdc) : Type 0 where
  pub same_head : v.tx.head ≡ u.tx.head
  pub no_more : size v.tx ≤ size u.tx
  pub calm : v.fg_bus_rst ≡ false
  pub valid : IsValid tx_capacity v.tx

Advances-drains : (u v : UsbCdc) → Advances u v → (v.tx.head ≡ u.tx.head) × (size v.tx ≤ size u.tx)
Advances-drains u v (inl (tx, ep3, busy)) =
    (ap (λ (r : Ring ℕ). r.head) tx, omega (arith, ap size tx))
Advances-drains u v (inr (idle, sends)) =
    let (cut, still, busy, len, positive, small, head) = sends in
    (
      head,
      omega (
        arith,
        ap length cut,
        length-append v.ep3 (queue v),
        length-contents tx_capacity u.tx,
        length-contents tx_capacity v.tx,
      ),
    )

Advances-IsValid :
    (u v : UsbCdc) → IsValid tx_capacity u.tx → Advances u v → IsValid tx_capacity v.tx
Advances-IsValid u v valid (inl (tx, ep3, busy)) = subst (IsValid tx_capacity) (sym tx) valid
Advances-IsValid u v valid (inr (idle, sends)) = sends.1

next_packet-calm : (u : UsbCdc) → (next_packet u).fg_bus_rst ≡ u.fg_bus_rst
unfolding next_packet arm_ep3_from_tx arm_ep3
next_packet-calm u = ground arith

Drains-refl : (u : UsbCdc) → u.fg_bus_rst ≡ false → IsValid tx_capacity u.tx → Drains u u
Drains-refl u calm valid = record {
  same_head = refl;
  no_more = omega arith;
  calm = calm;
  valid = valid;
}

Drains-trans : (u v w : UsbCdc) → Drains u v → Drains v w → Drains u w
Drains-trans u v w a b = record {
  same_head = b.same_head ∙ a.same_head;
  no_more = omega (arith, a.no_more, b.no_more);
  calm = b.calm;
  valid = b.valid;
}

pump-Drains :
    (k : Sdk) (u : UsbCdc) (s : Status)
    → u.fg_bus_rst ≡ false
    → IsValid tx_capacity u.tx
    → Drains u (pump k u s)
unfolding pump pump_case
pump-Drains k u s calm valid = by_case u.fg_transfer (is_ep3_in s)
  where
    by_case : (t e : Bool) → Drains u (pump_case k u s t e)
    by_case false e = record { same_head = refl; no_more = omega arith; calm = calm; valid = valid }
    by_case true false =
        let r = on_irq-Rests k u s calm in
        record {
          same_head = ap (λ (r : Ring ℕ). r.head) r.same_tx;
          no_more = omega (arith, ap size r.same_tx);
          calm = r.same_reset ∙ calm;
          valid = subst (IsValid tx_capacity) (sym r.same_tx) valid;
        }
    by_case true true =
        let a = next_packet-Advances u valid in
        let (head, less) = Advances-drains (ep3_done u) (next_packet u) a in
        record {
          same_head = head;
          no_more = less;
          calm = next_packet-calm u ∙ calm;
          valid = Advances-IsValid (ep3_done u) (next_packet u) valid a;
        }

-- The space that a writer has reserved is still there after a pump.
pub Drains-reserve :
    (u v : UsbCdc) → IsValid tx_capacity u.tx → Drains u v → tx_reserve u ≤ tx_reserve v
unfolding tx_reserve free_contig
Drains-reserve u v valid d =
    let slot : index tx_capacity v.tx.head ≡ index tx_capacity u.tx.head =
      ap (index tx_capacity) d.same_head in
    let before = free_lem tx_capacity valid (inl refl) in
    let after = free_lem tx_capacity d.valid (inl refl) in
    let less = d.no_more in rw (slot, before, after) (ground arith)

-- A pump in the loop of a writer, before which the peripheral may have completed a transfer.
unfoldable pub pump_at : Sdk → UsbCdc → Bool → Status → UsbCdc
pump_at k u completed s = pump k (record u { fg_transfer = u.fg_transfer || completed }) s

unfoldable pub pump_times : Sdk → (ℕ → Bool × Status) → ℕ → UsbCdc → UsbCdc
unfolding pump_at
pump_times k events zero u = u
pump_times k events (suc n) u =
    let v = pump_times k events n u in let (completed, s) = events n in pump_at k v completed s

-- Pumps only send.
abbrev pub Sent : Sdk → UsbCdc → UsbCdc → Type 0
Sent k u v = (p : List ℕ) × Runs k u [] p v × Drains u v

pub pump_times-Sent :
    (k : Sdk) (events : ℕ → Bool × Status) (n : ℕ) (u : UsbCdc)
    → u.fg_bus_rst ≡ false
    → IsValid tx_capacity u.tx
    → Sent k u (pump_times k events n u)
unfolding pump_times pump_at
pump_times-Sent k events zero u calm valid = ([], Runs.here, Drains-refl u calm valid)
pump_times-Sent k events (suc n) u calm valid =
    let v = pump_times k events n u in
    let (p, runs, d) = pump_times-Sent k events n u calm valid in
    let w = record v { fg_transfer = v.fg_transfer || (events n).0 } in
    let x = pump k w (events n).1 in
    let signalled = Runs.signal_step v.ep0 w.fg_transfer v.fg_suspend runs in
    let e = pump-Drains k w (events n).1 d.calm d.valid in
    let f : Drains v x = record {
      same_head = e.same_head;
      no_more = e.no_more;
      calm = e.calm;
      valid = e.valid;
    } in
    (
      p ++ sent (completed w (events n).1) x,
      Runs.pump_step (events n).1 d.calm signalled,
      Drains-trans u v x d f,
    )
