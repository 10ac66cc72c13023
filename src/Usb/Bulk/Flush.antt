-- ===== src/Usb/Bulk/Flush.antt =====
-- src/usb/usb_cdc.cpp: how long the last bytes of the stream to the host are held.
use ch32_tapioca.Prelude.{
  ℕ, Bool-cases, ap, ◌≤◌, ◌<◌, ◌≡◌, refl, arith, Bool, true, false, not, leb, ◌==◌, if◌then◌else◌,
  inl, inr, ◌⊎◌,
}
use ch32_tapioca.Prelude.Words.{sub32, IsU32}
use ch32_tapioca.Ring.{size}
use ch32_tapioca.Ring.Queue.{IsValid}
use ch32_tapioca.Usb.Descriptors.{packet}
use ch32_tapioca.Usb.Device.{UsbCdc, tx_capacity, partial_flush_ms}
use ch32_tapioca.Usb.Bulk.{coalesce, coalesce_free, hold, arm_ep3_from_tx}
use ch32_tapioca.Usb.Bulk.Packets.{arm_ep3_from_tx_lem}

arm_ep3_from_tx-busy :
    (u : UsbCdc) (short : Bool)
    → IsValid tx_capacity u.tx
    → 0 < size u.tx
    → (packet ≤ size u.tx) ⊎ (short ≡ true)
    → (arm_ep3_from_tx u short).1.ep3_busy ≡ true
arm_ep3_from_tx-busy u short valid some_ enough = elim (arm_ep3_from_tx_lem u short valid) [
  | inl (idle, same, inl empty) ↦ absurd (omega arith)
  | inl (idle, same, inr (few, no_short)) ↦ elim enough [
    | inl many ↦ absurd (omega arith)
    | inr allowed ↦ cc
  ]
  | inr (armed, sends, full) ↦ sends.2
]

-- With bytes in the queue, a free endpoint is busy after the step, or the bytes are held since the noted time.
coalesce_free-outcome :
    (u : UsbCdc) (now_ms : ℕ)
    → IsValid tx_capacity u.tx
    → 0 < size u.tx
    → ((coalesce_free u now_ms).ep3_busy ≡ true)
      ⊎ ((coalesce_free u now_ms ≡ hold u now_ms)
          × (sub32 now_ms (hold u now_ms).partial_since_ms < partial_flush_ms))
unfolding coalesce_free
coalesce_free-outcome u now_ms valid some_ = elim (Bool-cases (leb packet (size u.tx))) [
  | inl many ↦ rw many (
      inl (
        arm_ep3_from_tx-busy (record u { partial_pending = false }) false valid some_
          (inl (ground arith))))
  | inr few ↦ rw few (residue (ground arith))
]
  where
    residue :
        not (size u.tx == 0) ≡ true
        → let v =
            if not (size u.tx == 0)
            then (if leb partial_flush_ms (sub32 now_ms (hold u now_ms).partial_since_ms)
                then (arm_ep3_from_tx (record (hold u now_ms) { partial_pending = false }) true).1
                else hold u now_ms)
            else record u { partial_pending = false } in
          (v.ep3_busy ≡ true)
          ⊎ ((v ≡ hold u now_ms)
              × (sub32 now_ms (hold u now_ms).partial_since_ms < partial_flush_ms))
    residue any =
        elim (Bool-cases (leb partial_flush_ms (sub32 now_ms (hold u now_ms).partial_since_ms))) [
          | inl due ↦
              rw (any, due)
                (inl (
                  arm_ep3_from_tx-busy (record (hold u now_ms) { partial_pending = false }) true
                    valid some_ (inr refl)))
          | inr early ↦ rw (any, early) (inr (refl, ground arith))
        ]

pub coalesce-busy : (u : UsbCdc) (now_ms : ℕ) → u.ep3_busy ≡ true → coalesce u now_ms ≡ u
unfolding coalesce
coalesce-busy u now_ms busy = ap (λ b. if b then u else coalesce_free u now_ms) busy

coalesce-free :
    (u : UsbCdc) (now_ms : ℕ) → u.ep3_busy ≡ false → coalesce u now_ms ≡ coalesce_free u now_ms
unfolding coalesce
coalesce-free u now_ms idle = ap (λ b. if b then u else coalesce_free u now_ms) idle

-- Bytes in the queue are not held for ever: if endpoint 3 is free at one step of the main loop, and a step a millisecond or more
-- later finds them still unsent, then after that step at the latest the endpoint has a packet. The times are 32 bits wide,
-- and may wrap between the two steps.
pub coalesce-flushes :
    (u : UsbCdc) (t0 t1 : ℕ)
    → IsValid tx_capacity u.tx
    → 0 < size u.tx
    → IsU32 t0
    → IsU32 t1
    → IsU32 u.partial_since_ms
    → 1 ≤ sub32 t1 t0
    → (coalesce (coalesce u t0) t1).ep3_busy ≡ true
coalesce-flushes u t0 t1 valid some_ w0 w1 ws later = elim (Bool-cases u.ep3_busy) [
  | inl busy ↦ rw (coalesce-busy u t0 busy) (kept u busy)
  | inr idle ↦ rw (coalesce-free u t0 idle) (elim (coalesce_free-outcome u t0 valid some_) [
    | inl busy ↦ kept (coalesce_free u t0) busy
    | inr (held, early) ↦ rw held (due idle early)
  ])
]
  where
    kept : (v : UsbCdc) → v.ep3_busy ≡ true → (coalesce v t1).ep3_busy ≡ true
    kept v busy = rw (coalesce-busy v t1 busy) busy

    due :
        u.ep3_busy ≡ false
        → sub32 t0 (hold u t0).partial_since_ms < partial_flush_ms
        → (coalesce (hold u t0) t1).ep3_busy ≡ true
    due idle early =
        rw (coalesce-free (hold u t0) t1 idle)
          (elim (coalesce_free-outcome (hold u t0) t1 valid some_) [
            | inl busy ↦ busy
            | inr (held, again) ↦ absurd (ground arith)
          ])
