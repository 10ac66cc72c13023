-- ===== src/Clocked/Lifecycle.antt =====
-- src/sniffer/clocked_sniffer.cpp: what `begin` leaves.
use ch32_tapioca.Prelude.{
  ℕ, ◌-◌, ◌≤◌, ◌≡◌, ◌∙◌, sym, ap, arith, refl, true, false, List, [], ◌∷◌, ◌++◌, some, leb, inl,
  inr, length,
}
use ch32_tapioca.Clocked.{Clocked, ring_size, marker, emit_mode_marker, ring_push, begin}
use ch32_tapioca.Clocked.Records.{ring_space_lem}
use ch32_tapioca.Ring.{Ring, size, clear, read_from}
use ch32_tapioca.Ring.Queue.{IsValid, contents, length-contents, push_all_lem}
use ch32_tapioca.Framer.{frame_meta, copy_printable}

-- The text of the marker is printable, so its block is the text between two bytes 0xFE and a boundary.
frame_meta-marker : frame_meta (some marker) ≡ 0xfe ∷ (marker ++ 0xfe ∷ 0xff ∷ [])
unfolding frame_meta copy_printable
frame_meta-marker = refl

clear-IsValid : (r : Ring ℕ) → IsValid ring_size (clear r)
unfolding clear size
clear-IsValid r = record {
  fits = record { positive = omega arith; small = omega arith };
  head_word = omega arith;
  tail_word = omega arith;
  within = omega arith;
}

pub contents-clear : (r : Ring ℕ) → contents ring_size (clear r) ≡ []
unfolding clear size read_from
contents-clear r = refl

-- `r` is `s` with some bytes more in its ring.
abbrev IsStaged : Clocked → List ℕ → Clocked → Type 0
IsStaged s bytes r =
    (contents ring_size r.ring ≡ contents ring_size s.ring ++ bytes)
    × IsValid ring_size r.ring
    × (r.burst_open ≡ s.burst_open)
    × (r.ovf_ram ≡ s.ovf_ram)
    × (r.ovf_pioc ≡ s.ovf_pioc)
    × (r.sniff_tail ≡ s.sniff_tail)

ring_push-IsStaged :
    (s : Clocked) (bytes : List ℕ)
    → IsValid ring_size s.ring
    → length bytes ≤ ring_size - size s.ring
    → IsStaged s bytes (ring_push s bytes)
unfolding ring_push
ring_push-IsStaged s bytes v h = elim (push_all_lem ring_size v (inl refl) bytes) [
  | inl (_, ok, appended, valid) ↦ rw (ring_push, ok) (appended, valid, refl, refl, refl, refl)
  | inr (long, _, _) ↦ absurd (omega (arith, long, h))
]

emit_mode_marker-IsStaged :
    (s : Clocked)
    → IsValid ring_size s.ring
    → size s.ring ≤ 2024
    → IsStaged s (0xfe ∷ (marker ++ 0xfe ∷ 0xff ∷ [])) (emit_mode_marker s)
unfolding emit_mode_marker
emit_mode_marker-IsStaged s v small =
    let room : leb 24 (2048 - size s.ring) ≡ true = ground arith in
    rw (frame_meta-marker, ring_space_lem s v, room)
      (ring_push-IsStaged s (0xfe ∷ (marker ++ 0xfe ∷ 0xff ∷ [])) v (omega arith))

-- Whatever was staged before, `begin` leaves a valid ring with exactly a boundary and the mode marker, no open burst and no
-- counted loss, and it puts the cursor on the HEAD register.
pub begin_lem :
    (s : Clocked) (head now_ms : ℕ)
    → let r = begin s head now_ms in
      (contents ring_size r.ring ≡ 0xff ∷ 0xfe ∷ (marker ++ 0xfe ∷ 0xff ∷ []))
      × IsValid ring_size r.ring
      × (r.burst_open ≡ false)
      × (r.ovf_ram ≡ 0)
      × (r.ovf_pioc ≡ 0)
      × (r.sniff_tail ≡ head)
unfolding begin
begin_lem s head now_ms =
    let s0 = record s {
      sniff_tail = head;
      sniff_last_ms = now_ms;
      partial_seen_ms = now_ms;
      partial_seen_bits = 0;
      ring = clear s.ring;
      ovf_ram = 0;
      ovf_pioc = 0;
      burst_open = false;
      burst = [];
      need_terminal = false;
      tail_bits = 0;
    } in
    let empty : size (clear s.ring) ≡ 0 = unfold size clear in refl in
    let (c1, v1, o1, a1, p1, t1) =
      ring_push-IsStaged s0 (0xff ∷ []) (clear-IsValid s.ring) (omega (arith, empty)) in
    let c1' : contents ring_size (ring_push s0 (0xff ∷ [])).ring ≡ 0xff ∷ [] =
      c1 ∙ ap (λ l. l ++ 0xff ∷ []) (contents-clear s.ring) in
    let one : size (ring_push s0 (0xff ∷ [])).ring ≡ 1 =
      sym (length-contents ring_size (ring_push s0 (0xff ∷ [])).ring) ∙ ap length c1' in
    let (c2, v2, o2, a2, p2, t2) =
      emit_mode_marker-IsStaged (ring_push s0 (0xff ∷ [])) v1 (omega (arith, one)) in
    (
      c2 ∙ ap (λ l. l ++ 0xfe ∷ (marker ++ 0xfe ∷ 0xff ∷ [])) c1',
      v2,
      o2 ∙ o1,
      a2 ∙ a1,
      p2 ∙ p1,
      t2 ∙ t1,
    )
