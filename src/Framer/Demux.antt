-- ===== src/Framer/Demux.antt =====
-- src/sniffer/record_framer.hpp against the reader that docs/sniffer-usb-wire-api.md describes: a stream is cut at
-- 0xFF, and each segment is a loss marker, a metadata block or a COBS record.
use ch32_tapioca.Prelude.{
  ℕ, ◌+◌, ◌≤◌, ◌<◌, ◌≡◌, ◌≢◌, refl, ap, ap₂, sym, ◌∙◌, arith, Bool, true, false, ◌&&◌, List, [],
  ◌∷◌, ◌++◌, Option, none, some, leb, ◌==◌, if◌then◌else◌, length, length-append, All, All-append,
  All-mono, append_assoc, append-nil, map, ==_ne,
}
use ch32_tapioca.Prelude.Words.{IsByte}
use ch32_tapioca.Cobs.{Decoded, ff_encode, ff_decode}
use ch32_tapioca.Cobs.RoundTrip.{ff_decode-ff_encode}
use ch32_tapioca.Cobs.Bounds.{ff_encode-IsPlain, ff_encode-head, encode_size}
use ch32_tapioca.Framer.{
  type_mdio, frame_record, copy_printable, starts_with_bracket, frame_meta, frame_loss,
}

pub data Item : Type 0 where
  record_of : List ℕ → Item
  meta_of : List ℕ → Item
  loss : Item

-- The reader. `acc` is the segment read so far; empty segments are passed over.
segments : List ℕ → List ℕ → List (List ℕ)
segments acc [] = if length acc == 0 then [] else acc ∷ []
segments acc (x ∷ xs) =
    let cut = if length acc == 0 then segments [] xs else acc ∷ segments [] xs in
    let more = segments (acc ++ x ∷ []) xs in if x == 0xff then cut else more

abbrev is_printable : ℕ → Bool
is_printable c = leb 0x20 c && leb c 0x7e

-- The printable text up to a closing 0xFE that ends the segment.
closed_text : List ℕ → Option (List ℕ)
closed_text [] = none
closed_text (c ∷ []) = if c == 0xfe then some [] else none
closed_text (c ∷ d ∷ cs) =
    let rest : Option (List ℕ) = elim (closed_text (d ∷ cs)) [
      | none ↦ none
      | some out ↦ some (c ∷ out)
    ] in
    if is_printable c then rest else none

meta_text : List ℕ → Option (List ℕ)
unfolding closed_text
meta_text [] = none
meta_text (c ∷ cs) =
    let text = closed_text cs in if c == 0xfe && starts_with_bracket cs then text else none

record_item : Option Decoded → Option Item
record_item none = none
record_item (some d) = if d.size == 0 then none else some (record_of d.out)

abbrev starts_loss : List ℕ → Bool
starts_loss [] = false
starts_loss (c ∷ cs) = c == 0xfd

read_segment : List ℕ → Option Item
unfolding meta_text record_item
read_segment seg =
    let other : Option Item = elim (meta_text seg) [
      | some text ↦ some (meta_of text)
      | none ↦ record_item (ff_decode seg)
    ] in
    if length seg == 1 && starts_loss seg then some loss else other

unfoldable pub demux : List ℕ → List (Option Item)
unfolding segments read_segment
demux bytes = map read_segment (segments [] bytes)

-- The emitter.
unfoldable pub emit : Item → List ℕ
unfolding frame_record frame_meta frame_loss
emit (record_of raw) = frame_record raw
emit (meta_of ascii) = frame_meta (some ascii)
emit loss = frame_loss

unfoldable pub stream : List Item → List ℕ
unfolding emit
stream [] = []
stream (i ∷ is) = emit i ++ stream is

-- A record of the type that the firmware emits, of bytes; a text that `frame_meta` asks for.
abbrev pub starts_record : List ℕ → Bool
starts_record [] = false
starts_record (b ∷ bs) = b == type_mdio

abbrev pub IsText : List ℕ → Type 0
IsText = All (λ c. (0x20 ≤ c) × (c ≤ 0x7e))

abbrev pub IsItem : Item → Type 0
IsItem (record_of raw) = (starts_record raw ≡ true) × All IsByte raw
IsItem (meta_of ascii) = (starts_with_bracket ascii ≡ true) × IsText ascii
IsItem loss = Unit {0}

segments-body :
    (acc body rest : List ℕ)
    → All (λ b. IsByte b × (b ≢ 0xff)) body
    → 0 < length acc + length body
    → segments acc (body ++ 0xff ∷ rest) ≡ (acc ++ body) ∷ segments [] rest
unfolding segments
segments-body acc [] rest h k = rw (==_ne (length acc) 0 (omega arith), append-nil acc)
segments-body acc (b ∷ bs) rest h k = rw (==_ne b 0xff h.0.1) (
    segments-body (acc ++ b ∷ []) bs rest h.1 (omega (arith, length-append acc (b ∷ [])))
    ∙ ap (λ l. l ∷ segments [] rest) (append_assoc acc (b ∷ []) bs))

copy_printable-IsText : (ascii : List ℕ) → IsText ascii → copy_printable ascii ≡ some ascii
unfolding copy_printable
copy_printable-IsText [] h = refl
copy_printable-IsText (c ∷ cs) h = ground (arith, copy_printable-IsText cs h.1)

closed_text-IsText : (ascii : List ℕ) → IsText ascii → closed_text (ascii ++ 0xfe ∷ []) ≡ some ascii
unfolding closed_text
closed_text-IsText [] h = refl
closed_text-IsText (c ∷ []) h = ground arith
closed_text-IsText (c ∷ d ∷ cs) h = ground (arith, closed_text-IsText (d ∷ cs) h.1)

read_segment-meta :
    (ascii : List ℕ)
    → starts_with_bracket ascii ≡ true
    → IsText ascii
    → read_segment (0xfe ∷ (ascii ++ 0xfe ∷ [])) ≡ some (meta_of ascii)
unfolding read_segment
read_segment-meta [] b h = cc
read_segment-meta (c ∷ cs) b h = ground (arith, closed_text-IsText (c ∷ cs) h)

read_segment-coded :
    (c b : ℕ) (rest : List ℕ) (d : Decoded)
    → b ≢ b'['
    → ff_decode (c ∷ b ∷ rest) ≡ some d
    → d.size ≢ 0
    → read_segment (c ∷ b ∷ rest) ≡ some (record_of d.out)
unfolding read_segment
read_segment-coded c b rest d h e k = ground arith

read_segment-record :
    (raw : List ℕ) → starts_record raw ≡ true → read_segment (ff_encode raw) ≡ some (record_of raw)
read_segment-record [] b = cc
read_segment-record (b ∷ bs) e =
    let (c, rest, shape) = ff_encode-head b bs (ground arith) in
    let back : ff_decode (c ∷ b ∷ rest) ≡ some (record { size = length (b ∷ bs); out = b ∷ bs }) =
      rw (← shape) (ff_decode-ff_encode (b ∷ bs)) in
    ap read_segment shape ∙ read_segment-coded c b rest _ (ground arith) back (omega arith)

-- What one item adds to the stream is one whole segment, which reads back as that item.
demux-emit :
    (i : Item) (rest : List ℕ)
    → IsItem i
    → (seg : List ℕ) × (segments [] (emit i ++ rest) ≡ seg ∷ segments [] rest)
      × (read_segment seg ≡ some i)
unfolding emit
demux-emit (record_of raw) rest h = (
  ff_encode raw,
  unfold frame_record in
      (ap (segments []) (append_assoc (ff_encode raw) (0xff ∷ []) rest)
        ∙ segments-body [] (ff_encode raw) rest (ff_encode-IsPlain raw h.1)
            (omega (arith, encode_size raw))),
  read_segment-record raw h.0,
)
demux-emit (meta_of ascii) rest h = (
  0xfe ∷ (ascii ++ 0xfe ∷ []),
  rw (h.0, copy_printable-IsText ascii h.1)
      (ap (λ l. segments [] (0xfe ∷ l))
          (append_assoc ascii (0xfe ∷ 0xff ∷ []) rest
            ∙ sym (append_assoc ascii (0xfe ∷ []) (0xff ∷ rest)))
        ∙ segments-body [] (0xfe ∷ (ascii ++ 0xfe ∷ [])) rest
            (
              (omega arith, omega arith),
              All-append (λ b. IsByte b × (b ≢ 0xff)) ascii (0xfe ∷ [])
                  (All-mono (λ c. (0x20 ≤ c) × (c ≤ 0x7e)) (λ b. IsByte b × (b ≢ 0xff)) ascii
                    (λ c k. (omega arith, omega arith)) h.1)
                  ((omega arith, omega arith), tt),
            )
            (omega arith)),
  read_segment-meta ascii h.0 h.1,
)
demux-emit loss rest h = (0xfd ∷ [], unfold segments in refl, unfold read_segment in refl)

-- A stream of records of the type that the firmware emits, metadata blocks that `frame_meta` accepts and loss
-- markers, in any order, is read back as exactly those items.
pub demux-stream : (is : List Item) → All IsItem is → demux (stream is) ≡ map some is
unfolding demux stream
demux-stream [] h = refl
demux-stream (i ∷ is) h =
    let (seg, cut, back) = demux-emit i (stream is) h.0 in
    ap (map read_segment) cut ∙ ap₂ ◌∷◌ back (demux-stream is h.1)
