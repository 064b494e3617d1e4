-- ===== src/Buffer/Ingest/Found.antt =====
-- lib/cmux/cmux_buffer.c: `cmux_buffer_ingest` when a frame stands in the ring.
use cmux.Base.{ℕ, ◌+◌, ◌≤◌, ◌<◌, ◌≡◌, refl, sym, ap, ◌∙◌, arith, ==_refl}
use cmux.Base.{false, none, some, List, [], ◌∷◌, ◌++◌, length, length-append, take, drop, All}
use cmux.Base.{copy_in, ◌==◌, replicate, pos}
use Prim.Native.Nat.{min}
use cmux.Crc.{cmux_crc}
use cmux.Frame.{frame_flag, BuilderFrameInfo}
use cmux.Frame.Builder.{address_octet, control_octet, builder_frame_length}
use cmux.Frame.Parser.{get_frame_length}
use cmux.Frame.Layout.{header_octets, length-frame_octets}
use cmux.Frame.Octets.{short_octet, short_octet-is_extended, short_octet_length}
use cmux.Frame.RoundTrip.{IsPlain, built_size, sized_body, frame-short_frame}
use cmux.Frame.Unsafe.{check_valid_frame_overread}
use cmux.Buffer.{extract_frame, process_found, process_ingress, cmux_buffer_ingest}
use cmux.Buffer.Ring.{RingBuffer, IsRingBuffer}
use cmux.Buffer.Ingest.{built_frame, delivered, built_valid, process_ingress_frame-built}
use cmux.Buffer.Scan.{peeked, scan_finds}
use cmux.Base.{take_append, drop_append}
use cmux.Base.Blocks.{copy_in_all}
use cmux.Frame.Extends.{check_valid_frame_append}
use mathlib.Core.List.{append_assoc}

two_front : (xs : List ℕ) → 2 ≤ length xs → (a b : ℕ) × (rest : List ℕ) × (xs ≡ a ∷ b ∷ rest)
two_front [] h = absurd (omega arith)
two_front (a ∷ []) h = absurd (omega arith)
two_front (a ∷ b ∷ rest) h = (a, b, rest, refl)

-- The six octets at the front of a frame tell its length.
header_length :
    (address control n : ℕ) (tail : List ℕ)
    → n < 128
    → 2 ≤ length tail
    → (header : List ℕ) × (copy_in
          (replicate 6 0)
          0
          (take 6 (frame_flag ∷ address ∷ control ∷ short_octet n ∷ tail))
        ≡ some header)
      × (get_frame_length header ≡ some (pos (n + 6)))
unfolding get_frame_length
header_length address control n tail h two =
    let (a, b, rest, e) = two_front tail two in
    (
      frame_flag ∷ address ∷ control ∷ short_octet n ∷ a ∷ b ∷ [],
      rw e,
      rw (short_octet-is_extended n h, short_octet_length n h)
          (ap (λ k. some (pos k)) (omega arith)),
    )

-- A frame that comes in pieces: when the first piece ends within the three octets behind the first
-- flag, the search for a frame reads behind the end of its copy of the ring.
pub cmux_buffer_ingest_cut :
    (lwrb : RingBuffer) (laws : IsRingBuffer lwrb) (malloc : ℕ → List ℕ)
    → ((n : ℕ) → length (malloc n) ≡ n)
    → (ring : lwrb.Ring) (octets junk rest beyond : List ℕ)
    → laws.bytes ring ++ take (laws.room ring) octets ≡ junk ++ ((frame_flag ∷ rest) ++ beyond)
    → lwrb.linear_read_length (lwrb.write ring octets).1 ≡ length (junk ++ (frame_flag ∷ rest))
    → All (λ x. (x == frame_flag) ≡ false) junk
    → length rest < 3
    → cmux_buffer_ingest lwrb malloc ring octets ≡ none
unfolding cmux_buffer_ingest process_ingress
cmux_buffer_ingest_cut lwrb laws malloc fresh ring octets junk rest beyond holds linear none_flag
      short =
    let stored = laws.write_bytes ring octets ∙ holds in
    let faults =
      (scan_finds lwrb laws malloc fresh (lwrb.write ring octets).1 junk rest beyond stored linear
          none_flag).1
        (check_valid_frame_overread rest short) in
    rw faults refl

-- The ring when the octets in front of a frame, and then the frame, are taken out.
abbrev pub behind : (lwrb : RingBuffer) → lwrb.Ring → BuilderFrameInfo → List ℕ → lwrb.Ring
behind lwrb ring info junk =
    (lwrb.read (lwrb.skip ring (length junk)) (builder_frame_length info.length)).1

module _ (lwrb : RingBuffer) (laws : IsRingBuffer lwrb) (malloc : ℕ → List ℕ)
    (fresh : (n : ℕ) → length (malloc n) ≡ n) (info : BuilderFrameInfo) (body : List ℕ)
    (plain : IsPlain info body) where
  extract_built :
      (ring : lwrb.Ring) (tail : List ℕ)
      → laws.bytes ring ≡ built_frame info body ++ tail
      → (extract_frame lwrb malloc ring (builder_frame_length info.length)
          ≡ some
              ((lwrb.read ring (builder_frame_length info.length)).1, some (delivered info body)))
        × (laws.bytes (lwrb.read ring (builder_frame_length info.length)).1 ≡ tail)
  unfolding extract_frame
  extract_built ring tail e =
      let n = builder_frame_length info.length in
      let frame = built_frame info body in
      let size : length frame ≡ n =
        length-frame_octets info body (cmux_crc (header_octets info))
          (sized_body info body plain) in
      let whole : (lwrb.read ring n).0 ≡ frame =
        laws.read_bytes ring n
        ∙ ap (take n) e
        ∙ ap (λ k. take k (frame ++ tail)) (sym size)
        ∙ take_append frame tail in
      (
        rw (
          whole,
          copy_in_all (malloc n) frame (fresh n ∙ sym size),
          ==_refl (length frame) n size,
          process_ingress_frame-built info body plain,
        ),
        laws.read_rest ring n
            ∙ ap (drop n) e
            ∙ ap (λ k. drop k (frame ++ tail)) (sym size)
            ∙ drop_append frame tail,
      )

  found_built :
      (ring : lwrb.Ring) (junk tail : List ℕ)
      → laws.bytes ring ≡ junk ++ (built_frame info body ++ tail)
      → (process_found lwrb malloc ring (pos (length junk))
          ≡ some (behind lwrb ring info junk, some (delivered info body)))
        × (laws.bytes (behind lwrb ring info junk) ≡ tail)
  unfolding process_found
  found_built ring junk tail e =
      let skipped : laws.bytes (lwrb.skip ring (length junk)) ≡ built_frame info body ++ tail =
        laws.skip_bytes ring (length junk)
        ∙ ap (drop (length junk)) e
        ∙ drop_append junk (built_frame info body ++ tail) in
      let last : List ℕ = cmux_crc (header_octets info) ∷ frame_flag ∷ [] in
      let (header, copied, measured) =
        header_length (address_octet info) (control_octet info) info.length ((body ++ last) ++ tail)
          plain.short
          (omega (arith, length-append {0} (body ++ last) tail, length-append {0} body last)) in
      let front =
        peeked lwrb laws malloc fresh (lwrb.skip ring (length junk)) 0 6 _
          (skipped ∙ ap (λ f. f ++ tail) (frame-short_frame info body plain)) in
      let n : info.length + 6 ≡ builder_frame_length info.length =
        omega (arith, built_size info body plain, sized_body info body plain) in
      let (extracted, left) = extract_built (lwrb.skip ring (length junk)) tail skipped in
      (rw (front, copied, measured, n, extracted), left)

  -- The frame that stands first in what can be read in one piece is taken out, and what stands
  -- behind it stays.
  pub process_ingress-built :
      (ring : lwrb.Ring) (junk seen beyond : List ℕ)
      → laws.bytes ring ≡ junk ++ (built_frame info body ++ (seen ++ beyond))
      → lwrb.linear_read_length ring ≡ length (junk ++ (built_frame info body ++ seen))
      → All (λ x. (x == frame_flag) ≡ false) junk
      → (process_ingress lwrb malloc ring
          ≡ some (behind lwrb ring info junk, some (delivered info body)))
        × (laws.bytes (behind lwrb ring info junk) ≡ seen ++ beyond)
  unfolding process_ingress
  process_ingress-built ring junk seen beyond stored linear none_flag =
      let frame = built_frame info body in
      let valid =
        check_valid_frame_append frame seen (length frame) (length (frame ++ seen))
          (built_valid info body plain).0 (omega (arith, length-append {0} frame seen)) in
      let split : laws.bytes ring ≡ junk ++ ((frame ++ seen) ++ beyond) =
        stored ∙ ap (λ t. junk ++ t) (sym (append_assoc frame seen beyond)) in
      let found =
        (scan_finds lwrb laws malloc fresh ring junk _ beyond split linear none_flag).0 valid in
      let (processed, left) = found_built ring junk (seen ++ beyond) stored in
      (rw (found, processed), left)

  -- Octets come in, as many as the ring has room for. Where it then holds, in one piece, octets that
  -- are no flag, behind them a plain frame that the builder made, and anything else: that frame is
  -- handed on, once and with nothing of it changed, and the ring keeps what stands behind it.
  pub cmux_buffer_ingest_frame :
      (ring : lwrb.Ring) (octets junk seen beyond : List ℕ)
      → laws.bytes ring ++ take (laws.room ring) octets
        ≡ junk ++ (built_frame info body ++ (seen ++ beyond))
      → lwrb.linear_read_length (lwrb.write ring octets).1
        ≡ length (junk ++ (built_frame info body ++ seen))
      → All (λ x. (x == frame_flag) ≡ false) junk
      → (after : lwrb.Ring) × (cmux_buffer_ingest lwrb malloc ring octets
          ≡ some (min (length octets) (laws.room ring), after, some (delivered info body)))
        × (laws.bytes after ≡ seen ++ beyond)
  unfolding cmux_buffer_ingest
  cmux_buffer_ingest_frame ring octets junk seen beyond holds linear none_flag =
      let written = (lwrb.write ring octets).1 in
      let (processed, left) =
        process_ingress-built written junk seen beyond (laws.write_bytes ring octets ∙ holds) linear
          none_flag in
      (behind lwrb written info junk, rw (processed, laws.write_count ring octets), left)
