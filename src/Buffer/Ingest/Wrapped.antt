-- ===== src/Buffer/Ingest/Wrapped.antt =====
-- lib/cmux/cmux_buffer.c: `cmux_buffer_ingest` when a frame goes round the end of the ring's memory.
use mathlib.Core.List.{append_assoc, append-nil}
use mathlib.Core.Option.{some-injective}
use cmux.Base.{ℕ, ◌+◌, ◌≤◌, ◌<◌, ◌≡◌, refl, sym, ap, ◌∙◌, arith, lt→ltb, le→not_ltb}
use cmux.Base.{false, some, List, [], ◌∷◌, ◌++◌, length, length-append, take, read}
use cmux.Frame.{frame_flag, BuilderFrameInfo}
use cmux.Frame.Octets.{short_octet, short_octet-is_extended, short_octet_length}
use cmux.Crc.{cmux_crc}
use cmux.Frame.Layout.{header_octets, length-frame_octets}
use cmux.Frame.Parser.{check_valid_frame, read_length}
use cmux.Frame.RoundTrip.{IsPlain, frame-short_frame, built_size, sized_body}
use cmux.Buffer.{cmux_buffer_ingest, process_ingress, process_found}
use cmux.Buffer.Ring.{RingBuffer, IsRingBuffer}
use cmux.Buffer.Scan.{scan_finds_none}
use cmux.Buffer.Ingest.{built_frame}
use cmux.Buffer.Ingest.Drain.{IsFlagless, ingest_each}

-- Rings whose octets go round the end of the memory: to write leaves them so, and leaves what can be
-- read in one piece.
pub record Wrapping (lwrb : RingBuffer) (laws : IsRingBuffer lwrb) : Type 1 where
  pub IsWrapped : lwrb.Ring → Type 0
  pub write_some :
      (r : lwrb.Ring) (octets : List ℕ) → IsWrapped r → IsWrapped (lwrb.write r octets).1
  pub linear_same :
      (r : lwrb.Ring) (octets : List ℕ)
      → IsWrapped r
      → lwrb.linear_read_length (lwrb.write r octets).1 ≡ lwrb.linear_read_length r

-- The front of a frame, from its length octet on, but not all of it, is not valid.
front_not_valid :
    (address control n : ℕ) (rest : List ℕ)
    → n < 128
    → length rest < n + 2
    → check_valid_frame
        (frame_flag ∷ address ∷ control ∷ short_octet n ∷ rest)
        (length (frame_flag ∷ address ∷ control ∷ short_octet n ∷ rest))
      ≡ some false
unfolding check_valid_frame read_length
front_not_valid address control n rest small cut =
    rw
      (
        le→not_ltb 1 (length (frame_flag ∷ address ∷ control ∷ short_octet n ∷ rest)) (omega arith),
        short_octet-is_extended n small,
        short_octet_length n small,
        lt→ltb (length (frame_flag ∷ address ∷ control ∷ short_octet n ∷ rest)) (4 + n + 2)
            (omega arith),
      )
      refl

built_front_not_valid :
    (info : BuilderFrameInfo) (body : List ℕ) (plain : IsPlain info body) (rest unseen : List ℕ)
    → built_frame info body ≡ (frame_flag ∷ rest) ++ unseen
    → 3 ≤ length rest
    → 1 ≤ length unseen
    → check_valid_frame (frame_flag ∷ rest) (length (frame_flag ∷ rest)) ≡ some false
built_front_not_valid info body plain (x ∷ y ∷ z ∷ rest) unseen split three one =
    let e = sym (frame-short_frame info body plain) ∙ split in
    let same : short_octet info.length ≡ z = some-injective _ _ (ap (λ l. read l 3) e) in
    let size =
      length-frame_octets info body (cmux_crc (header_octets info)) (sized_body info body plain) in
    let parts = ap length split ∙ length-append {0} (frame_flag ∷ x ∷ y ∷ z ∷ rest) unseen in
    rw (← same) (
      front_not_valid x y info.length rest plain.short
        (omega (arith, size, parts, built_size info body plain, sized_body info body plain)))
built_front_not_valid info body plain _ unseen split three one = absurd (omega arith)

module _ (lwrb : RingBuffer) (laws : IsRingBuffer lwrb) (malloc : ℕ → List ℕ)
    (fresh : (n : ℕ) → length (malloc n) ≡ n) (wrapping : Wrapping lwrb laws) where
  -- Nothing is found, now and later, and nothing is taken out.
  ingest_each_stuck :
      (junk rest : List ℕ)
      → IsFlagless junk
      → IsFlagless rest
      → check_valid_frame (frame_flag ∷ rest) (length (frame_flag ∷ rest)) ≡ some false
      → (ring : lwrb.Ring) (beyond : List ℕ) (pieces : List (List ℕ)) → wrapping.IsWrapped ring
      → laws.bytes ring ≡ junk ++ ((frame_flag ∷ rest) ++ beyond)
      → lwrb.linear_read_length ring ≡ length (junk ++ (frame_flag ∷ rest))
      → (count : ℕ) × (after : lwrb.Ring) × (taken : List ℕ) × (ingest_each lwrb malloc ring pieces
          ≡ some (count, after, []))
        × (count ≤ laws.room ring)
        × (laws.bytes after ≡ laws.bytes ring ++ taken)
  unfolding ingest_each cmux_buffer_ingest process_ingress process_found
  ingest_each_stuck junk rest none_flag none_flag' invalid ring beyond [] w stored linear =
      (0, ring, [], refl, omega arith, sym (append-nil (laws.bytes ring)))
  ingest_each_stuck junk rest none_flag none_flag' invalid ring beyond (octets ∷ more) w stored
        linear =
      let written = (lwrb.write ring octets).1 in
      let new = take (laws.room ring) octets in
      let grown : laws.bytes written ≡ junk ++ ((frame_flag ∷ rest) ++ (beyond ++ new)) =
        laws.write_bytes ring octets
        ∙ ap (λ t. t ++ new) stored
        ∙ append_assoc junk ((frame_flag ∷ rest) ++ beyond) new
        ∙ ap (λ t. junk ++ t) (append_assoc (frame_flag ∷ rest) beyond new) in
      let seen = wrapping.linear_same ring octets w ∙ linear in
      let nothing =
        scan_finds_none lwrb laws malloc fresh written junk rest (beyond ++ new) grown seen
          none_flag none_flag' invalid in
      let (count, after, taken, later, few, kept) =
        ingest_each_stuck junk rest none_flag none_flag' invalid written (beyond ++ new) more
          (wrapping.write_some ring octets w) grown seen in
      (
        (lwrb.write ring octets).0 + count,
        after,
        new ++ taken,
        rw (nothing, later) refl,
        omega (arith, laws.write_count ring octets, laws.room_write ring octets, few),
        kept
            ∙ ap (λ t. t ++ taken) (laws.write_bytes ring octets)
            ∙ append_assoc (laws.bytes ring) new taken,
      )

  -- A ring goes round the end of its memory. What can be read of it in one piece ends inside a plain
  -- frame, behind its length octet, and has no other flag than that in front of the frame. Then no
  -- frame is ever found: whatever comes in later, in whatever pieces, `on_control_message` is not
  -- called, nothing is taken out of the ring, and no more comes in than there was room for.
  pub ingest_each_wrapped :
      (info : BuilderFrameInfo) (body : List ℕ) (plain : IsPlain info body)
      (junk rest unseen behind : List ℕ) (ring : lwrb.Ring) (pieces : List (List ℕ))
      → wrapping.IsWrapped ring
      → laws.bytes ring ≡ junk ++ (built_frame info body ++ behind)
      → built_frame info body ≡ (frame_flag ∷ rest) ++ unseen
      → lwrb.linear_read_length ring ≡ length (junk ++ (frame_flag ∷ rest))
      → IsFlagless junk
      → IsFlagless rest
      → 3 ≤ length rest
      → 1 ≤ length unseen
      → (count : ℕ) × (after : lwrb.Ring) × (taken : List ℕ) × (ingest_each lwrb malloc ring pieces
          ≡ some (count, after, []))
        × (count ≤ laws.room ring)
        × (laws.bytes after ≡ laws.bytes ring ++ taken)
  ingest_each_wrapped info body plain junk rest unseen behind ring pieces w stored split linear
        none_flag none_flag' three one =
      ingest_each_stuck junk rest none_flag none_flag'
        (built_front_not_valid info body plain rest unseen split three one) ring (unseen ++ behind)
        pieces w
        (stored
          ∙ ap (λ t. junk ++ (t ++ behind)) split
          ∙ ap (λ t. junk ++ t) (append_assoc (frame_flag ∷ rest) unseen behind))
        linear
