-- ===== src/Buffer/Ingest/Drain.antt =====
-- lib/cmux/cmux_buffer.c: `cmux_buffer_ingest` again and again.
use mathlib.Core.List.{append-nil}
use cmux.Base.{ℕ, zero, suc, ◌+◌, ◌≡◌, refl, sym, ap, ◌∙◌, arith}
use cmux.Base.{
  false, Option, none, some, List, [], ◌∷◌, ◌++◌, length, take, replicate, All, ◌==◌, ◌>>=◌,
}
use cmux.Frame.{frame_flag, BuilderFrameInfo}
use cmux.Frame.RoundTrip.{IsPlain}
use cmux.Buffer.{Message, cmux_buffer_ingest, process_ingress, process_found}
use cmux.Buffer.Ring.{RingBuffer, IsRingBuffer, Straight}
use cmux.Buffer.Scan.{scan_finds_nothing}
use cmux.Buffer.Ingest.{built_frame, delivered}
use cmux.Buffer.Ingest.Found.{behind, process_ingress-built}

-- A frame that waits in the ring, and the octets in front of it.
pub record Waiting : Type 0 where
  pub junk : List ℕ
  pub info : BuilderFrameInfo
  pub body : List ℕ

abbrev pub waiting_octets : List Waiting → List ℕ
waiting_octets [] = []
waiting_octets (w ∷ ws) = w.junk ++ (built_frame w.info w.body ++ waiting_octets ws)

abbrev pub waiting_messages : List Waiting → List Message
waiting_messages [] = []
waiting_messages (w ∷ ws) = delivered w.info w.body ∷ waiting_messages ws

abbrev pub IsFlagless : List ℕ → Type 0
IsFlagless = All (λ x. (x == frame_flag) ≡ false)

abbrev pub AllPlain : List Waiting → Type 0
AllPlain = All (λ w. IsPlain w.info w.body × IsFlagless w.junk)

-- The calls of `on_control_message` that one call makes, in front of those of the later calls.
abbrev pub in_front : Option Message → List Message → List Message
in_front none later = later
in_front (some message) later = message ∷ later

take_none : (n : ℕ) → take {A = ℕ} n [] ≡ []
take_none zero = refl
take_none (suc n) = refl

module _ (lwrb : RingBuffer) (malloc : ℕ → List ℕ) where
  -- One call for each piece that comes in: how many octets are taken in all, the ring behind, and
  -- the calls of `on_control_message` in their order.
  unfoldable pub ingest_each : lwrb.Ring → List (List ℕ) → Option (ℕ × lwrb.Ring × List Message)
  ingest_each ring [] = some (0, ring, [])
  ingest_each ring (octets ∷ more) = do
    (count, ring', message) ← cmux_buffer_ingest lwrb malloc ring octets
    (counts, last, messages) ← ingest_each ring' more
    some (count + counts, last, in_front message messages)

module _ (lwrb : RingBuffer) (laws : IsRingBuffer lwrb) (malloc : ℕ → List ℕ)
    (fresh : (n : ℕ) → length (malloc n) ≡ n) where
  pub written_nothing : (ring : lwrb.Ring) → laws.bytes (lwrb.write ring []).1 ≡ laws.bytes ring
  written_nothing ring =
      laws.write_bytes ring []
      ∙ ap (λ t. laws.bytes ring ++ t) (take_none (laws.room ring))
      ∙ append-nil (laws.bytes ring)

  -- Plain frames wait in a ring that does not go round its end, with octets in front of each that
  -- are no flag. As many calls of `cmux_buffer_ingest` with nothing new as there are frames hand on
  -- every one of them, in their order and unchanged, and leave the ring empty.
  pub ingest_each_drains :
      (straight : Straight lwrb laws) (ring : lwrb.Ring) (waiting : List Waiting)
      → straight.IsStraight ring
      → laws.bytes ring ≡ waiting_octets waiting
      → AllPlain waiting
      → (after : lwrb.Ring) × (ingest_each lwrb malloc ring (replicate (length waiting) [])
          ≡ some (0, after, waiting_messages waiting))
        × (laws.bytes after ≡ [])
  unfolding ingest_each cmux_buffer_ingest
  ingest_each_drains straight ring [] s e plain = (ring, refl, e)
  ingest_each_drains straight ring (w ∷ ws) s e plain =
      let written = (lwrb.write ring []).1 in
      let s' = straight.write_nothing ring s in
      let stored = written_nothing ring ∙ e in
      let rest = waiting_octets ws in
      let stored' : laws.bytes written ≡ w.junk ++ (built_frame w.info w.body ++ (rest ++ [])) =
        stored ∙ ap (λ t. w.junk ++ (built_frame w.info w.body ++ t)) (sym (append-nil rest)) in
      let linear = straight.linear written s' ∙ ap length stored in
      let (processed, left) =
        process_ingress-built lwrb laws malloc fresh w.info w.body plain.0.0 written w.junk rest []
          stored' linear plain.0.1 in
      let next = behind lwrb written w.info w.junk in
      let (after, drained, empty) =
        ingest_each_drains straight next ws
          (straight.read_some (lwrb.skip written (length w.junk)) _
            (straight.skip_some written (length w.junk) s'))
          (left ∙ append-nil rest) plain.1 in
      let none_taken : (lwrb.write ring []).0 ≡ 0 = laws.write_count ring [] ∙ omega arith in
      (after, rw (processed, drained, none_taken) refl, empty)

  -- A ring that is full of octets that are no flag is full for ever: whatever comes in later, no
  -- octet of it is taken, no frame is found, and what the ring holds stays the same.
  pub ingest_each_jams :
      (ring : lwrb.Ring) (pieces : List (List ℕ))
      → IsFlagless (laws.bytes ring)
      → laws.room ring ≡ 0
      → (after : lwrb.Ring) × (ingest_each lwrb malloc ring pieces ≡ some (0, after, []))
        × (laws.bytes after ≡ laws.bytes ring)
        × (laws.room after ≡ 0)
  unfolding ingest_each cmux_buffer_ingest process_ingress process_found
  ingest_each_jams ring [] flagless full = (ring, refl, refl, full)
  ingest_each_jams ring (octets ∷ more) flagless full =
      let written = (lwrb.write ring octets).1 in
      let same : laws.bytes written ≡ laws.bytes ring =
        laws.write_bytes ring octets
        ∙ ap (λ n. laws.bytes ring ++ take n octets) full
        ∙ append-nil (laws.bytes ring) in
      let still : laws.room written ≡ 0 = laws.room_write ring octets ∙ omega arith in
      let quiet : IsFlagless (laws.bytes written) = rw same flagless in
      let nothing = scan_finds_nothing lwrb laws malloc fresh written quiet in
      let (after, jammed, kept, last) = ingest_each_jams written more quiet still in
      let none_taken : (lwrb.write ring octets).0 ≡ 0 =
        laws.write_count ring octets ∙ omega arith in
      (after, rw (nothing, jammed, none_taken) refl, kept ∙ same, last)
