-- ===== src/Buffer/Scan.antt =====
-- `scan_ingress_buffer_for_valid_frame` of lib/cmux/cmux_buffer.c: which frame in the ring is found.
use cmux.Base.{ℕ, suc, ◌+◌, ◌-◌, ◌≡◌, refl, ap, ◌∙◌, arith}
use cmux.Base.{
  if◌then◌else◌, true, false, none, some, List, [], ◌∷◌, ◌++◌, length, length-append, take, drop,
  All, take_append, drop_next, take-drop, length-take, All-take, ◌>>=◌, ◌==◌, pos, minus_one,
}
use cmux.Base.Blocks.{copy_in_all}
use cmux.Frame.{frame_flag}
use cmux.Frame.Parser.{check_valid_frame}
use cmux.Buffer.{scan, scan_ingress_buffer_for_valid_frame}
use cmux.Buffer.Ring.{RingBuffer, IsRingBuffer}

module _ (lwrb : RingBuffer) (laws : IsRingBuffer lwrb) (malloc : ℕ → List ℕ)
    (fresh : (n : ℕ) → length (malloc n) ≡ n) where
  pub peeked :
      (ring : lwrb.Ring) (i n : ℕ) (octets : List ℕ)
      → drop i (laws.bytes ring) ≡ octets
      → lwrb.peek ring i n ≡ take n octets
  peeked ring i n octets at = laws.peek_bytes ring i n ∙ ap (take n) at

  -- The scan passes over octets that are no flag.
  scan_passes :
      (ring : lwrb.Ring) (max_frame_size left i : ℕ) (junk rest : List ℕ)
      → drop i (laws.bytes ring) ≡ junk ++ rest
      → All (λ x. (x == frame_flag) ≡ false) junk
      → (there : ℕ) × (there ≡ i + length junk)
        × (drop there (laws.bytes ring) ≡ rest)
        × (scan lwrb malloc ring max_frame_size (length junk + left) i
            ≡ scan lwrb malloc ring max_frame_size left there)
  unfolding scan
  scan_passes ring max_frame_size left i [] rest at none_flag =
      (i, omega arith, at, ap (λ k. scan lwrb malloc ring max_frame_size k i) (omega arith))
  scan_passes ring max_frame_size left i (x ∷ junk) rest at none_flag =
      let one = peeked ring i 1 (x ∷ (junk ++ rest)) at in
      let next : i + 1 ≡ suc i = omega arith in
      let further : length (x ∷ junk) + left ≡ suc (length junk + left) = omega arith in
      let (there, place, ahead, same) =
        scan_passes ring max_frame_size left (i + 1) junk rest
          (ap (λ k. drop k (laws.bytes ring)) next ∙ drop_next i (laws.bytes ring) x _ at)
          none_flag.1 in
      (there, omega arith, ahead, rw (further, scan, one, none_flag.0) same)

  -- At a flag, the frame that begins there is looked at, up to the end of what can be read in one
  -- piece.
  scan_flag :
      (ring : lwrb.Ring) (max_frame_size left i : ℕ) (rest beyond : List ℕ)
      → drop i (laws.bytes ring) ≡ (frame_flag ∷ rest) ++ beyond
      → left ≡ length rest
      → max_frame_size ≡ i + suc left
      → scan lwrb malloc ring max_frame_size (suc left) i ≡ (
          check_valid_frame (frame_flag ∷ rest) (length (frame_flag ∷ rest)) >>= λ valid.
          if valid then some (pos i) else scan lwrb malloc ring max_frame_size left (i + 1))
  unfolding scan check_valid_frame
  scan_flag ring max_frame_size left i rest beyond at l m =
      let frame : List ℕ = frame_flag ∷ rest in
      let size : max_frame_size - i ≡ length frame = omega arith in
      let one = peeked ring i 1 (frame ++ beyond) at in
      let whole = peeked ring i (length frame) (frame ++ beyond) at ∙ take_append frame beyond in
      let copied = copy_in_all (malloc (length frame)) frame (fresh _) in
      rw (scan, one, size, whole, copied) refl

  -- The scan stops at the first flag where a valid frame begins, and faults where looking for one
  -- reads too far.
  pub scan_finds :
      (ring : lwrb.Ring) (junk rest beyond : List ℕ)
      → laws.bytes ring ≡ junk ++ ((frame_flag ∷ rest) ++ beyond)
      → lwrb.linear_read_length ring ≡ length (junk ++ (frame_flag ∷ rest))
      → All (λ x. (x == frame_flag) ≡ false) junk
      → (check_valid_frame (frame_flag ∷ rest) (length (frame_flag ∷ rest)) ≡ some true
          → scan_ingress_buffer_for_valid_frame lwrb malloc ring ≡ some (pos (length junk)))
        × (check_valid_frame (frame_flag ∷ rest) (length (frame_flag ∷ rest)) ≡ none
            → scan_ingress_buffer_for_valid_frame lwrb malloc ring ≡ none)
  unfolding scan_ingress_buffer_for_valid_frame
  scan_finds ring junk rest beyond stored linear none_flag =
      let size = length (junk ++ (frame_flag ∷ rest)) in
      let (there, place, ahead, same) =
        scan_passes ring size (suc (length rest)) 0 junk ((frame_flag ∷ rest) ++ beyond) stored
          none_flag in
      let sum : size ≡ length junk + suc (length rest) =
        omega (arith, length-append {0} junk (frame_flag ∷ rest)) in
      let at : there ≡ length junk = omega arith in
      let stop =
        ap (λ k. scan lwrb malloc ring size k 0) sum
        ∙ same
        ∙ scan_flag ring size (length rest) there rest beyond ahead refl (omega arith) in
      (λ valid. rw linear (stop ∙ rw (valid, at) refl), λ faults. rw linear (stop ∙ rw faults refl))

  -- Where the first flag begins no valid frame, and there is no other flag that can be read in one
  -- piece, the scan finds nothing.
  pub scan_finds_none :
      (ring : lwrb.Ring) (junk rest beyond : List ℕ)
      → laws.bytes ring ≡ junk ++ ((frame_flag ∷ rest) ++ beyond)
      → lwrb.linear_read_length ring ≡ length (junk ++ (frame_flag ∷ rest))
      → All (λ x. (x == frame_flag) ≡ false) junk
      → All (λ x. (x == frame_flag) ≡ false) rest
      → check_valid_frame (frame_flag ∷ rest) (length (frame_flag ∷ rest)) ≡ some false
      → scan_ingress_buffer_for_valid_frame lwrb malloc ring ≡ some minus_one
  unfolding scan_ingress_buffer_for_valid_frame scan
  scan_finds_none ring junk rest beyond stored linear none_flag none_flag' invalid =
      let size = length (junk ++ (frame_flag ∷ rest)) in
      let (there, place, ahead, same) =
        scan_passes ring size (suc (length rest)) 0 junk ((frame_flag ∷ rest) ++ beyond) stored
          none_flag in
      let sum : size ≡ length junk + suc (length rest) =
        omega (arith, length-append {0} junk (frame_flag ∷ rest)) in
      let next : there + 1 ≡ suc there = omega arith in
      let (_, _, _, further) =
        scan_passes ring size 0 (there + 1) rest beyond
          (ap (λ k. drop k (laws.bytes ring)) next
            ∙ drop_next there (laws.bytes ring) frame_flag _ ahead)
          none_flag' in
      let left : length rest ≡ length rest + 0 = omega arith in
      let passed = ap (λ k. scan lwrb malloc ring size k (there + 1)) left ∙ further in
      let stop =
        ap (λ k. scan lwrb malloc ring size k 0) sum
        ∙ same
        ∙ scan_flag ring size (length rest) there rest beyond ahead refl (omega arith) in
      rw linear (stop ∙ rw (invalid) passed)

  -- Where no flag can be read in one piece, the scan finds nothing.
  pub scan_finds_nothing :
      (ring : lwrb.Ring)
      → All (λ x. (x == frame_flag) ≡ false) (laws.bytes ring)
      → scan_ingress_buffer_for_valid_frame lwrb malloc ring ≡ some minus_one
  unfolding scan_ingress_buffer_for_valid_frame scan
  scan_finds_nothing ring none_flag =
      let n = lwrb.linear_read_length ring in
      let front = take n (laws.bytes ring) in
      let (there, _, _, same) =
        scan_passes ring n 0 0 front (drop n (laws.bytes ring)) (take-drop n (laws.bytes ring))
          (All-take _ n (laws.bytes ring) none_flag) in
      let sum : n ≡ length front + 0 =
        omega (arith, length-take {0} n (laws.bytes ring) (laws.linear_le ring)) in
      ap (λ k. scan lwrb malloc ring n k 0) sum ∙ same
