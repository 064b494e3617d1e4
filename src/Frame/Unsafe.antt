-- ===== src/Frame/Unsafe.antt =====
-- Where lib/cmux/cmux_frame_parser.c reads outside the octets that it is given, and where it does
-- not. `none` is such a read.
use cmux.Base.{ℕ, ◌+◌, ◌<◌, ◌≡◌, refl, arith, lt→ltb, le→leb}
use cmux.Frame.Valid.{check_valid_frame_total}
use cmux.Base.{◌≤◌, Bool, some, none, List, [], ◌∷◌, length, false, u16, ◌>>>◌}
use cmux.Base.Memory.{read_outside, >>=-eq-none}
use cmux.Frame.{frame_flag, is_extended, FrameInfo}
use cmux.Frame.Short.{parsed_header}
use cmux.Frame.Parser.{
  read_length, parser_fcs, parse_header, parse_length, parse_body, parse_frame, check_valid_frame,
}

-- A flag with fewer than three octets behind it, as the last octets of a buffer, makes
-- `check_valid_frame` read behind the end: its only test of the length is `len < 1`.
pub check_valid_frame_overread :
    (rest : List ℕ)
    → length rest < 3
    → check_valid_frame (frame_flag ∷ rest) (length (frame_flag ∷ rest)) ≡ none
unfolding check_valid_frame read_length
check_valid_frame_overread [] h = refl
check_valid_frame_overread (x ∷ []) h = refl
check_valid_frame_overread (x ∷ y ∷ []) h = refl
check_valid_frame_overread (x ∷ y ∷ z ∷ rest) h = absurd (omega arith)

module _ (flag address control low : ℕ) (body : List ℕ) (short : is_extended low ≡ false)
    (sized : low >>> 1 ≡ length body) (some_body : 0 < length body)
    (small : length body < 128) where
  abbrev cut_frame : List ℕ
  cut_frame = flag ∷ address ∷ control ∷ low ∷ body

  parse_body_faults :
      (info : FrameInfo)
      → parse_body cut_frame (4 + length body) (3, record info { length = length body }) ≡ none
  unfolding parse_body
  parse_body_faults info = rw (lt→ltb (3 + length body) (4 + length body) (omega arith)) (
      >>=-eq-none (parser_fcs info.type 4 (length body) cut_frame) _
        λ c. rw (read_outside cut_frame (u16 (4 + length body)) (omega arith)))

-- A frame with one length octet that is cut off in front of its check sequence passes the parser's
-- test `len > frame_index - 1 + length + 1`, and the check sequence is read behind the end.
pub parse_frame_overread :
    (flag address control low : ℕ) (body : List ℕ)
    → is_extended low ≡ false
    → low >>> 1 ≡ length body
    → 0 < length body
    → length body < 128
    → parse_frame (flag ∷ address ∷ control ∷ low ∷ body) (4 + length body) ≡ none
unfolding parse_frame parse_header parse_length read_length
parse_frame_overread flag address control low body short sized some_body small =
    rw
      (
        le→leb 3 (4 + length body) (omega arith),
        le→leb 5 (4 + length body) (omega arith),
        short,
        sized,
      )
      (rw (
        parse_body_faults flag address control low body short sized some_body small
          (parsed_header flag address control)))

-- How many octets the functions on frames have to be given. With five, and no more than the block
-- has, `check_valid_frame` reads inside the block, whatever stands there; with a flag and fewer than
-- three octets behind it, it reads behind the end; and so does `parse_frame`, of a frame with one
-- length octet and a body of 1 to 127 octets that is cut off in front of its check sequence.
pub frame_reads :
    (frame : List ℕ) (len : ℕ) (rest : List ℕ) (flag address control low : ℕ) (body : List ℕ)
    → 5 ≤ len
    → len ≤ length frame
    → length rest < 3
    → is_extended low ≡ false
    → low >>> 1 ≡ length body
    → 0 < length body
    → length body < 128
    → ((b : Bool) × (check_valid_frame frame len ≡ some b))
      × (check_valid_frame (frame_flag ∷ rest) (length (frame_flag ∷ rest)) ≡ none)
      × (parse_frame (flag ∷ address ∷ control ∷ low ∷ body) (4 + length body) ≡ none)
frame_reads frame len rest flag address control low body five fits few short sized some_body small =
    (
      check_valid_frame_total frame len five fits,
      check_valid_frame_overread rest few,
      parse_frame_overread flag address control low body short sized some_body small,
    )
