-- ===== src/Frame/LongFrames.antt =====
-- Bodies of more than 127 octets: lib/cmux/cmux_frame_builder.c puts the upper bits of the length
-- where lib/cmux/cmux_frame_parser.c does not look for them.
use cmux.Base.{ℕ, ◌+◌, ◌*◌, ◌/◌, ◌%◌, ◌≤◌, ◌<◌, ◌≡◌, arith, le→not_ltb, lt→ltb}
use cmux.Base.{some, List, length, false}
use cmux.Crc.{cmux_crc}
use cmux.Frame.{BuilderFrameInfo, is_ui}
use cmux.Frame.Octets.{low_octet-is_extended, extended_length_octets}
use cmux.Frame.Layout.{
  frame_octets, header_octets, Bodied, Bodied-length, length-frame_octets, cmux_frame_builder_plain,
}
use cmux.Frame.Builder.{builder_frame_length, cmux_frame_builder}
use cmux.Frame.Parser.{read_length, check_valid_frame}

-- What the parser takes the length to be in place of `n`.
abbrev pub misread_length : ℕ → ℕ
misread_length n = n % 128 + n / 128 % 256 * 256

misread_length_long : (n : ℕ) → 127 < n → n < 32768 → n + 128 ≤ misread_length n
misread_length_long n h k = omega arith

module _ (info : BuilderFrameInfo) (body : List ℕ) (fcs : ℕ) (long : 127 < info.length) where
  read_length_long : read_length (frame_octets info body fcs) ≡ some (4, misread_length info.length)
  unfolding read_length
  read_length_long = rw (
    lt→ltb 127 info.length long,
    low_octet-is_extended info.length,
    extended_length_octets info.length,
  )

  check_valid_frame_long :
      (len : ℕ)
      → 0 < len
      → len < misread_length info.length + 7
      → check_valid_frame (frame_octets info body fcs) len ≡ some false
  unfolding check_valid_frame
  check_valid_frame_long len p h = rw (
    le→not_ltb 1 len p,
    read_length_long,
    lt→ltb len (5 + misread_length info.length + 2) (omega arith),
  )

-- Of any frame, of a type but UI, that the builder makes of a body of 128 to 32767 octets, the parser
-- reads a length of at least 128 octets more than the body has, and `check_valid_frame`, given exactly
-- this frame, says that it is not valid.
pub long_frame_rejected :
    (info : BuilderFrameInfo) (body block : List ℕ)
    → is_ui info.type ≡ false
    → Bodied info.frame_data_body info.length body
    → 127 < info.length
    → info.length < 32768
    → length block ≡ builder_frame_length info.length
    → (frame : List ℕ) × (cmux_frame_builder info block ≡ some frame)
      × (length frame ≡ builder_frame_length info.length)
      × (read_length frame ≡ some (4, misread_length info.length))
      × (info.length + 128 ≤ misread_length info.length)
      × (check_valid_frame frame (builder_frame_length info.length) ≡ some false)
unfolding builder_frame_length
long_frame_rejected info body block plain bodied long bound l =
    let n = info.length in
    let fcs = cmux_crc (header_octets info) in
    let more = misread_length_long n long bound in
    let sized = Bodied-length info.frame_data_body n body bodied in
    let size : builder_frame_length n ≡ n + 7 = rw (lt→ltb 127 n long) (omega arith) in
    (
      frame_octets info body fcs,
      cmux_frame_builder_plain info body block plain bodied l,
      length-frame_octets info body fcs sized,
      read_length_long info body fcs long,
      more,
      rw size (check_valid_frame_long info body fcs long (n + 7) (omega arith) (omega arith)),
    )
