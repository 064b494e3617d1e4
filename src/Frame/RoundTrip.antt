-- ===== src/Frame/RoundTrip.antt =====
-- lib/cmux/cmux_frame_parser.c on what lib/cmux/cmux_frame_builder.c wrote.
use cmux.Base.{ℕ, ◌+◌, ◌≤◌, ◌<◌, ◌≡◌, refl, sym, ap, ◌∙◌, arith, ltb, le→not_ltb, ==_refl, ◌>>>◌}
use cmux.Base.{if◌then◌else◌, some, List, [], ◌∷◌, length, length-append, true, false}
use cmux.Base.{slice, pos, minus_one}
use cmux.Base.Memory.{slice_prefix}
use cmux.Crc.{cmux_crc}
use cmux.Frame.{control_type, is_ui, frame_flag, FrameInfo, BuilderFrameInfo}
use cmux.Frame.{without_poll_final}
use cmux.Frame.Layout.{Bodied, Bodied-length, frame_octets, header_octets}
use cmux.Frame.Layout.{cmux_frame_builder_plain}
use cmux.Frame.Octets.{
  IsNamed, short_octet, short_octet-is_extended, short_octet_length, address_ea, address_cr,
}
use cmux.Frame.Octets.{address_dlci, control_octet_type, control_octet_poll_final}
use cmux.Frame.Builder.{address_octet, control_octet, cmux_frame_builder, builder_frame_length}
use cmux.Frame.Parser.{parse_frame}
use cmux.Frame.Parser.{get_frame_length, check_valid_frame}
use cmux.Frame.Short.{short_octets, short_octets_info, parse_frame_short, get_frame_length_short}
use cmux.Frame.Short.{check_valid_frame_short}

-- What the parser finds in a frame that the builder made of `info` and `body`.
abbrev pub parsed_info : BuilderFrameInfo → FrameInfo
parsed_info info = record {
  header = frame_flag;
  ea = info.ea;
  cr = info.cr;
  dlci = info.dlci;
  type = info.type;
  poll_final = info.poll_final;
  length = info.length;
  fcs = cmux_crc (header_octets info);
  calculated_fcs = cmux_crc (header_octets info);
  frame_data_index = if ltb 0 info.length then pos 4 else minus_one;
  footer = frame_flag;
}

-- What a caller of the library hands to the builder: a 6-bit DLCI, one of the named types but UI,
-- whose check sequence is computed too early, and a body that one length octet can measure.
pub record IsPlain (info : BuilderFrameInfo) (body : List ℕ) : Type 0 where
  pub dlci_fits : info.dlci < 64
  pub named : IsNamed info.type
  pub not_ui : is_ui info.type ≡ false
  pub short : info.length < 128
  pub bodied : Bodied info.frame_data_body info.length body

module _ (info : BuilderFrameInfo) (body : List ℕ) (plain : IsPlain info body) where
  open plain use {dlci_fits, named, not_ui, bodied}

  pub sized_body : length body ≡ info.length
  sized_body = Bodied-length info.frame_data_body info.length body bodied

  one_octet : short_octet info.length >>> 1 ≡ length body
  one_octet = short_octet_length info.length plain.short ∙ sym sized_body

  small_body : length body < 128
  small_body = omega (arith, plain.short, sized_body)

  one_length :
      header_octets info ≡ address_octet info ∷ control_octet info ∷ short_octet info.length ∷ []
  one_length = rw (le→not_ltb info.length 127 (omega arith))

  read_type : control_type (without_poll_final (control_octet info)) ≡ info.type
  read_type = control_octet_type info.type info.poll_final named

  pub frame-short_frame :
      frame_octets info body (cmux_crc (header_octets info))
      ≡ short_octets frame_flag
          (address_octet info)
          (control_octet info)
          (short_octet info.length)
          body
          (cmux_crc (header_octets info))
          frame_flag
  frame-short_frame = rw (le→not_ltb info.length 127 (omega arith))

  short_info-parsed_info :
      short_octets_info frame_flag
        (address_octet info)
        (control_octet info)
        (short_octet info.length)
        body
        (cmux_crc (header_octets info))
        frame_flag
      ≡ parsed_info info
  short_info-parsed_info = rw (
    address_ea info.ea info.cr info.dlci dlci_fits,
    address_cr info.ea info.cr info.dlci dlci_fits,
    address_dlci info.ea info.cr info.dlci dlci_fits,
    read_type,
    control_octet_poll_final info.type info.poll_final named,
    not_ui,
    sized_body,
    ← one_length,
  )

  plain_layout :
      (block : List ℕ)
      → length block ≡ builder_frame_length info.length
      → cmux_frame_builder info block
        ≡ some (
            short_octets frame_flag
              (address_octet info)
              (control_octet info)
              (short_octet info.length)
              body
              (cmux_crc (header_octets info))
              frame_flag)
  plain_layout block l =
      cmux_frame_builder_plain info body block not_ui bodied l ∙ ap some frame-short_frame

  pub built_size : builder_frame_length info.length ≡ length body + 6
  unfolding builder_frame_length
  built_size = rw (le→not_ltb info.length 127 (omega arith)) (omega (arith, sized_body))

  built_valid :
      (len : ℕ)
      → 6 + length body ≤ len
      → check_valid_frame
          (short_octets frame_flag
            (address_octet info)
            (control_octet info)
            (short_octet info.length)
            body
            (cmux_crc (header_octets info))
            frame_flag)
          len
        ≡ some true
  built_valid len h =
      check_valid_frame_short frame_flag (address_octet info) (control_octet info)
        (short_octet info.length) (cmux_crc (header_octets info)) frame_flag body
        (short_octet-is_extended info.length plain.short) one_octet small_body len refl h
      ∙ rw (read_type, not_ui, ← one_length, ==_refl (cmux_crc (header_octets info)) _ refl)

-- For every plain frame and every block of the length that
-- `cmux_frame_builder_get_frame_length` computes, the builder returns a frame of that length, and
-- of this frame `get_frame_length` finds the length, `check_valid_frame` finds it valid,
-- `parse_frame` reads back every field that went in, with matching check sequences, and the body
-- stands at index 4.
pub parse_frame-cmux_frame_builder :
    (info : BuilderFrameInfo) (body block : List ℕ)
    → IsPlain info body
    → length block ≡ builder_frame_length info.length
    → (frame : List ℕ) × (cmux_frame_builder info block ≡ some frame)
      × (length frame ≡ builder_frame_length info.length)
      × (get_frame_length frame ≡ some (pos (builder_frame_length info.length)))
      × (check_valid_frame frame (builder_frame_length info.length) ≡ some true)
      × (parse_frame frame (builder_frame_length info.length) ≡ some (parsed_info info))
      × (slice frame 4 info.length ≡ some body)
parse_frame-cmux_frame_builder info body block plain l =
    let n = info.length in
    let fcs = cmux_crc (header_octets info) in
    let short = short_octet-is_extended n plain.short in
    let size = built_size info body plain in
    (
      short_octets frame_flag (address_octet info) (control_octet info) (short_octet n) body fcs
          frame_flag,
      plain_layout info body plain block l,
      omega (arith, length-append {0} body (fcs ∷ frame_flag ∷ []), size),
      rw size (
          get_frame_length_short frame_flag (address_octet info) (control_octet info)
            (short_octet n) fcs frame_flag body short (one_octet info body plain)
            (small_body info body plain) refl),
      rw size (built_valid info body plain (length body + 6) (omega arith)),
      rw size (
          parse_frame_short frame_flag (address_octet info) (control_octet info) (short_octet n) fcs
            frame_flag body short (one_octet info body plain) (small_body info body plain)
            (length body + 6) (omega arith)
          ∙ ap some (short_info-parsed_info info body plain)),
      slice_prefix body (fcs ∷ frame_flag ∷ []) n (sym (sized_body info body plain)),
    )
