-- ===== src/Frame/Short.antt =====
-- lib/cmux/cmux_frame_parser.c on a frame with one length octet.
use mathlib.Core.List.{append_assoc}
use cmux.Base.{
  ℕ, suc, ◌+◌, ◌-◌, ◌≤◌, ◌<◌, ◌≡◌, refl, arith, ltb, lt→ltb, le→leb, le→not_ltb, ==_refl, ◌>>>◌,
  u16,
}
use cmux.Base.{if◌then◌else◌, some, List, [], ◌∷◌, ◌++◌, length, length-append, Bool, true, false}
use cmux.Base.{Bool-cases, inl, inr, read, pos, minus_one, ◌==◌}
use cmux.Base.Memory.{slice_prefix, read_past}
use cmux.Crc.{cmux_crc}
use cmux.Frame.{ControlType, control_type, is_ui, frame_flag, FrameInfo, no_frame_info, has_bits}
use cmux.Frame.{without_poll_final, is_extended}
use cmux.Frame.Layout.{checked_octets}
use cmux.Frame.Parser.{
  parser_fcs, parse_header, parse_length, parse_body, parse_footer, parse_frame, Parsing,
}
use cmux.Frame.Parser.{get_frame_length, check_trailer, check_valid_frame, read_length}

-- The check sequence over what the block holds behind its first octet.
pub parser_fcs_lem :
    (type : ControlType) (n index flag : ℕ) (header body back : List ℕ)
    → length body ≡ n
    → index ≡ suc (length header)
    → parser_fcs type index n (flag ∷ (header ++ (body ++ back)))
      ≡ some (cmux_crc (checked_octets type header body))
unfolding parser_fcs
parser_fcs_lem type n index flag header body back e i = elim (Bool-cases (is_ui type)) [
  | inl u ↦ rw (
    u,
    ← append_assoc header body back,
    slice_prefix (header ++ body) back (index - 1 + n)
        (omega (arith, length-append {0} header body)),
  )
  | inr p ↦ rw (p, slice_prefix header (body ++ back) (index - 1) (omega arith))
]

-- The fields that the three octets of the basic header give.
abbrev pub parsed_header : ℕ → ℕ → ℕ → FrameInfo
parsed_header flag address control = record no_frame_info {
  header = flag;
  ea = has_bits address 0x01;
  cr = has_bits address 0x02;
  dlci = address >>> 2;
  type = control_type (without_poll_final control);
  poll_final = has_bits control 0x10;
}

-- A frame with one length octet, and what is read from it.
abbrev pub short_octets : ℕ → ℕ → ℕ → ℕ → List ℕ → ℕ → ℕ → List ℕ
short_octets flag address control low body fcs foot =
    flag ∷ address ∷ control ∷ low ∷ (body ++ (fcs ∷ foot ∷ []))

abbrev pub short_octets_info : ℕ → ℕ → ℕ → ℕ → List ℕ → ℕ → ℕ → FrameInfo
short_octets_info flag address control low body fcs foot = record {
  header = flag;
  ea = has_bits address 0x01;
  cr = has_bits address 0x02;
  dlci = address >>> 2;
  type = control_type (without_poll_final control);
  poll_final = has_bits control 0x10;
  length = length body;
  fcs = fcs;
  calculated_fcs = cmux_crc (
      checked_octets (control_type (without_poll_final control)) (address ∷ control ∷ low ∷ [])
        body);
  frame_data_index = if ltb 0 (length body) then pos 4 else minus_one;
  footer = foot;
}

pub parse_frame_steps :
    (frame : List ℕ) (len : ℕ) {a b c : Parsing} {d : FrameInfo}
    → parse_header frame len ≡ some a
    → parse_length frame len a ≡ some b
    → parse_body frame len b ≡ some c
    → parse_footer frame len c ≡ some d
    → parse_frame frame len ≡ some d
unfolding parse_frame
parse_frame_steps frame len p q r s = rw (p, q, r, s)

push_if : (test b : Bool) → (if test then some b else some false) ≡ some (if test then b else false)
push_if true b = refl
push_if false b = refl

module _ (flag address control low fcs foot : ℕ) (body : List ℕ) (short : is_extended low ≡ false)
    (sized : low >>> 1 ≡ length body) (small : length body < 128) where
  abbrev short_frame : List ℕ
  short_frame = short_octets flag address control low body fcs foot

  read_length_short : read_length short_frame ≡ some (3, length body)
  unfolding read_length
  read_length_short = rw (short, sized)

  parse_length_short :
      (len : ℕ) (info : FrameInfo)
      → 5 ≤ len
      → parse_length short_frame len (2, info) ≡ some (3, record info { length = length body })
  unfolding parse_length
  parse_length_short len info h = rw (le→leb _ _ h, read_length_short)

  pub read_fcs : (i : ℕ) → i ≡ 4 + length body → read short_frame i ≡ some fcs
  read_fcs i e =
      read_past (flag ∷ address ∷ control ∷ low ∷ body) (fcs ∷ foot ∷ []) i 0 (omega (arith, e))

  pub read_foot : (i : ℕ) → i ≡ 5 + length body → read short_frame i ≡ some foot
  read_foot i e =
      read_past (flag ∷ address ∷ control ∷ low ∷ body) (fcs ∷ foot ∷ []) i 1 (omega (arith, e))

  parse_header_short :
      (len : ℕ)
      → 3 ≤ len
      → parse_header short_frame len ≡ some (2, parsed_header flag address control)
  unfolding parse_header
  parse_header_short len h = rw (le→leb _ _ h)

  parse_body_short :
      (info : FrameInfo) (len : ℕ)
      → 4 + length body < len
      → parse_body short_frame len (3, record info { length = length body })
        ≡ some (
          4 + length body,
          record info {
            length = length body;
            frame_data_index = if ltb 0 (length body) then pos 4 else minus_one;
            fcs = fcs;
            calculated_fcs =
                cmux_crc (checked_octets info.type (address ∷ control ∷ low ∷ []) body);
          },
        )
  unfolding parse_body
  parse_body_short info len h =
      rw
        (
          lt→ltb (3 + length body) len (omega arith),
          parser_fcs_lem info.type (length body) 4 flag (address ∷ control ∷ low ∷ []) body
              (fcs ∷ foot ∷ []) refl refl,
          read_fcs (u16 (4 + length body)) (omega arith),
        )
        (let e : u16 (4 + length body) ≡ 4 + length body = omega arith in rw e)

  parse_footer_short :
      (info : FrameInfo) (len : ℕ)
      → 5 + length body < len
      → parse_footer short_frame len (4 + length body, info) ≡ some (record info { footer = foot })
  unfolding parse_footer
  parse_footer_short info len h = rw (
    lt→ltb (4 + length body + 1) len (omega arith),
    read_foot (u16 (4 + length body + 1)) (omega arith),
  )

  -- The whole parse of such a frame.
  pub parse_frame_short :
      (len : ℕ)
      → 5 + length body < len
      → parse_frame short_frame len
        ≡ some (short_octets_info flag address control low body fcs foot)
  parse_frame_short len h =
      parse_frame_steps short_frame len (parse_header_short len (omega arith))
        (parse_length_short len (parsed_header flag address control) (omega arith))
        (parse_body_short (parsed_header flag address control) len (omega arith))
        (parse_footer_short _ len h)

  check_trailer_short :
      (type : ControlType)
      → check_trailer short_frame type 4 (length body)
        ≡ some (
            if fcs == cmux_crc (checked_octets type (address ∷ control ∷ low ∷ []) body)
            then foot == frame_flag
            else false)
  unfolding check_trailer
  check_trailer_short type =
      rw
        (
          parser_fcs_lem type (length body) 4 flag (address ∷ control ∷ low ∷ []) body
              (fcs ∷ foot ∷ []) refl refl,
          read_fcs (u16 (4 + length body)) (omega arith),
          read_foot (u16 (4 + length body + 1)) (omega arith),
        )
        (push_if _ (foot == frame_flag))

  -- `get_frame_length` and `check_valid_frame` of such a frame.
  pub get_frame_length_short :
      flag ≡ frame_flag → get_frame_length short_frame ≡ some (pos (length body + 6))
  unfolding get_frame_length
  get_frame_length_short e = ground (arith, short, sized)

  pub check_valid_frame_short :
      (len : ℕ)
      → flag ≡ frame_flag
      → 6 + length body ≤ len
      → check_valid_frame short_frame len
        ≡ some (
            if fcs
              == cmux_crc (
                  checked_octets
                    (control_type (without_poll_final control))
                    (address ∷ control ∷ low ∷ [])
                    body)
            then foot == frame_flag
            else false)
  unfolding check_valid_frame
  check_valid_frame_short len e h =
      rw
        (
          le→not_ltb 1 len (omega arith),
          ==_refl flag frame_flag e,
          read_length_short,
          le→not_ltb (4 + length body + 2) len (omega arith),
        )
        (check_trailer_short (control_type (without_poll_final control)))
