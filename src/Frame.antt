-- ===== src/Frame.antt =====
-- lib/cmux/cmux_frame_type.h, cmux_frame_type.c, cmux_frame_info.h and the record of
-- cmux_frame_builder.h: what a frame of the multiplexer is made of.
pub mod Builder
pub mod Parser
pub mod Layout
pub mod Octets
pub mod Short
pub mod RoundTrip
pub mod Bytes
pub mod LongFrames
pub mod Valid
pub mod Accepted
pub mod Accepts
pub mod Extends
pub mod Unsafe
use Prim.Native.String.{String}
use cmux.Base.{ℕ, ◌≡◌, refl, ◌<<◌, ◌>>>◌, bit_and, bit_or, u8, u16, Bool, true, false, not, ◌==◌}
use cmux.Base.{if◌then◌else◌, Option, none, some, List, ℤ, pos, arith}

-- `enum CONTROL_TYPE`. The code casts octets to it, so that any other value occurs as well.
pub data ControlType : Type 0 where
  sabm ua dm disc uih ui : ControlType
  other : ℕ → ControlType

abbrev pub control_code : ControlType → ℕ
control_code sabm = 0x2f
control_code ua = 0x63
control_code dm = 0x0f
control_code disc = 0x43
control_code uih = 0xef
control_code ui = 0x03
control_code (other n) = n

-- `(enum CONTROL_TYPE)n`
unfoldable pub control_type : ℕ → ControlType
control_type n =
    if n == 0x2f
    then sabm
    else if n == 0x63
    then ua
    else if n == 0x0f
    then dm
    else if n == 0x43
    then disc
    else if n == 0xef
    then uih
    else if n == 0x03
    then ui
    else other n

-- `type == UI`
abbrev pub is_ui : ControlType → Bool
is_ui t = control_code t == 0x03

unfoldable pub get_frame_type : ControlType → String
get_frame_type sabm = "SABM"
get_frame_type ua = "UA"
get_frame_type dm = "DM"
get_frame_type disc = "DISC"
get_frame_type uih = "UIH"
get_frame_type _ = "UNKNOWN"

-- `CMUX_FRAME_HEADER_FOOTER`, `CONTROL_TYPE_POLL_FINAL` and the sizes of the parts of a frame
abbrev pub frame_flag : ℕ
frame_flag = 0xf9

abbrev pub poll_final_bit : ℕ
poll_final_bit = 0x10

abbrev pub header_size : ℕ
header_size = 3

abbrev pub footer_size : ℕ
footer_size = 2

abbrev pub length_size : ℕ
length_size = 1

abbrev pub extended_length_size : ℕ
extended_length_size = 2

-- `struct frame_info_t`
pub record FrameInfo : Type 0 where
  pub header : ℕ
  pub ea : Bool
  pub cr : Bool
  pub dlci : ℕ
  pub type : ControlType
  pub poll_final : Bool
  pub length : ℕ
  pub fcs : ℕ
  pub calculated_fcs : ℕ
  pub frame_data_index : ℤ
  pub footer : ℕ

-- `memset(frame_info, 0, sizeof(struct frame_info_t))`
abbrev pub no_frame_info : FrameInfo
no_frame_info = record {
  header = 0;
  ea = false;
  cr = false;
  dlci = 0;
  type = other 0;
  poll_final = false;
  length = 0;
  fcs = 0;
  calculated_fcs = 0;
  frame_data_index = pos 0;
  footer = 0;
}

-- `struct builder_frame_info_t`. The pointer to the body is `none` for NULL, else the octets there.
pub record BuilderFrameInfo : Type 0 where
  pub ea : Bool
  pub cr : Bool
  pub dlci : ℕ
  pub type : ControlType
  pub poll_final : Bool
  pub length : ℕ
  pub frame_data_body : Option (List ℕ)

-- `(x & mask) != 0`
abbrev pub has_bits : ℕ → ℕ → Bool
has_bits x mask = not (bit_and x mask == 0)

-- `frame[2] & ~CONTROL_TYPE_POLL_FINAL`, of an octet
abbrev pub without_poll_final : ℕ → ℕ
without_poll_final octet = bit_and octet 0xef

-- `uint8_t extended_length = (frame[3] & 0x01) == 0`
abbrev pub is_extended : ℕ → Bool
is_extended low = bit_and low 0x01 == 0

-- `length = (frame[3] >> 1) | frame[4] << 8`, in a uint16_t
abbrev pub extended_length : ℕ → ℕ → ℕ
extended_length low high = u16 (bit_or (low >>> 1) (high << 8))
