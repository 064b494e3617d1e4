-- ===== src/Frame/Parser.antt =====
-- lib/cmux/cmux_frame_parser.c. The frame is a block of memory and `len` the length that the
-- caller says it has; a read outside the block is `none`.
use cmux.Base.{ℕ, ◌+◌, ◌-◌, ◌>>>◌, u16, Bool, false, ltb, leb, ◌==◌}
use cmux.Base.{if◌then◌else◌, Option, some, List, ◌>>=◌, read, slice, ℤ, pos, minus_one}
use cmux.Crc.{cmux_crc}
use cmux.Frame.{ControlType, control_type, is_ui, frame_flag, header_size, footer_size, length_size}
use cmux.Frame.{extended_length_size, FrameInfo, no_frame_info, has_bits, without_poll_final}
use cmux.Frame.{is_extended, extended_length}

-- What the parser carries on: `frame_index` and `frame_info`.
abbrev pub Parsing : Type 0
Parsing = ℕ × FrameInfo

-- "read basic header which is constant 3 bytes"
unfoldable pub parse_header : List ℕ → ℕ → Option Parsing
parse_header frame len =
    if leb 3 len
    then (do
      flag ← read frame 0
      address ← read frame 1
      control ← read frame 2
      some (
        2,
        record no_frame_info {
          header = flag;
          ea = has_bits address 0x01;
          cr = has_bits address 0x02;
          dlci = address >>> 2;
          type = control_type (without_poll_final control);
          poll_final = has_bits control 0x10;
        },
      ))
    else some (0, no_frame_info)

-- The length that stands from `frame[3]` on, and the index of its last octet.
unfoldable pub read_length : List ℕ → Option (ℕ × ℕ)
read_length frame = do
  low ← read frame 3
  if is_extended low
      then (do high ← read frame 4; some (4, extended_length low high))
      else some (3, low >>> 1)

-- "read length which can be 1 or 2 bytes"
unfoldable pub parse_length : List ℕ → ℕ → Parsing → Option Parsing
parse_length frame len (index, info) =
    if leb 5 len
    then (do (index', n) ← read_length frame; some (index', record info { length = n }))
    else some (index, info)

-- The check sequence over the frame behind its first flag, up to `index`, or of a UI frame up to
-- the end of the body.
unfoldable pub parser_fcs : ControlType → ℕ → ℕ → List ℕ → Option ℕ
parser_fcs type index n frame = do
  octets ← (if is_ui type then slice frame 1 (index - 1 + n) else slice frame 1 (index - 1))
  some (cmux_crc octets)

-- "read frame body + fcs". In the test `frame_index - 1 + length + 1` is an int: -1 cancels.
unfoldable pub parse_body : List ℕ → ℕ → Parsing → Option Parsing
parse_body frame len (index, info) =
    if ltb (index + info.length) len
    then (do
      let index' = u16 (index + 1)
      calculated ← parser_fcs info.type index' info.length frame
      let index'' = u16 (index' + info.length)
      frame_fcs ← read frame index''
      some (
        index'',
        record info {
          frame_data_index = if ltb 0 info.length then pos index' else minus_one;
          fcs = frame_fcs;
          calculated_fcs = calculated;
        },
      ))
    else some (index, info)

-- "read frame footer"
unfoldable pub parse_footer : List ℕ → ℕ → Parsing → Option FrameInfo
parse_footer frame len (index, info) =
    if ltb (index + 1) len
    then (do flag ← read frame (u16 (index + 1)); some (record info { footer = flag }))
    else some info

unfoldable pub parse_frame : List ℕ → ℕ → Option FrameInfo
parse_frame frame len = do
  header ← parse_header frame len
  sized ← parse_length frame len header
  body ← parse_body frame len sized
  parse_footer frame len body

-- `get_frame_length`, whose sum is a uint16_t before the size of the footer is added
unfoldable pub get_frame_length : List ℕ → Option ℤ
get_frame_length frame = do
  flag ← read frame 0
  if flag == frame_flag
      then (do
        low ← read frame 3
        if is_extended low
            then (do
              high ← read frame 4
              some (
                  pos (
                    u16 (header_size + extended_length_size + extended_length low high)
                    + footer_size)))
            else some (pos (u16 (header_size + length_size + (low >>> 1)) + footer_size)))
      else some minus_one

-- The end of `check_valid_frame`: the check sequence and the closing flag.
unfoldable pub check_trailer : List ℕ → ControlType → ℕ → ℕ → Option Bool
check_trailer frame type index n = do
  calculated ← parser_fcs type index n frame
  frame_fcs ← read frame (u16 (index + n))
  if frame_fcs == calculated
      then (do footer ← read frame (u16 (index + n + 1)); some (footer == frame_flag))
      else some false

unfoldable pub check_valid_frame : List ℕ → ℕ → Option Bool
check_valid_frame frame len = if ltb len 1 then some false else (do
  flag ← read frame 0
  if flag == frame_flag
      then (do
        control ← read frame 2
        (last, n) ← read_length frame
        let index = last + 1
        if ltb len (index + n + 2)
            then some false
            else check_trailer frame (control_type (without_poll_final control)) index n)
      else some false)
