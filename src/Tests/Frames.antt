-- ===== src/Tests/Frames.antt =====
-- The frames and check sequences of lib/cmux/cmux_frame_builder.c, lib/cmux/cmux_frame_parser.c and
-- lib/cmux/crc.c, run.
use cmux.Base.{
  ℕ, ◌≡◌, ◌≢◌, ◌≤◌, ◌+◌, refl, arith, true, false, Bool, none, some, List, [], ◌∷◌, ◌++◌, length,
  slice, pos, IsBytes,
}
use cmux.Crc.{cmux_crc}
use cmux.Crc.Reference.{bitwise_crc, cmux_crc-eq-bitwise_crc}
use cmux.Crc.Detect.{cmux_crc_detects_octet}
use cmux.Frame.{BuilderFrameInfo, ui, frame_flag}
use cmux.Frame.Builder.{cmux_frame_builder, builder_frame_length}
use cmux.Frame.Parser.{check_valid_frame, get_frame_length, parse_frame, read_length}
use cmux.Frame.Layout.{cmux_frame_builder_layout, frame_octets, header_octets, checked_octets}
use cmux.Frame.LongFrames.{misread_length, long_frame_rejected}
use cmux.Frame.RoundTrip.{parsed_info, parse_frame-cmux_frame_builder}
use cmux.Frame.Accepts.{Agrees, check_valid_frame-Agrees}
use cmux.Frame.Unsafe.{frame_reads}
use cmux.Buffer.Ingest.{built_frame}
use cmux.Tests.Data.{zeroed, hello, hello_frame, hello_frame-IsPlain}

parse_frame-cmux_frame_builder_example :
    (frame : List ℕ) × (cmux_frame_builder hello_frame (zeroed 11) ≡ some frame)
    × (length frame ≡ builder_frame_length 5)
    × (get_frame_length frame ≡ some (pos (builder_frame_length 5)))
    × (check_valid_frame frame (builder_frame_length 5) ≡ some true)
    × (parse_frame frame (builder_frame_length 5) ≡ some (parsed_info hello_frame))
    × (slice frame 4 5 ≡ some hello)
unfolding builder_frame_length
parse_frame-cmux_frame_builder_example =
    parse_frame-cmux_frame_builder hello_frame hello (zeroed 11) hello_frame-IsPlain refl

-- A frame of type UI, whose check sequence is taken over the zeros in the block.
abbrev ui_frame : BuilderFrameInfo
ui_frame = record hello_frame { type = ui }

cmux_frame_builder_layout_example :
    (cmux_frame_builder ui_frame (zeroed 4 ++ (zeroed 5 ++ zeroed 2))
      ≡ some (
          frame_octets ui_frame hello
            (cmux_crc (checked_octets ui (header_octets ui_frame) (zeroed 5)))))
    × (length (zeroed 4 ++ (zeroed 5 ++ zeroed 2)) ≡ builder_frame_length 5)
cmux_frame_builder_layout_example =
    cmux_frame_builder_layout ui_frame hello (zeroed 4) (zeroed 5) (zeroed 2) (refl, refl) refl refl
      refl

abbrev long_frame : BuilderFrameInfo
long_frame = record hello_frame { length = 128; frame_data_body = some (zeroed 128) }

long_frame_rejected_example :
    (frame : List ℕ) × (cmux_frame_builder long_frame (zeroed 135) ≡ some frame)
    × (length frame ≡ builder_frame_length 128)
    × (read_length frame ≡ some (4, misread_length 128))
    × (128 + 128 ≤ misread_length 128)
    × (check_valid_frame frame (builder_frame_length 128) ≡ some false)
unfolding builder_frame_length
long_frame_rejected_example =
    long_frame_rejected long_frame (zeroed 128) (zeroed 135) refl (refl, refl) (omega arith)
      (omega arith) refl

abbrev hello_octets : List ℕ
hello_octets = built_frame hello_frame hello

hello_octets-IsBytes : IsBytes hello_octets
unfolding cmux_crc cmux.Crc.crc_loop
hello_octets-IsBytes = (
  omega arith,
  (
    omega arith,
    (
      omega arith,
      (
        omega arith,
        (
          omega arith,
          (
            omega arith,
            (omega arith, (omega arith, (omega arith, (omega arith, (omega arith, tt))))),
          ),
        ),
      ),
    ),
  ),
)

check_valid_frame-Agrees_example : Agrees hello_octets 11
unfolding builder_frame_length
check_valid_frame-Agrees_example =
    check_valid_frame-Agrees hello_octets 11 hello_octets-IsBytes
      (cmux.Buffer.Ingest.built_valid hello_frame hello hello_frame-IsPlain).0

frame_reads_example :
    ((b : Bool) × (check_valid_frame hello_octets 11 ≡ some b))
    × (check_valid_frame (frame_flag ∷ 7 ∷ []) 2 ≡ none)
    × (parse_frame (frame_flag ∷ 7 ∷ 239 ∷ 3 ∷ 104 ∷ []) 5 ≡ none)
frame_reads_example =
    frame_reads hello_octets 11 (7 ∷ []) frame_flag 7 239 3 (104 ∷ []) (omega arith) (omega arith)
      (omega arith) refl refl (omega arith) (omega arith)

cmux_crc-eq-bitwise_crc_example : cmux_crc (7 ∷ 63 ∷ 1 ∷ []) ≡ bitwise_crc (7 ∷ 63 ∷ 1 ∷ [])
cmux_crc-eq-bitwise_crc_example =
    cmux_crc-eq-bitwise_crc (7 ∷ 63 ∷ 1 ∷ []) (omega arith, (omega arith, (omega arith, tt)))

cmux_crc_detects_octet_example : cmux_crc (7 ∷ 63 ∷ 1 ∷ []) ≢ cmux_crc (7 ∷ 62 ∷ 1 ∷ [])
cmux_crc_detects_octet_example =
    cmux_crc_detects_octet (7 ∷ []) (1 ∷ []) 63 62 (omega arith, tt) (omega arith, tt) (omega arith)
      (omega arith) λ e. omega (arith, e)
