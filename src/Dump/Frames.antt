-- ===== src/Dump/Frames.antt =====
-- What lib/cmux/cmux_frame_dump.c logs of a frame that the other end built.
use cmux.Base.{ℕ}
use cmux.Base.{Bool, List, ◌∷◌, length}
use cmux.Base.{pos}
use cmux.Frame.{get_frame_type, BuilderFrameInfo}
use cmux.Dump.{Log, frame, frame_body, log_octets}

-- With no warning: the frame, and the lines of its data.
abbrev pub logged : BuilderFrameInfo → Bool → List (List ℕ) → List Log
logged info direction_incoming body_lines =
    frame direction_incoming info.dlci info.ea info.cr info.type (get_frame_type info.type)
      info.poll_final info.length
    ∷ frame_body (pos 4) info.length
    ∷ log_octets body_lines
