-- ===== src/Frame/Builder.antt =====
-- lib/cmux/cmux_frame_builder.c. The frame is a block of memory with what `malloc` left in it, and
-- a write or a read outside the block is `none`.
use cmux.Base.{ℕ, ◌+◌, ◌-◌, ◌<<◌, ◌>>>◌, bit_and, bit_or, u8, ltb}
use cmux.Base.{if◌then◌else◌, Option, none, some, List, ◌>>=◌, write, slice, copy_in}
use cmux.Crc.{cmux_crc}
use cmux.Frame.{ControlType, control_code, is_ui, frame_flag, poll_final_bit, header_size}
use cmux.Frame.{footer_size, length_size, extended_length_size, BuilderFrameInfo}

-- `cmux_frame_builder_get_frame_length`, in a size_t that these sizes cannot fill
unfoldable pub builder_frame_length : ℕ → ℕ
builder_frame_length frame_body_size =
    header_size
    + (if ltb 127 frame_body_size then extended_length_size else length_size)
    + frame_body_size
    + footer_size

abbrev pub address_octet : BuilderFrameInfo → ℕ
address_octet info = u8 (
    bit_or (bit_or (if info.ea then 0x01 else 0x00) (if info.cr then 0x02 else 0x00))
      (info.dlci << 2))

abbrev pub control_octet : BuilderFrameInfo → ℕ
control_octet info =
    u8 (bit_or (control_code info.type) (if info.poll_final then poll_final_bit else 0x00))

-- The length, from `frame[3]` on, and the index behind it.
unfoldable pub write_length : ℕ → List ℕ → Option (ℕ × List ℕ)
write_length n frame =
    if ltb 127 n
    then (do
      low ← write frame 3 (u8 (bit_and n 0x7f << 1))
      high ← write low 4 (u8 (bit_and n 0x7f80 >>> 7))
      some (5, high))
    else (do low ← write frame 3 (u8 (bit_or (bit_and n 0x7f << 1) 0x01)); some (4, low))

-- `calculated_fcs`: of a UI frame over the body as well, which is not copied in yet.
unfoldable pub builder_fcs : ControlType → ℕ → ℕ → List ℕ → Option ℕ
builder_fcs type index n frame = do
  octets ← (if is_ui type then slice frame 1 (index - 1 + n) else slice frame 1 (index - 1))
  some (cmux_crc octets)

-- `memcpy`, where there is a body
unfoldable pub write_body : Option (List ℕ) → ℕ → ℕ → List ℕ → Option (List ℕ)
write_body none index n frame = some frame
write_body (some body) index n frame =
    if ltb 0 n then (do octets ← slice body 0 n; copy_in frame index octets) else some frame

unfoldable pub cmux_frame_builder : BuilderFrameInfo → List ℕ → Option (List ℕ)
unfolding write_length builder_fcs write_body
cmux_frame_builder info frame = do
  frame0 ← write frame 0 frame_flag
  frame1 ← write frame0 1 (address_octet info)
  frame2 ← write frame1 2 (control_octet info)
  (index, frame3) ← write_length info.length frame2
  calculated_fcs ← builder_fcs info.type index info.length frame3
  frame4 ← write_body info.frame_data_body index info.length frame3
  frame5 ← write frame4 (index + info.length) calculated_fcs
  write frame5 (index + info.length + 1) frame_flag
