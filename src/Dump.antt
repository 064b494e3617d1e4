-- ===== src/Dump.antt =====
-- lib/cmux/cmux_frame_dump.h and cmux_frame_dump.c: the log of the octets of a frame, and of what
-- they mean.
pub mod Text
pub mod Lines
pub mod Beyond
pub mod Shows
pub mod Overflow
pub mod Frames
pub mod Ingress
use cmux.Base.{
  ℕ, zero, suc, ◌+◌, ◌-◌, ◌*◌, ◌/◌, ◌%◌, bit_and, u16, ltb, leb, ◌==◌, ◌&&◌, not, if◌then◌else◌,
}
use cmux.Base.{
  Bool, Option, none, some, List, [], ◌∷◌, ◌++◌, length, replicate, ◌>>=◌, read, slice, copy_in,
}
use cmux.Base.{ℤ, pos, negsuc}
use Prim.Native.String.{String}
use cmux.Frame.{ControlType, get_frame_type, frame_flag, FrameInfo}
use cmux.Frame.Parser.{parse_frame}
use cmux.Service.{cmux_service_decode, no_service}
use cmux.Buffer.{octets_from}

-- `BYTES_PER_LINE`
abbrev pub bytes_per_line : ℕ
bytes_per_line = 16

-- The text that `sprintf` writes, as octets: `%X` of a number of at most so many digits, `%08X`, and
-- `%02X` of an octet.
abbrev pub hex_digit : ℕ → ℕ
hex_digit d = if ltb d 10 then 48 + d else 55 + d

abbrev pub hex : ℕ → ℕ → List ℕ
hex zero v = []
hex (suc digits) v =
    let front = hex digits (v / 16) in (if ltb v 16 then [] else front) ++ (hex_digit (v % 16) ∷ [])

abbrev pub padded_hex : ℕ → ℕ → List ℕ
padded_hex digits v = let text = hex digits v in replicate (8 - length text) 48 ++ text

abbrev pub hex_octet : ℕ → List ℕ
hex_octet v = hex_digit (v / 16) ∷ hex_digit (v % 16) ∷ []

-- `isprint`, of the C locale, for an octet as an unsigned number
abbrev pub isprint : ℕ → Bool
isprint v = leb 32 v && leb v 126

abbrev pub printed : ℕ → ℕ
printed v = if isprint v then v else 46

-- The loop over the columns of a line, at index `i`, with so many rounds to go.
unfoldable pub columns : ℕ → ℕ → ℕ → List ℕ → Option (List ℕ)
columns zero i bytes_cur_line ptr_line = some []
columns (suc left) i bytes_cur_line ptr_line = do
  column ←
      if ltb i bytes_cur_line
      then (do v ← read ptr_line i; some (32 ∷ hex_octet v))
      else some (32 ∷ 32 ∷ 32 ∷ [])
  more ← columns left (i + 1) bytes_cur_line ptr_line
  some ((if bit_and i 7 == 0 then 32 ∷ [] else []) ++ (column ++ more))

-- The loop over the characters behind them.
unfoldable pub characters : ℕ → ℕ → List ℕ → Option (List ℕ)
characters zero i ptr_line = some []
characters (suc left) i ptr_line = do
  v ← read ptr_line i
  more ← characters left (i + 1) ptr_line
  some (printed v ∷ more)

-- `sizeof(hd_buffer)`, for pointers of so many octets
abbrev pub hd_buffer_size : ℕ → ℕ
hd_buffer_size pointer_size =
    pointer_size + 3 + 10 + 3 + bytes_per_line * 3 + 3 + 1 + bytes_per_line + 1 + 3

-- `(bytes_cur_line + 3) / 4 * 4`
abbrev pub rounded_up : ℕ → ℕ
rounded_up n = (n + 3) / 4 * 4

module _ (pointer_size : ℕ) where
  -- One round of the loop: the text of the line at `buffer_ptr`, which has to fit into `hd_buffer`
  -- with the zero behind it.
  unfoldable pub line_text : ℕ → ℕ → ℕ → List ℕ → Option (List ℕ)
  line_text buffer_ptr offset bytes_cur_line ptr_line = do
    let digits = pointer_size * 2
    middle ← columns bytes_per_line 0 bytes_cur_line ptr_line
    last ← characters bytes_cur_line 0 ptr_line
    let hd_buffer =
        hex digits buffer_ptr
        ++ (32
            ∷ 40
            ∷ (padded_hex digits offset
                ++ (41 ∷ (middle ++ (32 ∷ 32 ∷ 124 ∷ (last ++ (124 ∷ [])))))))
    if ltb (length hd_buffer) (hd_buffer_size pointer_size) then some hd_buffer else none

  -- The `do` loop, with `buff_len` octets left at `offset` of the block at address `buffer`: the
  -- lines that are logged. The first octet that is dumped stands at `start`. A round takes an octet
  -- at least, so that `buff_len` rounds are enough.
  unfoldable pub dump_loop : ℕ → ℕ → List ℕ → ℕ → ℕ → ℕ → List ℕ → Option (List (List ℕ))
  dump_loop zero buffer block start offset buff_len temp_buffer = some []
  dump_loop (suc rounds) buffer block start offset buff_len temp_buffer = do
    let bytes_cur_line = if ltb bytes_per_line buff_len then bytes_per_line else buff_len
    source ← slice block offset (rounded_up bytes_cur_line)
    ptr_line ← copy_in temp_buffer 0 source
    text ← line_text (buffer + offset) (offset - start) bytes_cur_line ptr_line
    more ←
        if buff_len - bytes_cur_line == 0
        then some []
        else dump_loop rounds buffer block start (offset + bytes_cur_line)
            (buff_len - bytes_cur_line) ptr_line
    some (text ∷ more)

  -- The octets from `start` on, of a block at address `buffer`. `temp_buffer` is what the array
  -- holds that is not initialised.
  unfoldable pub log_buffer_hexdump : ℕ → List ℕ → ℕ → ℕ → List ℕ → Option (List (List ℕ))
  log_buffer_hexdump buffer block start buff_len temp_buffer =
      if buff_len == 0
      then some []
      else dump_loop buff_len buffer block start start buff_len temp_buffer

-- What is logged: the arguments of each message.
pub data Log : Type 0 where
  octets : List ℕ → Log
  invalid_frame_header : ℕ → Log
  unsupported_extended_address : Bool → Log
  frame : Bool → ℕ → Bool → Bool → ControlType → String → Bool → ℕ → Log
  frame_body : ℤ → ℕ → Log
  fcs_do_not_match : ℕ → ℕ → Log
  invalid_frame_footer : ℕ → Log

abbrev pub log_if : Bool → Log → List Log
log_if b message = if b then message ∷ [] else []

abbrev pub log_octets : List (List ℕ) → List Log
log_octets [] = []
log_octets (text ∷ texts) = octets text ∷ log_octets texts

module _ (pointer_size : ℕ) where
  -- The data of a frame with any. An index below zero stands in front of the block.
  unfoldable pub log_body : ℕ → List ℕ → FrameInfo → List ℕ → Option (List Log)
  log_body buffer block info temp_buffer =
      if ltb 0 info.length
      then elim info.frame_data_index [
        | pos index ↦ do
          lines ← log_buffer_hexdump pointer_size buffer block index info.length temp_buffer
          some (frame_body (pos index) info.length ∷ log_octets lines)
        | negsuc n ↦ none
      ]
      else some []

  unfoldable pub hexdump_frame_info : ℕ → List ℕ → FrameInfo → Bool → List ℕ → Option (List Log)
  hexdump_frame_info buffer block info direction_incoming temp_buffer = do
    body ← log_body buffer block info temp_buffer
    decoded ←
        if info.dlci == 0 && ltb 0 info.length
        then cmux_service_decode (some (octets_from block info.frame_data_index)) info.length
        else some no_service
    let before =
        log_if (not (info.header == frame_flag)) (invalid_frame_header info.header)
        ++ log_if (not info.ea) (unsupported_extended_address info.ea)
    let line =
        frame direction_incoming info.dlci info.ea info.cr info.type (get_frame_type info.type)
          info.poll_final info.length
    let behind =
        log_if (not (info.fcs == info.calculated_fcs))
          (fcs_do_not_match info.fcs info.calculated_fcs)
        ++ log_if (not (info.footer == frame_flag)) (invalid_frame_footer info.footer)
    some (before ++ (line ∷ (body ++ behind)))

  -- The length goes into a uint16_t for the octets.
  unfoldable pub hexdump_frame : ℕ → List ℕ → ℕ → Bool → List ℕ → Option (List Log)
  hexdump_frame buffer block len direction_incoming temp_buffer = do
    lines ← log_buffer_hexdump pointer_size buffer block 0 (u16 len) temp_buffer
    info ← parse_frame block len
    messages ← hexdump_frame_info buffer block info direction_incoming temp_buffer
    some (log_octets lines ++ messages)
