-- ===== src/Buffer.antt =====
-- lib/cmux/cmux_buffer.h and cmux_buffer.c: octets that come in, and the frames found in them. The
-- ring buffer is lwrb, a library that the code only calls: it is a parameter.
pub mod Ring
pub mod Ingest
pub mod Scan
use cmux.Base.{
  ℕ, zero, suc, ◌+◌, ◌-◌, Bool, if◌then◌else◌, ◌==◌, Option, none, some, List, [], ◌∷◌, drop,
}
use cmux.Base.{◌>>=◌, copy_in, replicate, length, ℤ, pos, negsuc, minus_one}
use cmux.Buffer.Ring.{RingBuffer}
use cmux.Frame.{frame_flag, FrameInfo}
use cmux.Frame.Parser.{parse_frame, get_frame_length, check_valid_frame}

-- A call of `on_control_message`: the frame, the octets of its block from the data pointer on, and
-- the length of the data.
pub record Message : Type 0 where
  pub info : FrameInfo
  pub octets : List ℕ
  pub size : ℕ

-- `(uint8_t *)data + frame_info.frame_data_index`. At index -1, the index of a frame with no data,
-- the pointer stands in front of the block, and nothing may be read there.
abbrev pub octets_from : List ℕ → ℤ → List ℕ
octets_from block (pos index) = drop index block
octets_from block (negsuc n) = []

-- `process_ingress_frame`, but for what it logs
unfoldable pub process_ingress_frame : List ℕ → ℕ → Option Message
process_ingress_frame block len = do
  info ← parse_frame block len
  some
      (record { info = info; octets = octets_from block info.frame_data_index; size = info.length })

module _ (lwrb : RingBuffer) (malloc : ℕ → List ℕ) where
  -- The loop of `scan_ingress_buffer_for_valid_frame` at index `i`, with `left` rounds to go.
  unfoldable pub scan : lwrb.Ring → ℕ → ℕ → ℕ → Option ℤ
  scan ring max_frame_size zero i = some minus_one
  scan ring max_frame_size (suc left) i =
      let rest = scan ring max_frame_size left (i + 1) in
      elim (lwrb.peek ring i 1) [
        | [] ↦ rest
        | header ∷ _ ↦
            if header == frame_flag
            then (do
              let size = max_frame_size - i
              scan_buffer ← copy_in (malloc size) 0 (lwrb.peek ring i size)
              valid ← check_valid_frame scan_buffer size
              if valid then some (pos i) else rest)
            else rest
      ]

  unfoldable pub scan_ingress_buffer_for_valid_frame : lwrb.Ring → Option ℤ
  scan_ingress_buffer_for_valid_frame ring =
      let max_frame_size = lwrb.linear_read_length ring in scan ring max_frame_size max_frame_size 0

  -- The frame at the front of the ring, once its length is known.
  unfoldable pub extract_frame : lwrb.Ring → ℕ → Option (lwrb.Ring × Option Message)
  extract_frame ring frame_length = do
    let (octets, ring') = lwrb.read ring frame_length
    whole_frame ← copy_in (malloc frame_length) 0 octets
    if length octets == frame_length
        then (do
          message ← process_ingress_frame whole_frame frame_length
          some (ring', some message))
        else some (ring', none)

  -- What `process_ingress` does with the index that was found.
  unfoldable pub process_found : lwrb.Ring → ℤ → Option (lwrb.Ring × Option Message)
  process_found ring (negsuc n) = some (ring, none)
  process_found ring (pos buffer_index) = do
    let ring' = lwrb.skip ring buffer_index
    frame_header ← copy_in (replicate 6 0) 0 (lwrb.peek ring' 0 6)
    frame_length ← get_frame_length frame_header
    elim frame_length [ pos n ↦ extract_frame ring' n | negsuc n ↦ some (ring', none) ]

  -- At most one frame is taken out of the ring.
  unfoldable pub process_ingress : lwrb.Ring → Option (lwrb.Ring × Option Message)
  process_ingress ring = do
    index ← scan_ingress_buffer_for_valid_frame ring
    process_found ring index

  -- `ingress_buffer_size` is 128.
  unfoldable pub cmux_buffer_init : lwrb.Ring
  cmux_buffer_init = lwrb.init (malloc 128) 128

  -- The number of octets taken, the ring behind, and the call of `on_control_message`, if any.
  unfoldable pub cmux_buffer_ingest : lwrb.Ring → List ℕ → Option (ℕ × lwrb.Ring × Option Message)
  cmux_buffer_ingest ring octets = do
    let (write_len, written) = lwrb.write ring octets
    (ring', message) ← process_ingress written
    some (write_len, ring', message)
