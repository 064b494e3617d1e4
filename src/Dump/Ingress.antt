-- ===== src/Dump/Ingress.antt =====
-- `process_ingress_frame` of lib/cmux/cmux_buffer.c with its two calls that log the frame, which are in
-- lib/cmux/cmux_frame_dump.c.
use cmux.Base.{ℕ, u16}
use cmux.Base.{true, Option, some, List, ◌++◌, length, ◌>>=◌}
use cmux.Frame.Parser.{parse_frame}
use cmux.Buffer.{Message, octets_from}
use cmux.Dump.{Log, log_octets, log_buffer_hexdump, hexdump_frame_info}

module _ (pointer_size : ℕ) where
  -- The messages, and the call of `on_control_message`. The array of the dump is not initialised, in
  -- either call.
  unfoldable pub process_ingress_frame_logged :
      ℕ → List ℕ → ℕ → List ℕ → Option (List Log × Message)
  process_ingress_frame_logged buffer block len temp_buffer = do
    lines ← log_buffer_hexdump pointer_size buffer block 0 (u16 len) temp_buffer
    info ← parse_frame block len
    messages ← hexdump_frame_info pointer_size buffer block info true temp_buffer
    some (
      log_octets lines ++ messages,
      record { info = info; octets = octets_from block info.frame_data_index; size = info.length },
    )
