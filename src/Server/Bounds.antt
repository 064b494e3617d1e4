-- ===== src/Server/Bounds.antt =====
-- lib/cmux/cmux_server.c at the largest DLCI.
use cmux.Base.{ℕ, ◌≡◌, arith, le→not_ltb}
use cmux.Base.{Option, none, List}
use cmux.Base.Memory.{read_outside}
use cmux.Buffer.{Message}
use cmux.Endpoint.{TerminalOptions, Endpoint, send_request, send_data}
use cmux.Endpoint.State.{IsWellFormed, update_outside}
use cmux.Endpoint.Sending.{send_frame_at_maximum}
use cmux.Server.{cmux_server_on_control_message, cmux_server_register_terminal}
use cmux.Server.{cmux_server_terminal_send, cmux_server_terminal_close}

module _ (malloc : ℕ → List ℕ) where
  -- For the maximum itself, every test `dlci > maximum_dlci` lets the operation pass, but the arrays
  -- have no entry for it: each of these operations reads or writes behind their end.
  pub server_at_maximum :
      (server : Endpoint) (dlci : ℕ) (given : Option TerminalOptions) (octets : List ℕ) (len : ℕ)
      (message : Message)
      → IsWellFormed server
      → dlci ≡ server.options.maximum_dlci
      → message.info.dlci ≡ dlci
      → (cmux_server_register_terminal server dlci given ≡ none)
        × (cmux_server_terminal_close malloc server dlci ≡ none)
        × (cmux_server_terminal_send malloc server dlci octets len ≡ none)
        × (cmux_server_on_control_message malloc server message ≡ none)
  unfolding cmux_server_register_terminal cmux_server_on_control_message send_request send_data
  server_at_maximum server dlci given octets len message w m e =
      let passes = le→not_ltb dlci server.options.maximum_dlci (omega arith) in
      (
        rw (passes, update_outside server dlci given w (omega arith)),
        send_frame_at_maximum malloc server _ w m,
        send_frame_at_maximum malloc server _ w m,
        rw (
          e,
          passes,
          read_outside server.terminal_statuses dlci (omega (arith, w.statuses_sized)),
        ),
      )
