-- ===== src/Client/Bounds.antt =====
-- lib/cmux/cmux_client.c at the largest DLCI.
use cmux.Base.{ℕ, ◌≡◌, arith, le→not_ltb}
use cmux.Base.{Option, none, List}
use cmux.Base.Memory.{read_outside}
use cmux.Buffer.{Message}
use cmux.Endpoint.{TerminalOptions, Endpoint, send_request, send_data}
use cmux.Endpoint.State.{IsWellFormed, update_outside}
use cmux.Endpoint.Sending.{send_frame_at_maximum}
use cmux.Client.{cmux_client_on_control_message, cmux_client_terminal_open}
use cmux.Client.{cmux_client_terminal_send, cmux_client_terminal_close}

module _ (malloc : ℕ → List ℕ) where
  -- For the maximum itself, every test `dlci > maximum_dlci` lets the operation pass, but the arrays
  -- have no entry for it: each of these operations reads or writes behind their end.
  pub client_at_maximum :
      (client : Endpoint) (dlci : ℕ) (given : Option TerminalOptions) (octets : List ℕ) (len : ℕ)
      (message : Message)
      → IsWellFormed client
      → dlci ≡ client.options.maximum_dlci
      → message.info.dlci ≡ dlci
      → (cmux_client_terminal_open malloc client dlci given ≡ none)
        × (cmux_client_terminal_close malloc client dlci ≡ none)
        × (cmux_client_terminal_send malloc client dlci octets len ≡ none)
        × (cmux_client_on_control_message client message ≡ none)
  unfolding cmux_client_terminal_open cmux_client_on_control_message send_request send_data
  client_at_maximum client dlci given octets len message w m e =
      let passes = le→not_ltb dlci client.options.maximum_dlci (omega arith) in
      (
        rw (passes, update_outside client dlci given w (omega arith)),
        send_frame_at_maximum malloc client _ w m,
        send_frame_at_maximum malloc client _ w m,
        rw (
          e,
          passes,
          read_outside client.terminal_statuses dlci (omega (arith, w.statuses_sized)),
        ),
      )
