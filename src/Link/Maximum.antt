-- ===== src/Link/Maximum.antt =====
-- lib/cmux/cmux_client.c and lib/cmux/cmux_server.c at the largest DLCI.
use cmux.Base.{ℕ, ◌≡◌, Option, none, List}
use cmux.Buffer.{Message}
use cmux.Endpoint.{TerminalOptions, Endpoint}
use cmux.Endpoint.State.{IsWellFormed}
use cmux.Client.{cmux_client_on_control_message, cmux_client_terminal_open}
use cmux.Client.{cmux_client_terminal_send, cmux_client_terminal_close}
use cmux.Client.Bounds.{client_at_maximum}
use cmux.Server.{cmux_server_register_terminal, cmux_server_on_control_message}
use cmux.Server.{cmux_server_terminal_send, cmux_server_terminal_close}
use cmux.Server.Bounds.{server_at_maximum}

module _ (malloc : ℕ → List ℕ) (endpoint : Endpoint) (dlci : ℕ) (given : Option TerminalOptions)
    (octets : List ℕ) (len : ℕ) (message : Message) (about : message.info.dlci ≡ dlci) where
  -- For the maximum itself, every test `dlci > maximum_dlci` lets the operation pass, but the arrays
  -- have no entry for it: each of these operations of a well-formed client or server reads or writes
  -- behind their end.
  pub at_maximum :
      IsWellFormed endpoint
      → dlci ≡ endpoint.options.maximum_dlci
      → (cmux_client_terminal_open malloc endpoint dlci given ≡ none)
        × (cmux_client_terminal_close malloc endpoint dlci ≡ none)
        × (cmux_client_terminal_send malloc endpoint dlci octets len ≡ none)
        × (cmux_client_on_control_message endpoint message ≡ none)
        × (cmux_server_register_terminal endpoint dlci given ≡ none)
        × (cmux_server_terminal_close malloc endpoint dlci ≡ none)
        × (cmux_server_terminal_send malloc endpoint dlci octets len ≡ none)
        × (cmux_server_on_control_message malloc endpoint message ≡ none)
  at_maximum w m =
      let (opens, closes, sends, takes) =
        client_at_maximum malloc endpoint dlci given octets len message w m about in
      let (registers, closes', sends', takes') =
        server_at_maximum malloc endpoint dlci given octets len message w m about in
      (opens, closes, sends, takes, registers, closes', sends', takes')
