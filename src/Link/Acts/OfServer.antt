-- ===== src/Link/Acts/OfServer.antt =====
-- The operations of lib/cmux/cmux_server.c return.
use cmux.Base.{ℕ, ◌≤◌, ◌<◌, ◌≡◌, refl, arith, le→not_ltb, true, false}
use cmux.Base.{Option, none, List, [], length}
use cmux.Frame.{disc, uih}
use cmux.Endpoint.{TerminalOptions, Endpoint}
use cmux.Endpoint.State.{update_within}
use cmux.Server.{cmux_server_stop, cmux_server_register_terminal}
use cmux.Server.Steps.{
  Operation, stop, register_terminal, reply, request, terminal_send, terminal_close,
  control_message, run,
}
use cmux.Link.Frames.{IsEndpoint, Runs, nil-IsSilent, silent-Runs, request-Runs}
use cmux.Link.Acts.{IsData, IsAsked, close_down-IsShort, data-Runs}

-- What a user may ask of a server of a link with DLCIs below `m`.
abbrev pub ServerMay : ℕ → Operation → Type 0
ServerMay m stop = Unit
ServerMay m (register_terminal dlci given) = dlci < m
ServerMay m (reply dlci type content) = IsAsked m dlci type content
ServerMay m (request dlci type content) = IsAsked m dlci type content
ServerMay m (terminal_send dlci octets len) = IsData m dlci octets len
ServerMay m (terminal_close dlci) = dlci < m
ServerMay m (control_message message) = ⊥

module _ (malloc : ℕ → List ℕ) (fresh : (n : ℕ) → length (malloc n) ≡ n) (m : ℕ) (few : m ≤ 64)
    (server : Endpoint) (e : IsEndpoint m server) where
  register-Runs :
      (dlci : ℕ) (given : Option TerminalOptions)
      → dlci < m
      → Runs m 1 (run malloc server (register_terminal dlci given))
  unfolding cmux_server_register_terminal
  register-Runs dlci given h =
      let (updated, u, _, w) =
        update_within server dlci given e.well_formed (omega (arith, e.maximum)) in
      rw (le→not_ltb dlci server.options.maximum_dlci (omega (arith, e.maximum)), u)
        (silent-Runs m 1 (record server { terminal_options = updated }) []
          (record { well_formed = w; maximum = e.maximum }) nil-IsSilent)

  -- Every operation that a user may ask of a server returns, and sends frames that belong on the link.
  pub server_act-Runs :
      (operation : Operation) → ServerMay m operation → Runs m 1 (run malloc server operation)
  unfolding cmux_server_stop
  server_act-Runs stop may =
      request-Runs malloc fresh m few server e false 0 uih _
        (omega (arith, e.maximum, e.well_formed.positive)) tt refl (close_down-IsShort true)
  server_act-Runs (register_terminal dlci given) may = register-Runs dlci given may
  server_act-Runs (reply dlci type content) (h, named, plain, short) =
      request-Runs malloc fresh m few server e true dlci type content h named plain short
  server_act-Runs (request dlci type content) (h, named, plain, short) =
      request-Runs malloc fresh m few server e false dlci type content h named plain short
  server_act-Runs (terminal_send dlci octets len) may =
      data-Runs malloc fresh m server false dlci octets len few e may
  server_act-Runs (terminal_close dlci) may =
      request-Runs malloc fresh m few server e false dlci disc none may tt refl tt
  server_act-Runs (control_message message) may = absurd may
