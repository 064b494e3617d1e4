-- ===== src/Link/Acts/OfClient.antt =====
-- The operations of lib/cmux/cmux_client.c return.
use cmux.Base.{ℕ, ◌≤◌, ◌<◌, ◌≡◌, refl, arith, le→not_ltb, true}
use cmux.Base.{Option, none, List, length}
use cmux.Frame.{sabm, disc, uih}
use cmux.Endpoint.{TerminalOptions, Endpoint}
use cmux.Endpoint.State.{update_within}
use cmux.Client.{cmux_client_start, cmux_client_stop, cmux_client_terminal_open}
use cmux.Client.Steps.{
  Operation, start, stop, request, terminal_open, terminal_send, terminal_close, control_message,
  run,
}
use cmux.Link.Frames.{IsEndpoint, Runs, request-Runs}
use cmux.Link.Acts.{IsData, IsAsked, close_down-IsShort, data-Runs}

-- What a user may ask of a client of a link with DLCIs below `m`.
abbrev pub ClientMay : ℕ → Operation → Type 0
ClientMay m start = Unit
ClientMay m stop = Unit
ClientMay m (request dlci type content) = IsAsked m dlci type content
ClientMay m (terminal_open dlci given) = dlci < m
ClientMay m (terminal_send dlci octets len) = IsData m dlci octets len
ClientMay m (terminal_close dlci) = dlci < m
ClientMay m (control_message message) = ⊥

module _ (malloc : ℕ → List ℕ) (fresh : (n : ℕ) → length (malloc n) ≡ n) (m : ℕ) (few : m ≤ 64)
    (client : Endpoint) (e : IsEndpoint m client) where
  terminal_open-Runs :
      (dlci : ℕ) (given : Option TerminalOptions)
      → dlci < m
      → Runs m 1 (cmux_client_terminal_open malloc client dlci given)
  unfolding cmux_client_terminal_open
  terminal_open-Runs dlci given h =
      let (updated, u, _, w) =
        update_within client dlci given e.well_formed (omega (arith, e.maximum)) in
      let e' : IsEndpoint m (record client { terminal_options = updated }) = record {
        well_formed = w;
        maximum = e.maximum;
      } in
      rw (le→not_ltb dlci client.options.maximum_dlci (omega (arith, e.maximum)), u)
        (request-Runs malloc fresh m few (record client { terminal_options = updated }) e' true dlci
          sabm none h tt refl tt)

  -- Every operation that a user may ask of a client returns, and sends frames that belong on the link.
  pub client_act-Runs :
      (operation : Operation) → ClientMay m operation → Runs m 1 (run malloc client operation)
  unfolding cmux_client_start cmux_client_stop
  client_act-Runs start may =
      terminal_open-Runs 0 none (omega (arith, e.maximum, e.well_formed.positive))
  client_act-Runs stop may =
      request-Runs malloc fresh m few client e true 0 uih _
        (omega (arith, e.maximum, e.well_formed.positive)) tt refl (close_down-IsShort true)
  client_act-Runs (request dlci type content) (h, named, plain, short) =
      request-Runs malloc fresh m few client e true dlci type content h named plain short
  client_act-Runs (terminal_open dlci given) may = terminal_open-Runs dlci given may
  client_act-Runs (terminal_send dlci octets len) may =
      data-Runs malloc fresh m client true dlci octets len few e may
  client_act-Runs (terminal_close dlci) may =
      request-Runs malloc fresh m few client e true dlci disc none may tt refl tt
  client_act-Runs (control_message message) may = absurd may
