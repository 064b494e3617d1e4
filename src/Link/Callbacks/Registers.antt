-- ===== src/Link/Callbacks/Registers.antt =====
-- lib/cmux/cmux_server.c with an `on_event` that registers the terminal of the frame.
use cmux.Base.{ℕ, ◌≤◌, ◌<◌, ◌≡◌, refl, arith, le→not_ltb, ==_ne, true}
use cmux.Base.{Option, none, some, List, [], ◌∷◌, ◌++◌, length, read}
use cmux.Base.Memory.{read_within}
use cmux.Frame.{sabm, ua, BuilderFrameInfo}
use cmux.Frame.RoundTrip.{parsed_info}
use cmux.Buffer.Ingest.{built_frame, delivered}
use cmux.Endpoint.{
  Endpoint, TerminalOptions, Call, event, sent_to_interface, call_if, terminal_opened,
}
use cmux.Endpoint.State.{IsWellFormed, given_options, update_within}
use cmux.Endpoint.Callbacks.{User, notify_nothing}
use cmux.Endpoint.Requests.{command, command-Sends}
use cmux.Server.{cmux_server_register_terminal, cmux_server_reply}
use cmux.Server.Steps.{Operation, register_terminal}
use cmux.Server.Callbacks.{
  cmux_server_on_control_message_with, cmux_server_on_incoming_request_with, on_sabm_with,
}
use cmux.Link.Callbacks.{server_runs}

-- Callbacks of which only `on_event` asks for anything: that the terminal be registered.
abbrev pub registers : ℕ → Option TerminalOptions → Call → List Operation
registers dlci given (event info request last) = register_terminal dlci given ∷ []
registers dlci given call = []

-- A client asks a server to open a terminal on a DLCI between 1 and its maximum, and `on_event`
-- registers that terminal: the callback that is called for the opening is the one that has just been
-- registered, whatever was registered before, and then the server answers.
pub registered_in_event :
    (malloc : ℕ → List ℕ) (fresh : (n : ℕ) → length (malloc n) ≡ n) (server : Endpoint)
    (w : IsWellFormed server) (dlci : ℕ) (positive : 1 ≤ dlci)
    (has : dlci < server.options.maximum_dlci) (given : Option TerminalOptions)
    → server.options.on_event ≡ true
    → (next : Endpoint) × (last : BuilderFrameInfo) × (cmux_server_on_control_message_with malloc
          (λ call endpoint. server_runs malloc (registers dlci given call) endpoint)
          server
          (delivered (command sabm true dlci) [])
        ≡ some (
          next,
          event (parsed_info (command sabm true dlci)) none last
              ∷ (call_if (given_options given).on_terminal_open (terminal_opened dlci)
                  ++ (sent_to_interface (built_frame (command ua true dlci) []) ∷ [])),
        ))
      × (read next.terminal_options dlci ≡ some (given_options given))
      × IsWellFormed next
unfolding cmux_server_on_control_message_with cmux_server_on_incoming_request_with on_sabm_with
    cmux_server_register_terminal
registered_in_event malloc fresh server w dlci positive has given on_event =
    let (updated, u, there, w') = update_within server dlci given w has in
    let registered = record server { terminal_options = updated } in
    let s = command-Sends malloc fresh registered w' true dlci ua has refl in
    let user : User = λ call endpoint. server_runs malloc (registers dlci given call) endpoint in
    let called =
      notify_nothing user (given_options given).on_terminal_open (terminal_opened dlci) registered
        (λ server'. cmux_server_reply malloc server' dlci ua none) refl in
    let (last, status) =
      read_within server.terminal_statuses dlci (omega (arith, w.statuses_sized)) in
    let passes = le→not_ltb dlci server.options.maximum_dlci (omega (arith, has)) in
    let not_control = ==_ne dlci 0 (λ z. omega (arith, z, positive)) in
    (
      record registered { terminal_statuses = s.statuses },
      last,
      rw (passes, status) (simp (on_event, u, there, not_control) (rw (called, s.sends) refl)),
      there,
      s.well_formed,
    )
