-- ===== src/Link/Races.antt =====
-- lib/cmux/cmux_client.c when a terminal is used, or closed, before the answer to its opening is
-- there: the client goes by the type of the last frame that it sent.
use cmux.Base.{ℕ, ◌≤◌, ◌<◌, ◌≡◌, refl, ◌∙◌, arith, le→not_ltb, ==_ne}
use cmux.Base.{true, Option, none, some, List, [], ◌∷◌, ◌++◌, read, length, ◌^◌}
use cmux.Base.Memory.{read_within}
use cmux.Frame.{sabm, ua, disc, BuilderFrameInfo}
use cmux.Frame.RoundTrip.{parsed_info}
use cmux.Buffer.Ingest.{built_frame, delivered}
use cmux.Endpoint.{
  Endpoint, TerminalOptions, event, sent_to_interface, call_if, terminal_opened, terminal_closed,
}
use cmux.Endpoint.State.{IsWellFormed, given_options, update_within}
use cmux.Endpoint.Requests.{command, data_frame, command-Sends, data-Sends}
use cmux.Client.{
  cmux_client_on_control_message, cmux_client_terminal_open, cmux_client_terminal_send,
  cmux_client_terminal_close, terminal_calls,
}
use cmux.Server.{cmux_server_on_control_message}
use cmux.Link.Received.{client_terminal_message, server_answers_sabm}

-- The terminal is opened. Then the client sends data, or closes the terminal, and only then the answer
-- of the server to the opening comes in: in the first case nothing is called, in the second the
-- callback for the closing.
abbrev pub MistakesAnswer :
    (ℕ → List ℕ)
    → Endpoint
    → Endpoint
    → ℕ
    → TerminalOptions
    → Option TerminalOptions
    → List ℕ
    → Type 0
MistakesAnswer malloc client server dlci terminal given octets =
    (opening using closing server' : Endpoint) × (last : BuilderFrameInfo)
    × (cmux_client_terminal_open malloc client dlci given
        ≡ some (opening, sent_to_interface (built_frame (command sabm true dlci) []) ∷ []))
    × (cmux_client_terminal_send malloc opening dlci octets (length octets)
        ≡ some (using, sent_to_interface (built_frame (data_frame true dlci octets) octets) ∷ []))
    × (cmux_client_terminal_close malloc opening dlci
        ≡ some (closing, sent_to_interface (built_frame (command disc true dlci) []) ∷ []))
    × (cmux_server_on_control_message malloc server (delivered (command sabm true dlci) [])
        ≡ some (
          server',
          call_if server.options.on_event (event (parsed_info (command sabm true dlci)) none last)
              ++ (call_if terminal.on_terminal_open (terminal_opened dlci)
                  ++ (sent_to_interface (built_frame (command ua true dlci) []) ∷ [])),
        ))
    × (cmux_client_on_control_message using (delivered (command ua true dlci) [])
        ≡ some (using, []))
    × (cmux_client_on_control_message closing (delivered (command ua true dlci) [])
        ≡ some (closing, call_if (given_options given).on_terminal_close (terminal_closed dlci)))

-- The client opens a terminal on a DLCI between 1 and the maximum of both ends, and the server answers
-- with the one frame that says so. Where the client has sent data in between, the answer causes no
-- call, and `on_terminal_open` is never called. Where the client has asked to close the terminal in
-- between, the answer to the opening causes the call of `on_terminal_close`, while the server has
-- the terminal open.
pub open_answer_mistaken :
    (malloc : ℕ → List ℕ) (fresh : (n : ℕ) → length (malloc n) ≡ n) (client server : Endpoint)
    (client_well : IsWellFormed client) (server_well : IsWellFormed server) (dlci : ℕ)
    (positive : 1 ≤ dlci) (client_has : dlci < client.options.maximum_dlci)
    (server_has : dlci < server.options.maximum_dlci) (terminal : TerminalOptions)
    (registered : read server.terminal_options dlci ≡ some terminal)
    (given : Option TerminalOptions) (octets : List ℕ)
    → length octets < 2 ^ 16
    → MistakesAnswer malloc client server dlci terminal given octets
unfolding cmux_client_terminal_open terminal_calls
open_answer_mistaken malloc fresh client server client_well server_well dlci positive client_has
      server_has terminal registered given octets small =
    let nonzero : ¬ (dlci ≡ 0) = λ e. omega (arith, e, positive) in
    let (updated, u, there, w) = update_within client dlci given client_well client_has in
    let s =
      command-Sends malloc fresh (record client { terminal_options = updated }) w true dlci sabm
        client_has refl in
    let opening = record client { terminal_options = updated; terminal_statuses = s.statuses } in
    let d = data-Sends malloc fresh opening s.well_formed true dlci octets client_has small in
    let c = command-Sends malloc fresh opening s.well_formed true dlci disc client_has refl in
    let (last, status) =
      read_within server.terminal_statuses dlci (omega (arith, server_well.statuses_sized)) in
    let (statuses, answer, _) =
      server_answers_sabm malloc fresh server (delivered (command sabm true dlci) []) last terminal
        server_well server_has refl refl status registered in
    let using = record opening { terminal_statuses = d.statuses } in
    let closing = record opening { terminal_statuses = c.statuses } in
    let answered = delivered (command ua true dlci) [] in
    (
      opening,
      using,
      closing,
      record server { terminal_statuses = statuses },
      last,
      rw (le→not_ltb dlci client.options.maximum_dlci (omega arith), u) s.sends,
      d.sends,
      c.sends,
      answer ∙ rw (==_ne dlci 0 nonzero) refl,
      client_terminal_message using answered (data_frame true dlci octets) (given_options given)
          (omega arith) nonzero d.remembers there,
      client_terminal_message closing answered (command disc true dlci) (given_options given)
          (omega arith) nonzero c.remembers there,
    )
