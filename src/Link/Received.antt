-- ===== src/Link/Received.antt =====
-- What the two ends of lib/cmux make of a frame that comes in: lib/cmux/cmux_client.c and
-- lib/cmux/cmux_server.c, each with the frames that the other sends.
use cmux.Base.{ℕ, ◌≤◌, ◌<◌, ◌≡◌, refl, arith, le→not_ltb, ==_ne, ◌==◌, ltb, if◌then◌else◌}
use cmux.Base.{Bool, true, false, none, some, List, [], ◌∷◌, ◌++◌, read, length, ◌&&◌}
use cmux.Frame.{ControlType, is_ui, sabm, ua, disc, uih, BuilderFrameInfo}
use cmux.Frame.Octets.{IsNamed}
use cmux.Frame.RoundTrip.{IsPlain}
use cmux.Buffer.{Message}
use cmux.Buffer.Ingest.{built_frame}
use cmux.Endpoint.{Endpoint, TerminalOptions, event, sent_to_interface, call_if}
use cmux.Endpoint.{started, terminal_opened, terminal_closed, terminal_received}
use cmux.Endpoint.State.{IsWellFormed}
use cmux.Endpoint.Requests.{command, command-Sends}
use cmux.Client.{cmux_client_on_control_message, terminal_calls}
use cmux.Server.{
  cmux_server_on_control_message, cmux_server_on_incoming_request, on_sabm, on_disc, on_uih,
}

pub command-IsPlain :
    (type : ControlType) (poll_final : Bool) (dlci : ℕ)
    → dlci < 64
    → IsNamed type
    → is_ui type ≡ false
    → IsPlain (command type poll_final dlci) []
command-IsPlain type poll_final dlci fits named plain = record {
  dlci_fits = fits;
  named = named;
  not_ui = plain;
  short = omega arith;
  bodied = (refl, refl);
}

-- A client's terminal: the calls go by the type of the last frame that was sent.
pub client_terminal_message :
    (client : Endpoint) (message : Message) (last : BuilderFrameInfo) (terminal : TerminalOptions)
    → message.info.dlci ≤ client.options.maximum_dlci
    → ¬ (message.info.dlci ≡ 0)
    → read client.terminal_statuses message.info.dlci ≡ some last
    → read client.terminal_options message.info.dlci ≡ some terminal
    → cmux_client_on_control_message client message
      ≡ some (client, terminal_calls terminal message last)
unfolding cmux_client_on_control_message
client_terminal_message client message last terminal h nonzero status options = rw (
  le→not_ltb message.info.dlci client.options.maximum_dlci h,
  status,
  ==_ne message.info.dlci 0 nonzero,
  options,
)

-- A server's answer to the opening of a terminal, or of the link.
pub server_answers_sabm :
    (malloc : ℕ → List ℕ) (fresh : (n : ℕ) → length (malloc n) ≡ n) (server : Endpoint)
    (message : Message) (last : BuilderFrameInfo) (terminal : TerminalOptions)
    → IsWellFormed server
    → message.info.dlci < server.options.maximum_dlci
    → message.info.type ≡ sabm
    → message.info.length ≡ 0
    → read server.terminal_statuses message.info.dlci ≡ some last
    → read server.terminal_options message.info.dlci ≡ some terminal
    → (statuses : List BuilderFrameInfo) × (cmux_server_on_control_message malloc server message
        ≡ some (
          record server { terminal_statuses = statuses },
          call_if server.options.on_event (event message.info none last)
              ++ ((if message.info.dlci == 0
                    then call_if server.options.on_start started
                    else call_if terminal.on_terminal_open (terminal_opened message.info.dlci))
                  ++ (sent_to_interface (built_frame (command ua true message.info.dlci) []) ∷ [])),
        ))
      × IsWellFormed (record server { terminal_statuses = statuses })
unfolding cmux_server_on_control_message cmux_server_on_incoming_request on_sabm
server_answers_sabm malloc fresh server message last terminal w h type empty status options =
    let s = command-Sends malloc fresh server w true message.info.dlci ua h refl in
    (
      s.statuses,
      rw (
        le→not_ltb message.info.dlci server.options.maximum_dlci (omega arith),
        status,
        empty,
        options,
        type,
        s.sends,
      ),
      s.well_formed,
    )

-- And to the closing of a terminal.
pub server_answers_disc :
    (malloc : ℕ → List ℕ) (fresh : (n : ℕ) → length (malloc n) ≡ n) (server : Endpoint)
    (message : Message) (last : BuilderFrameInfo) (terminal : TerminalOptions)
    → IsWellFormed server
    → message.info.dlci < server.options.maximum_dlci
    → ¬ (message.info.dlci ≡ 0)
    → message.info.type ≡ disc
    → message.info.length ≡ 0
    → read server.terminal_statuses message.info.dlci ≡ some last
    → read server.terminal_options message.info.dlci ≡ some terminal
    → (statuses : List BuilderFrameInfo) × (cmux_server_on_control_message malloc server message
        ≡ some (
          record server { terminal_statuses = statuses },
          call_if server.options.on_event (event message.info none last)
              ++ (call_if terminal.on_terminal_close (terminal_closed message.info.dlci)
                  ++ (sent_to_interface (built_frame (command ua true message.info.dlci) []) ∷ [])),
        ))
      × IsWellFormed (record server { terminal_statuses = statuses })
unfolding cmux_server_on_control_message cmux_server_on_incoming_request on_disc
server_answers_disc malloc fresh server message last terminal w h nonzero type empty status
      options =
    let s = command-Sends malloc fresh server w true message.info.dlci ua h refl in
    (
      s.statuses,
      rw (
        le→not_ltb message.info.dlci server.options.maximum_dlci (omega arith),
        status,
        empty,
        options,
        type,
        ==_ne message.info.dlci 0 nonzero,
        s.sends,
      ),
      s.well_formed,
    )

and_false : (b : Bool) → (b && false) ≡ false
and_false true = refl
and_false false = refl

-- Data for a terminal of a server.
pub server_receives_data :
    (malloc : ℕ → List ℕ) (server : Endpoint) (message : Message) (last : BuilderFrameInfo)
    (terminal : TerminalOptions)
    → message.info.dlci < server.options.maximum_dlci
    → ¬ (message.info.dlci ≡ 0)
    → message.info.type ≡ uih
    → read server.terminal_statuses message.info.dlci ≡ some last
    → read server.terminal_options message.info.dlci ≡ some terminal
    → cmux_server_on_control_message malloc server message
      ≡ some (
        server,
        call_if server.options.on_event (event message.info none last)
            ++ call_if terminal.on_terminal_data
                (terminal_received message.info.dlci message.octets message.size),
      )
unfolding cmux_server_on_control_message cmux_server_on_incoming_request on_uih
server_receives_data malloc server message last terminal h nonzero type status options = rw (
  le→not_ltb message.info.dlci server.options.maximum_dlci (omega arith),
  status,
  ==_ne message.info.dlci 0 nonzero,
  and_false (ltb 0 message.info.length),
  options,
  type,
)
