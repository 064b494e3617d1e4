-- ===== src/Tests/Links.antt =====
-- The links and endpoints of lib/cmux/cmux_client.c and lib/cmux/cmux_server.c, run.
use cmux.Base.{ℕ, ◌≡◌, ◌≤◌, ◌<◌, refl, arith, true, none, some, false, List, [], ◌∷◌, read}
use cmux.Buffer.{Message}
use cmux.Buffer.Ingest.{delivered}
use cmux.Endpoint.{Endpoint, init, no_terminal_options, no_frame}
use cmux.Endpoint.State.{IsWellFormed, init_cases}
use cmux.Endpoint.Requests.{data_frame}
use cmux.Client.{cmux_client_on_control_message, cmux_client_terminal_open}
use cmux.Client.{cmux_client_terminal_send, cmux_client_terminal_close}
use cmux.Server.{cmux_server_on_control_message, cmux_server_register_terminal}
use cmux.Server.{cmux_server_terminal_send, cmux_server_terminal_close}
use cmux.Link.Terminals.{OpensTerminal, ClosesTerminal, terminal_open_handshake}
use cmux.Link.Terminals.{terminal_close_handshake}
use cmux.Link.Short.{short_request_overread}
use cmux.Link.Guards.{Guarded, operations-Guarded}
use cmux.Link.Maximum.{at_maximum}
use cmux.Link.Callbacks.{server_runs}
use cmux.Link.Callbacks.Registers.{registers, registered_in_event}
use cmux.Endpoint.Requests.{command}
use cmux.Endpoint.{event, terminal_opened, sent_to_interface}
use cmux.Frame.{sabm, ua, disc, BuilderFrameInfo}
use cmux.Frame.RoundTrip.{parsed_info}
use cmux.Buffer.Ingest.{built_frame}
use cmux.Server.Callbacks.{cmux_server_on_control_message_with}
use cmux.Link.Races.{MistakesAnswer, open_answer_mistaken}
use cmux.Link.Control.{StartsLink, StopsLink, start_handshake, stop_handshake}
use cmux.Tests.Data.{
  made, zeroed, length-zeroed, hello, two_dlcis, listening, endpoint, endpoint-IsWellFormed,
}

terminal_open_handshake_example :
    OpensTerminal zeroed endpoint endpoint 1 listening (some listening)
terminal_open_handshake_example =
    terminal_open_handshake zeroed length-zeroed endpoint endpoint endpoint-IsWellFormed
      endpoint-IsWellFormed 1 (omega arith) (omega arith) (omega arith) (omega arith) listening refl
      (some listening)

terminal_close_handshake_example : ClosesTerminal zeroed endpoint endpoint 1 listening listening
terminal_close_handshake_example =
    terminal_close_handshake zeroed length-zeroed endpoint endpoint endpoint-IsWellFormed
      endpoint-IsWellFormed 1 (omega arith) (omega arith) (omega arith) (omega arith) listening refl
      listening refl

open_answer_mistaken_example :
    MistakesAnswer zeroed endpoint endpoint 1 listening (some listening) hello
open_answer_mistaken_example =
    open_answer_mistaken zeroed length-zeroed endpoint endpoint endpoint-IsWellFormed
      endpoint-IsWellFormed 1 (omega arith) (omega arith) (omega arith) listening refl
      (some listening) hello (omega arith)

start_handshake_example : StartsLink zeroed endpoint endpoint
start_handshake_example =
    start_handshake zeroed length-zeroed endpoint endpoint endpoint-IsWellFormed
      endpoint-IsWellFormed

stop_handshake_example : StopsLink zeroed endpoint endpoint
stop_handshake_example =
    stop_handshake zeroed length-zeroed endpoint endpoint endpoint-IsWellFormed
      endpoint-IsWellFormed

made-IsWellFormed : IsWellFormed made
made-IsWellFormed = record { positive = omega arith; options_sized = refl; statuses_sized = refl }

-- A frame for a DLCI that an endpoint does not have.
abbrev strange : ℕ → Message
strange dlci = delivered (data_frame true dlci hello) hello

init_cases_example :
    (two_dlcis.maximum_dlci ≡ 0 → init two_dlcis ≡ none)
    × (1 ≤ two_dlcis.maximum_dlci
        → (e : Endpoint) × (init two_dlcis ≡ some e)
          × IsWellFormed e
          × (e.options ≡ two_dlcis)
          × ((dlci : ℕ)
              → dlci < 2
              → (read e.terminal_options dlci ≡ some no_terminal_options)
                × (read e.terminal_statuses dlci ≡ some no_frame)))
init_cases_example = init_cases two_dlcis

at_maximum_example :
    (cmux_client_terminal_open zeroed endpoint 2 none ≡ none)
    × (cmux_client_terminal_close zeroed endpoint 2 ≡ none)
    × (cmux_client_terminal_send zeroed endpoint 2 hello 5 ≡ none)
    × (cmux_client_on_control_message endpoint (strange 2) ≡ none)
    × (cmux_server_register_terminal endpoint 2 none ≡ none)
    × (cmux_server_terminal_close zeroed endpoint 2 ≡ none)
    × (cmux_server_terminal_send zeroed endpoint 2 hello 5 ≡ none)
    × (cmux_server_on_control_message zeroed endpoint (strange 2) ≡ none)
at_maximum_example =
    at_maximum zeroed endpoint 2 none hello 5 (strange 2) refl endpoint-IsWellFormed refl

registered_in_event_example :
    (next : Endpoint) × (last : BuilderFrameInfo) × (cmux_server_on_control_message_with zeroed
        (λ call server. server_runs zeroed (registers 1 (some listening) call) server)
        made
        (delivered (command sabm true 1) [])
      ≡ some (
        next,
        event (parsed_info (command sabm true 1)) none last
            ∷ (terminal_opened 1 ∷ (sent_to_interface (built_frame (command ua true 1) []) ∷ [])),
      ))
    × (read next.terminal_options 1 ≡ some listening)
    × IsWellFormed next
registered_in_event_example =
    registered_in_event zeroed length-zeroed made made-IsWellFormed 1 (omega arith) (omega arith)
      (some listening) refl

-- A parameter negotiation without any parameters.
abbrev no_parameters : List ℕ
no_parameters = 0b10000011 ∷ 1 ∷ []

short_request_overread_example :
    (cmux_client_on_control_message endpoint
        (delivered (data_frame true 0 no_parameters) no_parameters)
      ≡ none)
    × (cmux_server_on_control_message zeroed endpoint
          (delivered (data_frame true 0 no_parameters) no_parameters)
        ≡ none)
unfolding cmux.Service.service_type
short_request_overread_example =
    short_request_overread zeroed endpoint endpoint (data_frame true 0 no_parameters) 0b10000011 1
      [] endpoint-IsWellFormed endpoint-IsWellFormed
      (record {
        dlci_fits = omega arith;
        named = tt;
        not_ui = refl;
        short = omega arith;
        bodied = (refl, refl);
      })
      refl refl (omega arith)

operations-Guarded_example :
    Guarded endpoint (command sabm true 2) [] (cmux_client_terminal_open zeroed endpoint 2 none)
    × Guarded endpoint (command disc true 2) [] (cmux_client_terminal_close zeroed endpoint 2)
    × Guarded endpoint
        (data_frame true 2 hello)
        hello
        (cmux_client_terminal_send zeroed endpoint 2 hello 5)
    × Guarded endpoint (command disc false 2) [] (cmux_server_terminal_close zeroed endpoint 2)
    × Guarded endpoint
        (data_frame false 2 hello)
        hello
        (cmux_server_terminal_send zeroed endpoint 2 hello 5)
operations-Guarded_example =
    operations-Guarded zeroed length-zeroed endpoint endpoint-IsWellFormed 2 none hello
      (omega arith)
