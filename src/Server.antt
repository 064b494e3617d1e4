-- ===== src/Server.antt =====
-- lib/cmux/cmux_server.h and cmux_server.c: the endpoint that answers.
pub mod Steps
pub mod Bounds
pub mod Callbacks
use cmux.Base.{ℕ, Bool, true, false, not, ltb, ◌==◌, ◌&&◌, if◌then◌else◌, Option, none, some}
use cmux.Base.{List, [], ◌++◌, ◌>>=◌, read}
use cmux.Frame.{ControlType, sabm, ua, disc, uih, FrameInfo, BuilderFrameInfo}
use cmux.Service.{multiplexer_close_down}
use cmux.Request.{ServicesRequest, nothing, cmux_service_request_decode}
use cmux.Buffer.{Message, cmux_buffer_ingest}
use cmux.Buffer.Ring.{RingBuffer}
use cmux.Endpoint.{Options, TerminalOptions, Endpoint, Call, event, started, stopped}
use cmux.Endpoint.{terminal_opened, terminal_closed, terminal_received, Outcome, call_if, after}
use cmux.Endpoint.{has_type, has_service, no_port, init, update_terminal_options, send_request}
use cmux.Endpoint.{send_data}

-- `struct cmux_server_options_t` and `struct cmux_server_terminal_options_t` have the members of those
-- of the client.
abbrev pub ServerOptions : Type 0
ServerOptions = Options

abbrev pub ServerTerminalOptions : Type 0
ServerTerminalOptions = TerminalOptions

abbrev pub cmux_server_init : ServerOptions → Option Endpoint
cmux_server_init options = init options

unfoldable pub cmux_server_register_terminal :
    Endpoint → ℕ → Option ServerTerminalOptions → Option Endpoint
cmux_server_register_terminal server dlci options =
    if ltb server.options.maximum_dlci dlci
    then some server
    else update_terminal_options server dlci options

-- `request != NULL && request->service == MULTIPLEXER_CLOSE_DOWN`
abbrev pub is_close_down : Option ServicesRequest → Bool
is_close_down none = false
is_close_down (some request) = has_service request.service multiplexer_close_down

module _ (malloc : ℕ → List ℕ) where
  abbrev pub cmux_server_reply : Endpoint → ℕ → ControlType → Option ServicesRequest → Outcome
  cmux_server_reply server dlci type request = send_request malloc server true dlci type request

  abbrev pub cmux_server_request : Endpoint → ℕ → ControlType → Option ServicesRequest → Outcome
  cmux_server_request server dlci type request = send_request malloc server false dlci type request

  unfoldable pub cmux_server_stop : Endpoint → Outcome
  cmux_server_stop server =
      cmux_server_request server 0 uih
        (some (record { service = multiplexer_close_down; cr = true; service_data = nothing }))

  -- The cases of the `switch` of `cmux_server_on_incoming_request`.
  unfoldable pub on_sabm : Endpoint → ServerTerminalOptions → ℕ → Outcome
  on_sabm server terminal dlci =
      after
        (if dlci == 0
          then call_if server.options.on_start started
          else call_if terminal.on_terminal_open (terminal_opened dlci))
        (cmux_server_reply server dlci ua none)

  unfoldable pub on_disc : Endpoint → ServerTerminalOptions → ℕ → Outcome
  on_disc server terminal dlci =
      if dlci == 0
      then some (server, [])
      else after (call_if terminal.on_terminal_close (terminal_closed dlci))
          (cmux_server_reply server dlci ua none)

  unfoldable pub on_uih :
      Endpoint → ServerTerminalOptions → Option ServicesRequest → Message → Outcome
  on_uih server terminal request message =
      if is_close_down request
      then (if message.info.dlci == 0
          then after (call_if server.options.on_stop stopped) (
              cmux_server_reply server message.info.dlci uih (
                some (record {
                  service = multiplexer_close_down;
                  cr = false;
                  service_data = nothing;
                })))
          else some (server, []))
      else some (
        server,
        call_if terminal.on_terminal_data
            (terminal_received message.info.dlci message.octets message.size),
      )

  unfoldable pub cmux_server_on_incoming_request :
      Endpoint → Message → Option ServicesRequest → BuilderFrameInfo → Outcome
  unfolding on_sabm on_disc on_uih
  cmux_server_on_incoming_request server message request last = do
    terminal ← read server.terminal_options message.info.dlci
    after (call_if server.options.on_event (event message.info request last)) (
        if has_type message.info.type sabm
        then on_sabm server terminal message.info.dlci
        else if has_type message.info.type disc
        then on_disc server terminal message.info.dlci
        else if has_type message.info.type uih
        then on_uih server terminal request message
        else some (server, []))

  -- `cmux_on_control_message`
  unfoldable pub cmux_server_on_control_message : Endpoint → Message → Outcome
  cmux_server_on_control_message server message =
      if ltb server.options.maximum_dlci message.info.dlci then some (server, []) else (do
        last ← read server.terminal_statuses message.info.dlci
        if ltb 0 message.info.length && message.info.dlci == 0
            then (do
              request ← cmux_service_request_decode no_port (some message.octets) message.size
              cmux_server_on_incoming_request server message (some request) last)
            else cmux_server_on_incoming_request server message none last)

  abbrev pub cmux_server_terminal_send : Endpoint → ℕ → List ℕ → ℕ → Outcome
  cmux_server_terminal_send server dlci data_octets len =
      send_data malloc server false dlci data_octets len

  abbrev pub cmux_server_terminal_close : Endpoint → ℕ → Outcome
  cmux_server_terminal_close server dlci = cmux_server_request server dlci disc none

  -- The octets come into the ring buffer of the server, which hands on the frame that it finds, if any:
  -- the number of octets taken, the ring and the server behind, and the calls.
  unfoldable pub cmux_server_ingest :
      (lwrb : RingBuffer)
      → Endpoint
      → lwrb.Ring
      → List ℕ
      → Option (ℕ × lwrb.Ring × Endpoint × List Call)
  cmux_server_ingest lwrb server ring octets = do
    (count, ring', received) ← cmux_buffer_ingest lwrb malloc ring octets
    elim received [
      | none ↦ some (count, ring', server, [])
      | some message ↦ do
        (server', calls) ← cmux_server_on_control_message server message
        some (count, ring', server', calls)
    ]
