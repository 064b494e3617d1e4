-- ===== src/Client.antt =====
-- lib/cmux/cmux_client.h and cmux_client.c: the endpoint that opens the link and its terminals.
pub mod Steps
pub mod Bounds
pub mod Callbacks
use cmux.Base.{ℕ, Bool, true, ltb, ◌==◌, ◌&&◌, if◌then◌else◌, Option, none, some, List, []}
use cmux.Base.{◌++◌, ◌>>=◌, read}
use cmux.Frame.{ControlType, sabm, ua, disc, uih, FrameInfo, BuilderFrameInfo}
use cmux.Service.{Service, multiplexer_close_down}
use cmux.Request.{ServicesRequest, nothing, cmux_service_request_decode}
use cmux.Buffer.{Message, cmux_buffer_ingest}
use cmux.Buffer.Ring.{RingBuffer}
use cmux.Endpoint.{Options, TerminalOptions, Endpoint, Call, event, started, stopped}
use cmux.Endpoint.{terminal_opened, terminal_closed, terminal_received, Outcome, call_if}
use cmux.Endpoint.{has_type, has_service, no_port, init, update_terminal_options, send_request}
use cmux.Endpoint.{send_data}

abbrev pub cmux_client_init : Options → Option Endpoint
cmux_client_init options = init options

-- The request of the frame, none where it has no data.
unfoldable pub incoming_request : Message → Option (Option ServicesRequest)
incoming_request message =
    if ltb 0 message.info.length
    then (do
      request ← cmux_service_request_decode no_port (some message.octets) message.size
      some (some request))
    else some none

-- `request.service`, of a request that is zero where nothing was decoded
abbrev pub service_of : Option ServicesRequest → Service
service_of none = Service.other 0
service_of (some request) = request.service

-- A frame of the control channel.
unfoldable pub control_calls :
    Options → FrameInfo → BuilderFrameInfo → Option ServicesRequest → List Call
control_calls options info last request =
    call_if options.on_event (event info request last)
    ++ (call_if (has_type info.type ua && has_type last.type sabm && options.on_start) started
        ++ call_if
            (has_type info.type uih
              && has_service (service_of request) multiplexer_close_down
              && options.on_stop)
            stopped)

-- A frame of a terminal: the `switch` on its type, and on the type of the last frame that was sent.
unfoldable pub terminal_calls : TerminalOptions → Message → BuilderFrameInfo → List Call
terminal_calls terminal message last =
    let dlci = message.info.dlci in
    if has_type message.info.type ua
    then (if has_type last.type sabm
        then call_if terminal.on_terminal_open (terminal_opened dlci)
        else if has_type last.type disc
        then call_if terminal.on_terminal_close (terminal_closed dlci)
        else [])
    else if has_type message.info.type uih
    then call_if terminal.on_terminal_data (terminal_received dlci message.octets message.size)
    else []

-- `cmux_on_control_message`
unfoldable pub cmux_client_on_control_message : Endpoint → Message → Outcome
cmux_client_on_control_message client message =
    if ltb client.options.maximum_dlci message.info.dlci then some (client, []) else (do
      last ← read client.terminal_statuses message.info.dlci
      if message.info.dlci == 0
          then (do
            request ← incoming_request message
            some (client, control_calls client.options message.info last request))
          else (do
            terminal ← read client.terminal_options message.info.dlci
            some (client, terminal_calls terminal message last)))

module _ (malloc : ℕ → List ℕ) where
  -- The poll/final bit is always 1.
  abbrev pub cmux_client_request : Endpoint → ℕ → ControlType → Option ServicesRequest → Outcome
  cmux_client_request client dlci type request = send_request malloc client true dlci type request

  unfoldable pub cmux_client_terminal_open : Endpoint → ℕ → Option TerminalOptions → Outcome
  cmux_client_terminal_open client dlci options =
      if ltb client.options.maximum_dlci dlci then some (client, []) else (do
        updated ← update_terminal_options client dlci options
        cmux_client_request updated dlci sabm none)

  unfoldable pub cmux_client_start : Endpoint → Outcome
  cmux_client_start client = cmux_client_terminal_open client 0 none

  unfoldable pub cmux_client_stop : Endpoint → Outcome
  cmux_client_stop client =
      cmux_client_request client 0 uih
        (some (record { service = multiplexer_close_down; cr = true; service_data = nothing }))

  abbrev pub cmux_client_terminal_send : Endpoint → ℕ → List ℕ → ℕ → Outcome
  cmux_client_terminal_send client dlci data_octets len =
      send_data malloc client true dlci data_octets len

  abbrev pub cmux_client_terminal_close : Endpoint → ℕ → Outcome
  cmux_client_terminal_close client dlci = cmux_client_request client dlci disc none

  -- The octets come into the ring buffer of the client, which hands on the frame that it finds, if any:
  -- the number of octets taken, the ring and the client behind, and the calls.
  unfoldable pub cmux_client_ingest :
      (lwrb : RingBuffer)
      → Endpoint
      → lwrb.Ring
      → List ℕ
      → Option (ℕ × lwrb.Ring × Endpoint × List Call)
  cmux_client_ingest lwrb client ring octets = do
    (count, ring', received) ← cmux_buffer_ingest lwrb malloc ring octets
    elim received [
      | none ↦ some (count, ring', client, [])
      | some message ↦ do
        (client', calls) ← cmux_client_on_control_message client message
        some (count, ring', client', calls)
    ]
