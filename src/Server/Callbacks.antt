-- ===== src/Server/Callbacks.antt =====
-- The handler of lib/cmux/cmux_server.c with callbacks that call the server: those of its operations
-- that a callback asks for are done where the callback is called.
use cmux.Base.{ℕ, ◌≡◌, refl, false, ltb, ◌==◌, ◌&&◌, if◌then◌else◌, Option, none, some}
use cmux.Base.{List, [], ◌>>=◌, read, Option-cases, inl, inr, Bool-cases}
use cmux.Frame.{sabm, ua, disc, uih, BuilderFrameInfo}
use cmux.Service.{multiplexer_close_down}
use cmux.Request.{ServicesRequest, nothing, cmux_service_request_decode}
use cmux.Buffer.{Message}
use cmux.Endpoint.{
  Endpoint, event, started, stopped, terminal_opened, terminal_closed, terminal_received, Outcome,
  has_type, no_port,
}
use cmux.Endpoint.Callbacks.{User, in_turn, notify, quiet, notify-quiet}
use cmux.Server.{
  ServerTerminalOptions, is_close_down, cmux_server_reply, on_sabm, on_disc, on_uih,
  cmux_server_on_incoming_request, cmux_server_on_control_message,
}

module _ (malloc : ℕ → List ℕ) (user : User) where
  unfoldable pub on_sabm_with : Endpoint → ServerTerminalOptions → ℕ → Outcome
  on_sabm_with server terminal dlci =
      in_turn
        (if dlci == 0
          then notify user server.options.on_start started server
          else notify user terminal.on_terminal_open (terminal_opened dlci) server)
        λ server'. cmux_server_reply malloc server' dlci ua none

  unfoldable pub on_disc_with : Endpoint → ServerTerminalOptions → ℕ → Outcome
  on_disc_with server terminal dlci =
      if dlci == 0
      then some (server, [])
      else in_turn (notify user terminal.on_terminal_close (terminal_closed dlci) server)
          λ server'. cmux_server_reply malloc server' dlci ua none

  unfoldable pub on_uih_with :
      Endpoint → ServerTerminalOptions → Option ServicesRequest → Message → Outcome
  on_uih_with server terminal request message =
      if is_close_down request
      then (if message.info.dlci == 0
          then (in_turn (notify user server.options.on_stop stopped server) λ server'.
              cmux_server_reply malloc server' message.info.dlci uih (
                some (record {
                  service = multiplexer_close_down;
                  cr = false;
                  service_data = nothing;
                })))
          else some (server, []))
      else notify user terminal.on_terminal_data
          (terminal_received message.info.dlci message.octets message.size) server

  -- The options of the terminal are read when `on_event` has returned.
  unfoldable pub cmux_server_on_incoming_request_with :
      Endpoint → Message → Option ServicesRequest → BuilderFrameInfo → Outcome
  unfolding on_sabm_with on_disc_with on_uih_with
  cmux_server_on_incoming_request_with server message request last =
      in_turn (notify user server.options.on_event (event message.info request last) server)
        λ server'. (do
          terminal ← read server'.terminal_options message.info.dlci
          if has_type message.info.type sabm
              then on_sabm_with server' terminal message.info.dlci
              else if has_type message.info.type disc
              then on_disc_with server' terminal message.info.dlci
              else if has_type message.info.type uih
              then on_uih_with server' terminal request message
              else some (server', []))

  unfoldable pub cmux_server_on_control_message_with : Endpoint → Message → Outcome
  cmux_server_on_control_message_with server message =
      if ltb server.options.maximum_dlci message.info.dlci then some (server, []) else (do
        last ← read server.terminal_statuses message.info.dlci
        if ltb 0 message.info.length && message.info.dlci == 0
            then (do
              request ← cmux_service_request_decode no_port (some message.octets) message.size
              cmux_server_on_incoming_request_with server message (some request) last)
            else cmux_server_on_incoming_request_with server message none last)

-- With callbacks that do nothing, the handler is the plain one.
module _ (malloc : ℕ → List ℕ) where
  on_sabm-quiet :
      (server : Endpoint) (terminal : ServerTerminalOptions) (dlci : ℕ)
      → on_sabm_with malloc quiet server terminal dlci ≡ on_sabm malloc server terminal dlci
  unfolding on_sabm_with on_sabm
  on_sabm-quiet server terminal dlci = elim (Bool-cases (dlci == 0)) [
    | inl control ↦ rw (control, notify-quiet server.options.on_start started server) refl
    | inr other ↦
        rw (other, notify-quiet terminal.on_terminal_open (terminal_opened dlci) server) refl
  ]

  on_disc-quiet :
      (server : Endpoint) (terminal : ServerTerminalOptions) (dlci : ℕ)
      → on_disc_with malloc quiet server terminal dlci ≡ on_disc malloc server terminal dlci
  unfolding on_disc_with on_disc
  on_disc-quiet server terminal dlci =
      rw (notify-quiet terminal.on_terminal_close (terminal_closed dlci) server) refl

  on_uih-quiet :
      (server : Endpoint) (terminal : ServerTerminalOptions) (request : Option ServicesRequest)
      (message : Message)
      → on_uih_with malloc quiet server terminal request message
        ≡ on_uih malloc server terminal request message
  unfolding on_uih_with on_uih
  on_uih-quiet server terminal request message =
      rw
        (
          notify-quiet server.options.on_stop stopped server,
          notify-quiet terminal.on_terminal_data
              (terminal_received message.info.dlci message.octets message.size) server,
        )
        refl

  incoming_quiet :
      (server : Endpoint) (message : Message) (request : Option ServicesRequest)
      (last : BuilderFrameInfo)
      → cmux_server_on_incoming_request_with malloc quiet server message request last
        ≡ cmux_server_on_incoming_request malloc server message request last
  unfolding cmux_server_on_incoming_request_with cmux_server_on_incoming_request
  incoming_quiet server message request last =
      rw (notify-quiet server.options.on_event (event message.info request last) server)
        (elim (Option-cases (read server.terminal_options message.info.dlci)) [
          | inl outside ↦ rw outside refl
          | inr (terminal, there) ↦
              rw
                (
                  there,
                  on_sabm-quiet server terminal message.info.dlci,
                  on_disc-quiet server terminal message.info.dlci,
                  on_uih-quiet server terminal request message,
                )
                refl
        ])

  server_handler_quiet :
      (server : Endpoint) (message : Message)
      → cmux_server_on_control_message_with malloc quiet server message
        ≡ cmux_server_on_control_message malloc server message
  unfolding cmux_server_on_control_message_with cmux_server_on_control_message
  server_handler_quiet server message =
      elim (Option-cases (read server.terminal_statuses message.info.dlci)) [
        | inl outside ↦ rw outside refl
        | inr (last, there) ↦
            rw (there, incoming_quiet server message none last)
              (elim (Option-cases
                (cmux_service_request_decode no_port (some message.octets) message.size)) [
                  | inl fault ↦ rw fault refl
                  | inr (request, decoded) ↦
                      rw (decoded, incoming_quiet server message (some request) last) refl
                ])
      ]
