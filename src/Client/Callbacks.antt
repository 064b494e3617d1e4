-- ===== src/Client/Callbacks.antt =====
-- The handler of lib/cmux/cmux_client.c with callbacks that call the client: those of its operations
-- that a callback asks for are done where the callback is called.
use cmux.Base.{◌≡◌, refl, ltb, ◌==◌, ◌&&◌, if◌then◌else◌, Option, some}
use cmux.Base.{[], ◌>>=◌, read, Bool-cases, inl, inr}
use cmux.Frame.{sabm, ua, disc, uih, FrameInfo, BuilderFrameInfo}
use cmux.Service.{multiplexer_close_down}
use cmux.Request.{ServicesRequest}
use cmux.Buffer.{Message}
use cmux.Endpoint.{
  TerminalOptions, Endpoint, event, started, stopped, terminal_opened, terminal_closed,
  terminal_received, Outcome, has_type, has_service,
}
use cmux.Endpoint.Callbacks.{User, in_turn, notify, quiet, notify-quiet}
use cmux.Client.{
  incoming_request, service_of, control_calls, terminal_calls, cmux_client_on_control_message,
}

module _ (user : User) where
  unfoldable pub control_calls_with :
      Endpoint → FrameInfo → BuilderFrameInfo → Option ServicesRequest → Outcome
  control_calls_with client info last request =
      in_turn (notify user client.options.on_event (event info request last) client) λ opened.
        in_turn
          (notify user (has_type info.type ua && has_type last.type sabm && opened.options.on_start)
            started opened)
          λ began.
            notify user
              (has_type info.type uih
                && has_service (service_of request) multiplexer_close_down
                && began.options.on_stop)
              stopped began

  unfoldable pub terminal_calls_with :
      Endpoint → TerminalOptions → Message → BuilderFrameInfo → Outcome
  terminal_calls_with client terminal message last =
      let dlci = message.info.dlci in
      if has_type message.info.type ua
      then (if has_type last.type sabm
          then notify user terminal.on_terminal_open (terminal_opened dlci) client
          else if has_type last.type disc
          then notify user terminal.on_terminal_close (terminal_closed dlci) client
          else some (client, []))
      else if has_type message.info.type uih
      then notify user terminal.on_terminal_data
          (terminal_received dlci message.octets message.size) client
      else some (client, [])

  unfoldable pub cmux_client_on_control_message_with : Endpoint → Message → Outcome
  cmux_client_on_control_message_with client message =
      if ltb client.options.maximum_dlci message.info.dlci then some (client, []) else (do
        last ← read client.terminal_statuses message.info.dlci
        if message.info.dlci == 0
            then (do
              request ← incoming_request message
              control_calls_with client message.info last request)
            else (do
              terminal ← read client.terminal_options message.info.dlci
              terminal_calls_with client terminal message last))

-- With callbacks that do nothing, the handler is the plain one.
control_quiet :
    (client : Endpoint) (info : FrameInfo) (last : BuilderFrameInfo)
    (request : Option ServicesRequest)
    → control_calls_with quiet client info last request
      ≡ some (client, control_calls client.options info last request)
unfolding control_calls_with control_calls
control_quiet client info last request =
    let start = has_type info.type ua && has_type last.type sabm && client.options.on_start in
    let stop =
      has_type info.type uih
      && has_service (service_of request) multiplexer_close_down
      && client.options.on_stop in
    rw
      (
        notify-quiet client.options.on_event (event info request last) client,
        notify-quiet start started client,
        notify-quiet stop stopped client,
      )
      refl

terminal_quiet :
    (client : Endpoint) (terminal : TerminalOptions) (message : Message) (last : BuilderFrameInfo)
    → terminal_calls_with quiet client terminal message last
      ≡ some (client, terminal_calls terminal message last)
unfolding terminal_calls_with terminal_calls
terminal_quiet client terminal message last =
    let dlci = message.info.dlci in
    rw
      (
        notify-quiet terminal.on_terminal_open (terminal_opened dlci) client,
        notify-quiet terminal.on_terminal_close (terminal_closed dlci) client,
        notify-quiet terminal.on_terminal_data (terminal_received dlci message.octets message.size)
            client,
      )
      (elim (Bool-cases (has_type message.info.type ua)) [
        | inl acknowledged ↦ rw acknowledged (elim (Bool-cases (has_type last.type sabm)) [
          | inl opening ↦ rw opening refl
          | inr other ↦ rw other (elim (Bool-cases (has_type last.type disc)) [
            | inl closing ↦ rw closing refl
            | inr none_of_them ↦ rw none_of_them refl
          ])
        ])
        | inr other ↦ rw other (elim (Bool-cases (has_type message.info.type uih)) [
          | inl carrying ↦ rw carrying refl
          | inr none_of_them ↦ rw none_of_them refl
        ])
      ])

client_handler_quiet :
    (client : Endpoint) (message : Message)
    → cmux_client_on_control_message_with quiet client message
      ≡ cmux_client_on_control_message client message
unfolding cmux_client_on_control_message_with cmux_client_on_control_message
client_handler_quiet client message = simp (control_quiet, terminal_quiet) refl
