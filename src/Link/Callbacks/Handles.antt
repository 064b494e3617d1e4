-- ===== src/Link/Callbacks/Handles.antt =====
-- What lib/cmux/cmux_client.c and lib/cmux/cmux_server.c make of a frame that belongs on the link,
-- with callbacks that call the library: the handlers return.
use cmux.Base.{ℕ, ◌≤◌, ◌<◌, ◌≡◌, refl, arith, le→not_ltb, ltb, ◌==◌, ==_iff}
use cmux.Base.{true, false, Bool-cases, inl, inr, Option, none, some, List, length, ◌&&◌}
use cmux.Frame.{sabm, ua, disc, uih, FrameInfo, BuilderFrameInfo}
use cmux.Request.{ServicesRequest}
use cmux.Buffer.{Message}
use cmux.Buffer.Ingest.{delivered}
use cmux.Endpoint.{Endpoint, TerminalOptions, event, started, stopped, has_type}
use cmux.Endpoint.Callbacks.{User}
use cmux.Client.Callbacks.{
  control_calls_with, terminal_calls_with, cmux_client_on_control_message_with,
}
use cmux.Server.{is_close_down, cmux_server_reply}
use cmux.Server.Callbacks.{
  on_sabm_with, on_disc_with, on_uih_with, cmux_server_on_incoming_request_with,
  cmux_server_on_control_message_with,
}
use cmux.Link.Frames.{IsSent, IsEndpoint, request-Runs}
use cmux.Link.Acts.{close_down-IsShort}
use cmux.Link.Handles.{entries, decoded_request, carried_request}
use cmux.Link.Callbacks.{Goes, IsUser, in_turn-Goes, if-Goes, still-Goes, notify-Goes, Runs-Goes}

module _ (m : ℕ) (user : User) (u : IsUser m user) where
  control-Goes :
      (client : Endpoint) (info : FrameInfo) (last : BuilderFrameInfo)
      (request : Option ServicesRequest)
      → IsEndpoint m client
      → Goes m (control_calls_with user client info last request)
  unfolding control_calls_with
  control-Goes client info last request e =
      in_turn-Goes m _ _ (notify-Goes m user client.options.on_event _ client u refl e) λ opened e'.
        in_turn-Goes m _ _ (notify-Goes m user _ started opened u refl e')
          λ began e''. notify-Goes m user _ stopped began u refl e''

  terminal-Goes :
      (client : Endpoint) (terminal : TerminalOptions) (message : Message) (last : BuilderFrameInfo)
      → IsEndpoint m client
      → Goes m (terminal_calls_with user client terminal message last)
  unfolding terminal_calls_with
  terminal-Goes client terminal message last e =
      if-Goes m (has_type message.info.type ua) _ _
        (if-Goes m (has_type last.type sabm) _ _
          (notify-Goes m user terminal.on_terminal_open _ client u refl e)
          (if-Goes m (has_type last.type disc) _ _
            (notify-Goes m user terminal.on_terminal_close _ client u refl e)
            (still-Goes m client e)))
        (if-Goes m (has_type message.info.type uih) _ _
          (notify-Goes m user terminal.on_terminal_data _ client u refl e) (still-Goes m client e))

  -- A client takes every frame that belongs on the link.
  pub client_handle-Goes :
      (frame : List ℕ) (s : IsSent m frame) (client : Endpoint)
      → IsEndpoint m client
      → Goes m (cmux_client_on_control_message_with user client (delivered s.info s.body))
  unfolding cmux_client_on_control_message_with
  client_handle-Goes frame s client e =
      let ((last, status), (terminal, options)) = entries m client e s.info.dlci s.within in
      let passes =
        le→not_ltb s.info.dlci client.options.maximum_dlci (omega (arith, e.maximum, s.within)) in
      let message = delivered s.info s.body in
      elim (Bool-cases (s.info.dlci == 0)) [
        | inl control ↦
            let (content, d) = decoded_request m frame s ((==_iff s.info.dlci 0).0 control) in
            rw (passes, status, control, d) (control-Goes client message.info last content e)
        | inr other ↦
            rw (passes, status, other, options) (terminal-Goes client terminal message last e)
      ]

module _ (malloc : ℕ → List ℕ) (fresh : (n : ℕ) → length (malloc n) ≡ n) (m : ℕ) (few : m ≤ 64)
    (user : User) (u : IsUser m user) where
  acknowledged :
      (server : Endpoint) (dlci : ℕ)
      → dlci < m
      → IsEndpoint m server
      → Goes m (cmux_server_reply malloc server dlci ua none)
  acknowledged server dlci h e =
      Runs-Goes m 1 _ (request-Runs malloc fresh m few server e true dlci ua none h tt refl tt)

  incoming-Goes :
      (server : Endpoint) (message : Message) (content : Option ServicesRequest)
      (last : BuilderFrameInfo)
      → message.info.dlci < m
      → IsEndpoint m server
      → Goes m (cmux_server_on_incoming_request_with malloc user server message content last)
  unfolding cmux_server_on_incoming_request_with on_sabm_with on_disc_with on_uih_with
  incoming-Goes server message content last h e =
      let dlci = message.info.dlci in
      in_turn-Goes m _ _
        (notify-Goes m user server.options.on_event (event message.info content last) server u refl
          e)
        λ server' e'.
          let (_, (terminal, options)) = entries m server' e' dlci h in
          rw options (
            if-Goes m (has_type message.info.type sabm) _ _
              (in_turn-Goes m _ _
                (if-Goes m (dlci == 0) _ _
                  (notify-Goes m user server'.options.on_start started server' u refl e')
                  (notify-Goes m user terminal.on_terminal_open _ server' u refl e'))
                λ s e''. acknowledged s dlci h e'')
              (if-Goes m (has_type message.info.type disc) _ _
                (if-Goes m (dlci == 0) _ _ (still-Goes m server' e') (
                  in_turn-Goes m _ _
                    (notify-Goes m user terminal.on_terminal_close _ server' u refl e')
                    λ s e''. acknowledged s dlci h e''))
                (if-Goes m (has_type message.info.type uih) _ _
                  (if-Goes m (is_close_down content) _ _
                    (if-Goes m (dlci == 0) _ _
                      (in_turn-Goes m _ _
                        (notify-Goes m user server'.options.on_stop stopped server' u refl e')
                        λ s e''. Runs-Goes m 1 _ (
                          request-Runs malloc fresh m few s e'' true dlci uih _ h tt refl
                            (close_down-IsShort false)))
                      (still-Goes m server' e'))
                    (notify-Goes m user terminal.on_terminal_data _ server' u refl e'))
                  (still-Goes m server' e'))))

  -- A server takes every frame that belongs on the link.
  pub server_handle-Goes :
      (frame : List ℕ) (s : IsSent m frame) (server : Endpoint)
      → IsEndpoint m server
      → Goes m (cmux_server_on_control_message_with malloc user server (delivered s.info s.body))
  unfolding cmux_server_on_control_message_with
  server_handle-Goes frame s server e =
      let ((last, status), _) = entries m server e s.info.dlci s.within in
      let passes =
        le→not_ltb s.info.dlci server.options.maximum_dlci (omega (arith, e.maximum, s.within)) in
      let message = delivered s.info s.body in
      elim (Bool-cases (ltb 0 s.info.length && s.info.dlci == 0)) [
        | inl control ↦
            let (request, decoded) = carried_request m frame s control in
            rw (passes, status, control, decoded)
              (incoming-Goes server message (some request) last s.within e)
        | inr other ↦ rw (passes, status, other) (incoming-Goes server message none last s.within e)
      ]
