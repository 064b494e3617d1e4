-- ===== src/Link/Handles.antt =====
-- What lib/cmux/cmux_client.c and lib/cmux/cmux_server.c make of a frame that belongs on the link:
-- the handlers return.
use cmux.Base.{ℕ, ◌≤◌, ◌<◌, ◌≡◌, refl, arith, le→not_ltb, ltb, ltb→lt, ◌==◌, ==_iff}
use cmux.Base.{
  Bool, true, false, Bool-cases, inl, inr, Option, none, some, List, [], ◌∷◌, length, read, ◌&&◌,
}
use cmux.Base.Memory.{read_within}
use cmux.Crc.{cmux_crc}
use cmux.Frame.{frame_flag, sabm, ua, disc, uih, FrameInfo, BuilderFrameInfo}
use cmux.Frame.Layout.{header_octets, length-frame_octets}
use cmux.Frame.RoundTrip.{sized_body}
use cmux.Request.{ServicesRequest, cmux_service_request_decode}
use cmux.Buffer.{Message, process_ingress_frame}
use cmux.Buffer.Ingest.{delivered, process_ingress_frame-built}
use cmux.Endpoint.{Endpoint, Options, TerminalOptions, event, started, stopped}
use cmux.Endpoint.{call_if, has_type, no_port}
use cmux.Client.{cmux_client_on_control_message, incoming_request, control_calls, terminal_calls}
use cmux.Server.{cmux_server_on_control_message, cmux_server_on_incoming_request}
use cmux.Server.{is_close_down, on_sabm, on_disc, on_uih}
use cmux.Link.Frames.{
  IsSent, IsEndpoint, IsSilent, Runs, nil-IsSilent, call_if-IsSilent, append-IsSilent, if-IsSilent,
}
use cmux.Link.Frames.{silent-Runs, after-Runs, if-Runs, request-Runs}
use cmux.Link.Acts.{close_down-IsShort}

module _ (m : ℕ) (frame : List ℕ) (s : IsSent m frame) where
  -- The frame is handed to the handler, with what was sent.
  pub sent_arrives : process_ingress_frame frame (length frame) ≡ some (delivered s.info s.body)
  sent_arrives =
      let size =
        length-frame_octets s.info s.body (cmux_crc (header_octets s.info))
          (sized_body s.info s.body s.plain) in
      rw (s.built, size) (process_ingress_frame-built s.info s.body s.plain)

control_calls-IsSilent :
    (options : Options) (info : FrameInfo) (last : BuilderFrameInfo)
    (request : Option ServicesRequest)
    → IsSilent (control_calls options info last request)
unfolding control_calls
control_calls-IsSilent options info last request =
    append-IsSilent (call_if options.on_event (event info request last)) _
      (call_if-IsSilent options.on_event _ refl)
      (append-IsSilent _ _ (call_if-IsSilent _ started refl) (call_if-IsSilent _ stopped refl))

terminal_calls-IsSilent :
    (terminal : TerminalOptions) (message : Message) (last : BuilderFrameInfo)
    → IsSilent (terminal_calls terminal message last)
unfolding terminal_calls
terminal_calls-IsSilent terminal message last =
    if-IsSilent (has_type message.info.type ua) _ _
      (if-IsSilent (has_type last.type sabm) _ _ (call_if-IsSilent terminal.on_terminal_open _ refl)
        (if-IsSilent (has_type last.type disc) _ _
          (call_if-IsSilent terminal.on_terminal_close _ refl) nil-IsSilent))
      (if-IsSilent (has_type message.info.type uih) _ _
        (call_if-IsSilent terminal.on_terminal_data _ refl) nil-IsSilent)

module _ (m : ℕ) (endpoint : Endpoint) (e : IsEndpoint m endpoint) (dlci : ℕ) (h : dlci < m) where
  pub entries :
      ((last : BuilderFrameInfo) × (read endpoint.terminal_statuses dlci ≡ some last))
      × ((terminal : TerminalOptions) × (read endpoint.terminal_options dlci ≡ some terminal))
  entries = (
    read_within endpoint.terminal_statuses dlci
        (omega (arith, e.maximum, e.well_formed.statuses_sized)),
    read_within endpoint.terminal_options dlci
        (omega (arith, e.maximum, e.well_formed.options_sized)),
  )

module _ (m : ℕ) (frame : List ℕ) (s : IsSent m frame) where
  -- The request in a message of the control channel is decoded.
  pub decoded_request :
      s.info.dlci ≡ 0
      → (content : Option ServicesRequest) × (incoming_request (delivered s.info s.body)
          ≡ some content)
  unfolding incoming_request
  decoded_request control = elim (Bool-cases (ltb 0 s.info.length)) [
    | inl some_data ↦
        let (request, d) =
          s.decodes (cmux_crc (header_octets s.info) ∷ frame_flag ∷ []) control
            (ltb→lt 0 s.info.length some_data) in
        (some request, rw (some_data, d) refl)
    | inr no_data ↦ (none, rw no_data refl)
  ]

  -- A client takes every frame that belongs on the link.
  pub client_handle-Runs :
      (client : Endpoint)
      → IsEndpoint m client
      → Runs m 0 (cmux_client_on_control_message client (delivered s.info s.body))
  unfolding cmux_client_on_control_message
  client_handle-Runs client e =
      let ((last, status), (terminal, options)) = entries m client e s.info.dlci s.within in
      let passes =
        le→not_ltb s.info.dlci client.options.maximum_dlci (omega (arith, e.maximum, s.within)) in
      elim (Bool-cases (s.info.dlci == 0)) [
        | inl control ↦
            let (content, d) = decoded_request ((==_iff s.info.dlci 0).0 control) in
            rw (passes, status, control, d)
              (silent-Runs m 0 client _ e (control_calls-IsSilent client.options _ last content))
        | inr other ↦
            rw (passes, status, other, options)
              (silent-Runs m 0 client _ e (terminal_calls-IsSilent terminal _ last))
      ]

both : (a b : Bool) → (a && b) ≡ true → (a ≡ true) × (b ≡ true)
both true true e = (refl, refl)
both true false e = cc
both false b e = cc

-- The request that a server decodes.
pub carried_request :
    (m : ℕ) (frame : List ℕ) (s : IsSent m frame)
    → (ltb 0 s.info.length && s.info.dlci == 0) ≡ true
    → (request : ServicesRequest) × (cmux_service_request_decode no_port
          (some (delivered s.info s.body).octets)
          s.info.length
        ≡ some request)
carried_request m frame s control =
    let (some_data, zero_dlci) = both (ltb 0 s.info.length) (s.info.dlci == 0) control in
    let (request, d) =
      s.decodes (cmux_crc (header_octets s.info) ∷ frame_flag ∷ [])
        ((==_iff s.info.dlci 0).0 zero_dlci) (ltb→lt 0 s.info.length some_data) in
    (request, rw (some_data, d) refl)

module _ (malloc : ℕ → List ℕ) (fresh : (n : ℕ) → length (malloc n) ≡ n) (m : ℕ) (few : m ≤ 64)
    (server : Endpoint) (e : IsEndpoint m server) where
  incoming-Runs :
      (message : Message) (content : Option ServicesRequest) (last : BuilderFrameInfo)
      → message.info.dlci < m
      → Runs m 1 (cmux_server_on_incoming_request malloc server message content last)
  unfolding cmux_server_on_incoming_request on_sabm on_disc on_uih
  incoming-Runs message content last h =
      let dlci = message.info.dlci in
      let (_, (terminal, options)) = entries m server e dlci h in
      let acknowledged = request-Runs malloc fresh m few server e true dlci ua none h tt refl tt in
      rw options (
        after-Runs m 1 _ _ (call_if-IsSilent server.options.on_event _ refl) (
          if-Runs m 1 (has_type message.info.type sabm) _ _
            (after-Runs m 1 _ _
              (if-IsSilent (dlci == 0) _ _ (call_if-IsSilent server.options.on_start _ refl)
                (call_if-IsSilent terminal.on_terminal_open _ refl))
              acknowledged)
            (if-Runs m 1 (has_type message.info.type disc) _ _
              (if-Runs m 1 (dlci == 0) _ _ (silent-Runs m 1 server [] e nil-IsSilent) (
                after-Runs m 1 _ _ (call_if-IsSilent terminal.on_terminal_close _ refl)
                  acknowledged))
              (if-Runs m 1 (has_type message.info.type uih) _ _
                (if-Runs m 1 (is_close_down content) _ _
                  (if-Runs m 1 (dlci == 0) _ _
                    (after-Runs m 1 _ _ (call_if-IsSilent server.options.on_stop _ refl) (
                      request-Runs malloc fresh m few server e true dlci uih _ h tt refl
                        (close_down-IsShort false)))
                    (silent-Runs m 1 server [] e nil-IsSilent))
                  (silent-Runs m 1 server _ e (call_if-IsSilent terminal.on_terminal_data _ refl)))
                (silent-Runs m 1 server [] e nil-IsSilent)))))

  -- A server takes every frame that belongs on the link.
  pub server_handle-Runs :
      (frame : List ℕ) (s : IsSent m frame)
      → Runs m 1 (cmux_server_on_control_message malloc server (delivered s.info s.body))
  unfolding cmux_server_on_control_message
  server_handle-Runs frame s =
      let ((last, status), _) = entries m server e s.info.dlci s.within in
      let passes =
        le→not_ltb s.info.dlci server.options.maximum_dlci (omega (arith, e.maximum, s.within)) in
      let message = delivered s.info s.body in
      elim (Bool-cases (ltb 0 s.info.length && s.info.dlci == 0)) [
        | inl control ↦
            let (request, decoded) = carried_request m frame s control in
            rw (passes, status, control, decoded)
              (incoming-Runs message (some request) last s.within)
        | inr other ↦ rw (passes, status, other) (incoming-Runs message none last s.within)
      ]
