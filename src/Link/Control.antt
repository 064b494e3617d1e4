-- ===== src/Link/Control.antt =====
-- The control channel of the link, DLCI 0, from end to end: the link is started and stopped.
use cmux.Base.{ℕ, ◌≡◌, refl, arith, le→not_ltb}
use cmux.Base.{Bool, true, false, none, some, List, [], ◌∷◌, ◌++◌, length}
use cmux.Base.Memory.{read_within}
use cmux.Frame.{sabm, ua, uih, BuilderFrameInfo}
use cmux.Frame.Builder.{builder_frame_length}
use cmux.Frame.RoundTrip.{IsPlain, parsed_info}
use cmux.Buffer.{process_ingress_frame}
use cmux.Buffer.Ingest.{built_frame, delivered, process_ingress_frame-built}
use cmux.Service.{
  service_octet, multiplexer_close_down, service_type, cmux_service_decode, cmux_service_encode,
  cmux_service_encode_get_length,
}
use cmux.Request.{
  ServicesRequest, nothing, cmux_service_request_decode, cmux_service_request_encode,
}
use cmux.Request.{cmux_service_request_get_length, data_length, encode_body, decode_body}
use cmux.Endpoint.{Endpoint, event, sent_to_interface, call_if, started, stopped}
use cmux.Endpoint.{no_port, send_request}
use cmux.Endpoint.State.{IsWellFormed, update_within}
use cmux.Endpoint.Sending.{send_frame_within}
use cmux.Endpoint.Requests.{command, carrying, Sends, command-Sends}
use cmux.Client.{cmux_client_on_control_message, cmux_client_terminal_open, cmux_client_start}
use cmux.Client.{cmux_client_stop, control_calls, incoming_request}
use cmux.Server.{cmux_server_on_control_message, cmux_server_on_incoming_request, on_uih}
use cmux.Link.Received.{command-IsPlain, server_answers_sabm}

-- The request that closes the link down, and its octets.
abbrev close_down : Bool → ServicesRequest
close_down cr = record { service = multiplexer_close_down; cr = cr; service_data = nothing }

abbrev close_octets : Bool → List ℕ
close_octets cr = service_octet multiplexer_close_down cr ∷ 1 ∷ []

abbrev close_frame : Bool → BuilderFrameInfo
close_frame cr = carrying (command uih true 0) 2 (close_octets cr)

decode_close :
    (cr : Bool) (behind : List ℕ)
    → cmux_service_request_decode no_port (some (close_octets cr ++ behind)) 2
      ≡ some (close_down cr)
unfolding cmux_service_request_decode cmux_service_decode decode_body service_type
decode_close true behind = refl
decode_close false behind = refl

encode_close :
    (malloc : ℕ → List ℕ) (cr : Bool) (block : List ℕ)
    → length block ≡ 2
    → cmux_service_request_encode malloc block (close_down cr) ≡ some (close_octets cr)
unfolding cmux_service_request_encode cmux_service_encode data_length encode_body
encode_close malloc cr (a ∷ b ∷ []) e = refl
encode_close malloc cr _ e = absurd (omega arith)

close-IsPlain : (cr : Bool) → IsPlain (close_frame cr) (close_octets cr)
close-IsPlain cr = record {
  dlci_fits = omega arith;
  named = tt;
  not_ui = refl;
  short = omega arith;
  bodied = (refl, refl);
}

-- The frames and the calls of starting and of stopping the link.
abbrev pub StartsLink : (ℕ → List ℕ) → Endpoint → Endpoint → Type 0
StartsLink malloc client server =
    (client' server' : Endpoint) × (last : BuilderFrameInfo) × (cmux_client_start malloc client
      ≡ some (client', sent_to_interface (built_frame (command sabm true 0) []) ∷ []))
    × (process_ingress_frame (built_frame (command sabm true 0) []) (builder_frame_length 0)
        ≡ some (delivered (command sabm true 0) []))
    × (cmux_server_on_control_message malloc server (delivered (command sabm true 0) [])
        ≡ some (
          server',
          call_if server.options.on_event (event (parsed_info (command sabm true 0)) none last)
              ++ (call_if server.options.on_start started
                  ++ (sent_to_interface (built_frame (command ua true 0) []) ∷ [])),
        ))
    × (process_ingress_frame (built_frame (command ua true 0) []) (builder_frame_length 0)
        ≡ some (delivered (command ua true 0) []))
    × (cmux_client_on_control_message client' (delivered (command ua true 0) [])
        ≡ some (
          client',
          call_if client.options.on_event
                (event (parsed_info (command ua true 0)) none (command sabm true 0))
              ++ (call_if client.options.on_start started ++ []),
        ))
    × IsWellFormed client'
    × IsWellFormed server'

abbrev pub StopsLink : (ℕ → List ℕ) → Endpoint → Endpoint → Type 0
StopsLink malloc client server =
    (client' server' : Endpoint) × (last : BuilderFrameInfo) × (cmux_client_stop malloc client
      ≡ some (client', sent_to_interface (built_frame (close_frame true) (close_octets true)) ∷ []))
    × (process_ingress_frame (built_frame (close_frame true) (close_octets true))
          (builder_frame_length 2)
        ≡ some (delivered (close_frame true) (close_octets true)))
    × (cmux_server_on_control_message malloc server
          (delivered (close_frame true) (close_octets true))
        ≡ some (
          server',
          call_if server.options.on_event
                (event (parsed_info (close_frame true)) (some (close_down true)) last)
              ++ (call_if server.options.on_stop stopped
                  ++ (sent_to_interface (built_frame (close_frame false) (close_octets false))
                      ∷ [])),
        ))
    × (process_ingress_frame (built_frame (close_frame false) (close_octets false))
          (builder_frame_length 2)
        ≡ some (delivered (close_frame false) (close_octets false)))
    × (cmux_client_on_control_message client' (delivered (close_frame false) (close_octets false))
        ≡ some (
          client',
          call_if client.options.on_event (
                event (parsed_info (close_frame false)) (some (close_down false))
                  (close_frame true))
              ++ ([] ++ call_if client.options.on_stop stopped),
        ))
    × IsWellFormed client'
    × IsWellFormed server'

module _ (malloc : ℕ → List ℕ) (fresh : (n : ℕ) → length (malloc n) ≡ n) where
  close-Sends :
      (endpoint : Endpoint) (cr : Bool)
      → IsWellFormed endpoint
      → Sends endpoint
          (close_frame cr)
          (close_octets cr)
          (send_request malloc endpoint true 0 uih (some (close_down cr)))
  unfolding send_request cmux_service_request_get_length data_length cmux_service_encode_get_length
  close-Sends endpoint cr w =
      let (statuses, e, r, w') =
        send_frame_within malloc fresh endpoint (close_frame cr) (close_octets cr) w
          (omega (arith, w.positive)) refl (refl, refl) in
      record {
        statuses = statuses;
        sends = rw (encode_close malloc cr (malloc 2) (fresh 2)) e;
        remembers = r;
        well_formed = w';
      }

  module _ (client server : Endpoint) (client_well : IsWellFormed client)
      (server_well : IsWellFormed server) where
    -- The client starts the link: the one frame that it sends reaches the server, which calls
    -- `on_event` and `on_start` where they are there, and answers with one frame; that one reaches the
    -- client, which calls its `on_event` and its `on_start`, and nothing else.
    pub start_handshake : StartsLink malloc client server
    unfolding cmux_client_start cmux_client_terminal_open cmux_client_on_control_message
        incoming_request control_calls
    start_handshake =
        let (updated, u, _, w) =
          update_within client 0 none client_well (omega (arith, client_well.positive)) in
        let opened = record client { terminal_options = updated } in
        let s =
          command-Sends malloc fresh opened w true 0 sabm (omega (arith, client_well.positive))
            refl in
        let (last, status) =
          read_within server.terminal_statuses 0
            (omega (arith, server_well.statuses_sized, server_well.positive)) in
        let (terminal, options) =
          read_within server.terminal_options 0
            (omega (arith, server_well.options_sized, server_well.positive)) in
        let (statuses, answer, w') =
          server_answers_sabm malloc fresh server (delivered (command sabm true 0) []) last terminal
            server_well (omega (arith, server_well.positive)) refl refl status options in
        let passes = le→not_ltb 0 client.options.maximum_dlci (omega arith) in
        (
          record opened { terminal_statuses = s.statuses },
          record server { terminal_statuses = statuses },
          last,
          rw (passes, u) s.sends,
          process_ingress_frame-built _ [] (command-IsPlain sabm true 0 (omega arith) tt refl),
          answer,
          process_ingress_frame-built _ [] (command-IsPlain ua true 0 (omega arith) tt refl),
          rw (passes, s.remembers) refl,
          s.well_formed,
          w',
        )

    -- The client stops the link: the one frame that it sends reaches the server, which calls `on_event`
    -- with the decoded request and `on_stop` where they are there, and answers with one frame, the same
    -- request as a response; that one reaches the client, which calls its `on_event` with it and its
    -- `on_stop`, and nothing else.
    pub stop_handshake : StopsLink malloc client server
    unfolding cmux_client_stop cmux_client_on_control_message incoming_request control_calls
        cmux_server_on_control_message cmux_server_on_incoming_request on_uih
    stop_handshake =
        let s = close-Sends client true client_well in
        let s' = close-Sends server false server_well in
        let (last, status) =
          read_within server.terminal_statuses 0
            (omega (arith, server_well.statuses_sized, server_well.positive)) in
        let (terminal, options) =
          read_within server.terminal_options 0
            (omega (arith, server_well.options_sized, server_well.positive)) in
        (
          record client { terminal_statuses = s.statuses },
          record server { terminal_statuses = s'.statuses },
          last,
          s.sends,
          process_ingress_frame-built _ (close_octets true) (close-IsPlain true),
          rw
              (
                le→not_ltb 0 server.options.maximum_dlci (omega arith),
                status,
                decode_close true _,
                options,
                s'.sends,
              )
              refl,
          process_ingress_frame-built _ (close_octets false) (close-IsPlain false),
          rw
              (
                le→not_ltb 0 client.options.maximum_dlci (omega arith),
                s.remembers,
                decode_close false _,
              )
              refl,
          s.well_formed,
          s'.well_formed,
        )
