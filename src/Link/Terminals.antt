-- ===== src/Link/Terminals.antt =====
-- A terminal of the link from end to end: it is opened, used and closed. The frames are those that
-- lib/cmux/cmux_frame_builder.c builds, and they come in through `process_ingress_frame` of
-- lib/cmux/cmux_buffer.c.
use cmux.Base.{ℕ, ◌≤◌, ◌<◌, ◌≡◌, refl, ◌∙◌, arith, le→not_ltb, ==_ne, lt→ltb}
use cmux.Base.{Bool, true, false, Option, none, some, List, [], ◌∷◌, ◌++◌, read, length}
use cmux.Base.Memory.{read_within}
use cmux.Crc.{cmux_crc}
use cmux.Frame.{sabm, ua, disc, frame_flag, BuilderFrameInfo}
use cmux.Frame.Builder.{builder_frame_length}
use cmux.Frame.Layout.{header_octets}
use cmux.Frame.RoundTrip.{IsPlain, parsed_info}
use cmux.Buffer.{process_ingress_frame}
use cmux.Buffer.Ingest.{built_frame, delivered, process_ingress_frame-built}
use cmux.Endpoint.{Endpoint, TerminalOptions, event, sent_to_interface, call_if, terminal_opened}
use cmux.Endpoint.{terminal_closed, terminal_received}
use cmux.Endpoint.State.{IsWellFormed, given_options, update_within}
use cmux.Endpoint.Requests.{command, data_frame, command-Sends, data-Sends}
use cmux.Client.{cmux_client_on_control_message, cmux_client_terminal_open, terminal_calls}
use cmux.Client.{cmux_client_terminal_send, cmux_client_terminal_close}
use cmux.Server.{cmux_server_on_control_message, cmux_server_terminal_send}
use cmux.Link.Received.{command-IsPlain, client_terminal_message, server_answers_sabm}
use cmux.Link.Received.{server_answers_disc, server_receives_data}

-- The frame of `info` and `body` that one end sends is handed to the other end unchanged.
abbrev Arrives : BuilderFrameInfo → List ℕ → Type 0
Arrives info body =
    process_ingress_frame (built_frame info body) (builder_frame_length info.length)
    ≡ some (delivered info body)

-- The frames and the calls of opening, of closing and of using a terminal.
abbrev pub OpensTerminal :
    (ℕ → List ℕ) → Endpoint → Endpoint → ℕ → TerminalOptions → Option TerminalOptions → Type 0
OpensTerminal malloc client server dlci terminal given =
    (client' server' : Endpoint) × (last : BuilderFrameInfo) × (cmux_client_terminal_open malloc
        client dlci given
      ≡ some (client', sent_to_interface (built_frame (command sabm true dlci) []) ∷ []))
    × Arrives (command sabm true dlci) []
    × (cmux_server_on_control_message malloc server (delivered (command sabm true dlci) [])
        ≡ some (
          server',
          call_if server.options.on_event (event (parsed_info (command sabm true dlci)) none last)
              ++ (call_if terminal.on_terminal_open (terminal_opened dlci)
                  ++ (sent_to_interface (built_frame (command ua true dlci) []) ∷ [])),
        ))
    × Arrives (command ua true dlci) []
    × (cmux_client_on_control_message client' (delivered (command ua true dlci) [])
        ≡ some (client', call_if (given_options given).on_terminal_open (terminal_opened dlci)))
    × IsWellFormed client'
    × IsWellFormed server'

abbrev pub ClosesTerminal :
    (ℕ → List ℕ) → Endpoint → Endpoint → ℕ → TerminalOptions → TerminalOptions → Type 0
ClosesTerminal malloc client server dlci terminal own =
    (client' server' : Endpoint) × (last : BuilderFrameInfo) × (cmux_client_terminal_close malloc
        client dlci
      ≡ some (client', sent_to_interface (built_frame (command disc true dlci) []) ∷ []))
    × Arrives (command disc true dlci) []
    × (cmux_server_on_control_message malloc server (delivered (command disc true dlci) [])
        ≡ some (
          server',
          call_if server.options.on_event (event (parsed_info (command disc true dlci)) none last)
              ++ (call_if terminal.on_terminal_close (terminal_closed dlci)
                  ++ (sent_to_interface (built_frame (command ua true dlci) []) ∷ [])),
        ))
    × Arrives (command ua true dlci) []
    × (cmux_client_on_control_message client' (delivered (command ua true dlci) [])
        ≡ some (client', call_if own.on_terminal_close (terminal_closed dlci)))
    × IsWellFormed client'
    × IsWellFormed server'

abbrev DeliversData :
    (ℕ → List ℕ) → Endpoint → Endpoint → ℕ → TerminalOptions → TerminalOptions → List ℕ → Type 0
DeliversData malloc client server dlci terminal own octets =
    (client' server' : Endpoint) × (last : BuilderFrameInfo) × (behind : List ℕ) × (behind' : List
      ℕ)
    × (cmux_client_terminal_send malloc client dlci octets (length octets)
        ≡ some (client', sent_to_interface (built_frame (data_frame true dlci octets) octets) ∷ []))
    × Arrives (data_frame true dlci octets) octets
    × (cmux_server_on_control_message malloc server (delivered (data_frame true dlci octets) octets)
        ≡ some (
          server,
          call_if server.options.on_event
                (event (parsed_info (data_frame true dlci octets)) none last)
              ++ call_if terminal.on_terminal_data
                  (terminal_received dlci (octets ++ behind) (length octets)),
        ))
    × (cmux_server_terminal_send malloc server dlci octets (length octets)
        ≡ some
            (server', sent_to_interface (built_frame (data_frame false dlci octets) octets) ∷ []))
    × Arrives (data_frame false dlci octets) octets
    × (cmux_client_on_control_message client (delivered (data_frame false dlci octets) octets)
        ≡ some (
          client,
          call_if own.on_terminal_data (terminal_received dlci (octets ++ behind') (length octets)),
        ))

module _ (malloc : ℕ → List ℕ) (fresh : (n : ℕ) → length (malloc n) ≡ n) (client server : Endpoint)
    (client_well : IsWellFormed client) (server_well : IsWellFormed server) (dlci : ℕ)
    (positive : 1 ≤ dlci) (fits : dlci < 64) (client_has : dlci < client.options.maximum_dlci)
    (server_has : dlci < server.options.maximum_dlci) (terminal : TerminalOptions)
    (registered : read server.terminal_options dlci ≡ some terminal) where
  nonzero : ¬ (dlci ≡ 0)
  nonzero e = omega arith

  -- The client opens a terminal on a DLCI between 1 and the maximum of both ends: the one frame that
  -- it sends reaches the server, which calls `on_event` and `on_terminal_open` where they are there,
  -- and answers with one frame; that one reaches the client, which calls the `on_terminal_open` that
  -- was given, and nothing else.
  pub terminal_open_handshake :
      (given : Option TerminalOptions) → OpensTerminal malloc client server dlci terminal given
  unfolding cmux_client_terminal_open terminal_calls
  terminal_open_handshake given =
      let (updated, u, given_there, w) = update_within client dlci given client_well client_has in
      let s =
        command-Sends malloc fresh (record client { terminal_options = updated }) w true dlci sabm
          client_has refl in
      let (last, status) =
        read_within server.terminal_statuses dlci (omega (arith, server_well.statuses_sized)) in
      let open_message = delivered (command sabm true dlci) [] in
      let (statuses, answer, w') =
        server_answers_sabm malloc fresh server open_message last terminal server_well server_has
          refl refl status registered in
      let client' = record client { terminal_options = updated; terminal_statuses = s.statuses } in
      (
        client',
        record server { terminal_statuses = statuses },
        last,
        rw (le→not_ltb dlci client.options.maximum_dlci (omega arith), u) s.sends,
        process_ingress_frame-built _ [] (command-IsPlain sabm true dlci fits tt refl),
        answer ∙ rw (==_ne dlci 0 nonzero) refl,
        process_ingress_frame-built _ [] (command-IsPlain ua true dlci fits tt refl),
        client_terminal_message client' (delivered (command ua true dlci) [])
            (command sabm true dlci) (given_options given) (omega arith) nonzero s.remembers
            given_there,
        s.well_formed,
        w',
      )

  -- The client closes a terminal: the one frame that it sends reaches the server, which calls
  -- `on_event` and `on_terminal_close` where they are there, and answers with one frame; that one
  -- reaches the client, which calls its own `on_terminal_close`, and nothing else.
  pub terminal_close_handshake :
      (own : TerminalOptions)
      → read client.terminal_options dlci ≡ some own
      → ClosesTerminal malloc client server dlci terminal own
  unfolding terminal_calls
  terminal_close_handshake own there =
      let s = command-Sends malloc fresh client client_well true dlci disc client_has refl in
      let (last, status) =
        read_within server.terminal_statuses dlci (omega (arith, server_well.statuses_sized)) in
      let (statuses, answer, w') =
        server_answers_disc malloc fresh server (delivered (command disc true dlci) []) last
          terminal server_well server_has nonzero refl refl status registered in
      let client' = record client { terminal_statuses = s.statuses } in
      (
        client',
        record server { terminal_statuses = statuses },
        last,
        s.sends,
        process_ingress_frame-built _ [] (command-IsPlain disc true dlci fits tt refl),
        answer,
        process_ingress_frame-built _ [] (command-IsPlain ua true dlci fits tt refl),
        client_terminal_message client' (delivered (command ua true dlci) [])
            (command disc true dlci) own (omega arith) nonzero s.remembers there,
        s.well_formed,
        w',
      )

  data-IsPlain :
      (cr : Bool) (octets : List ℕ)
      → length octets < 128
      → IsPlain (data_frame cr dlci octets) octets
  data-IsPlain cr octets small = record {
    dlci_fits = fits;
    named = tt;
    not_ui = refl;
    short = small;
    bodied = (refl, refl);
  }

  -- Data of 1 to 127 octets that the client sends on a terminal reaches the callback of the server,
  -- and data that the server sends reaches the callback of the client: the octets stand at the
  -- pointer, with their number, and the receiver sends nothing back.
  terminal_data_delivered :
      (own : TerminalOptions) (octets : List ℕ)
      → read client.terminal_options dlci ≡ some own
      → 0 < length octets
      → length octets < 128
      → DeliversData malloc client server dlci terminal own octets
  unfolding terminal_calls
  terminal_data_delivered own octets there some_data small =
      let s =
        data-Sends malloc fresh client client_well true dlci octets client_has (omega arith) in
      let s' =
        data-Sends malloc fresh server server_well false dlci octets server_has (omega arith) in
      let (last, status) =
        read_within server.terminal_statuses dlci (omega (arith, server_well.statuses_sized)) in
      let (last', status') =
        read_within client.terminal_statuses dlci (omega (arith, client_well.statuses_sized)) in
      (
        record client { terminal_statuses = s.statuses },
        record server { terminal_statuses = s'.statuses },
        last,
        cmux_crc (header_octets (data_frame true dlci octets)) ∷ frame_flag ∷ [],
        cmux_crc (header_octets (data_frame false dlci octets)) ∷ frame_flag ∷ [],
        s.sends,
        process_ingress_frame-built _ octets (data-IsPlain true octets small),
        server_receives_data malloc server (delivered (data_frame true dlci octets) octets) last
              terminal server_has nonzero refl status registered
            ∙ rw (lt→ltb 0 (length octets) some_data) refl,
        s'.sends,
        process_ingress_frame-built _ octets (data-IsPlain false octets small),
        client_terminal_message client (delivered (data_frame false dlci octets) octets) last' own
              (omega arith) nonzero status' there
            ∙ rw (lt→ltb 0 (length octets) some_data) refl,
      )
