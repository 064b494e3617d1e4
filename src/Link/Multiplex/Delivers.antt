-- ===== src/Link/Multiplex/Delivers.antt =====
-- Each terminal of a link of lib/cmux/cmux_client.c and lib/cmux/cmux_server.c gets what was sent on it.
use cmux.Base.{ℕ, ◌≤◌, ◌≡◌, refl, ap, ◌∙◌, arith, lt→ltb, Bool, true, false}
use cmux.Base.{none, List, [], ◌∷◌, ◌++◌, length, take_append, All}
use cmux.Base.Memory.{read_within}
use cmux.Crc.{cmux_crc}
use cmux.Frame.{frame_flag}
use cmux.Frame.Layout.{header_octets, length-frame_octets}
use cmux.Frame.RoundTrip.{parsed_info, sized_body}
use cmux.Buffer.{Message, process_ingress_frame}
use cmux.Buffer.Ingest.{built_frame, delivered, process_ingress_frame-built}
use cmux.Endpoint.{
  Endpoint, Call, sent_to_interface, event, terminal_received, call_if, Outcome, send_data,
}
use cmux.Endpoint.Requests.{data_frame, data-Sends}
use cmux.Client.{cmux_client_terminal_send, cmux_client_on_control_message, terminal_calls}
use cmux.Server.{cmux_server_terminal_send, cmux_server_on_control_message}
use cmux.Link.Received.{client_terminal_message, server_receives_data}
use cmux.Link.Frames.{IsEndpoint, frames_of, frames_of-append}
use cmux.Link.Multiplex.{
  Piece, received, received-append, send_each, take_each, IsPiece, Listens, Multiplexes,
  data-IsPlain, TakesPiece,
}

nothing_received :
    (b : Bool) (call : Call) → received (call ∷ []) ≡ [] → received (call_if b call) ≡ []
nothing_received true call e = e
nothing_received false call e = refl

nothing_sent :
    (b : Bool) (call : Call) → frames_of (call ∷ []) ≡ [] → frames_of (call_if b call) ≡ []
nothing_sent true call e = e
nothing_sent false call e = refl

module _ (malloc : ℕ → List ℕ) (fresh : (n : ℕ) → length (malloc n) ≡ n) (m : ℕ)
    (few : m ≤ 64) where
  all_pieces-Multiplexes :
      (cr : Bool) (handle : Endpoint → Message → Outcome) (receiver : Endpoint)
      → ((piece : Piece)
          → IsPiece m piece
          → Listens receiver piece
          → TakesPiece handle cr receiver piece)
      → (sender : Endpoint) (pieces : List Piece) → IsEndpoint m sender
      → All (IsPiece m) pieces
      → All (Listens receiver) pieces
      → Multiplexes
          (λ e dlci octets len. send_data malloc e cr dlci octets len)
          handle
          sender
          receiver
          pieces
  unfolding send_each take_each
  all_pieces-Multiplexes cr handle receiver t sender [] e p l = record {
    after = sender;
    calls = [];
    sends = refl;
    calls' = [];
    takes = refl;
    gets = refl;
    silent = refl;
  }
  all_pieces-Multiplexes cr handle receiver t sender ((dlci, octets) ∷ pieces) e p l =
      let (positive, has, some_data, small) = p.0 in
      let info = data_frame cr dlci octets in
      let plain = data-IsPlain cr m (dlci, octets) few p.0 in
      let s =
        data-Sends malloc fresh sender e.well_formed cr dlci octets (omega (arith, e.maximum, has))
          (omega (arith, small)) in
      let next = record sender { terminal_statuses = s.statuses } in
      let first = t (dlci, octets) p.0 l.0 in
      let rest =
        all_pieces-Multiplexes cr handle receiver t next pieces
          (record { well_formed = s.well_formed; maximum = e.maximum }) p.1 l.1 in
      let arrives =
        ap (process_ingress_frame (built_frame info octets)) (
          length-frame_octets info octets (cmux_crc (header_octets info))
            (sized_body info octets plain))
        ∙ process_ingress_frame-built info octets plain in
      record {
        after = rest.after;
        calls = sent_to_interface (built_frame info octets) ∷ rest.calls;
        sends = rw (s.sends, rest.sends) refl;
        calls' = first.calls ++ rest.calls';
        takes = rw (arrives, first.takes, rest.takes) refl;
        gets =
            received-append first.calls rest.calls'
            ∙ ap (λ r. r ++ received rest.calls') first.gets
            ∙ ap (λ r. (dlci, octets) ∷ r) rest.gets;
        silent =
            frames_of-append first.calls rest.calls'
            ∙ ap (λ r. r ++ frames_of rest.calls') first.silent
            ∙ rest.silent;
      }

  pub client-TakesPiece :
      (client : Endpoint)
      → IsEndpoint m client
      → (piece : Piece) → IsPiece m piece
      → Listens client piece
      → TakesPiece cmux_client_on_control_message false client piece
  unfolding terminal_calls
  client-TakesPiece client e (dlci, octets) p (terminal, there, listens) =
      let (positive, has, some_data, small) = p in
      let info = data_frame false dlci octets in
      let behind : List ℕ = cmux_crc (header_octets info) ∷ frame_flag ∷ [] in
      let (last, status) =
        read_within client.terminal_statuses dlci
          (omega (arith, e.maximum, e.well_formed.statuses_sized)) in
      record {
        calls = terminal_received dlci (octets ++ behind) (length octets) ∷ [];
        takes =
            client_terminal_message client (delivered info octets) last terminal
              (omega (arith, e.maximum)) (λ z. omega (arith, z, positive)) status there
            ∙ rw (lt→ltb 0 (length octets) some_data, listens) refl;
        gets = ap (λ t. (dlci, t) ∷ []) (take_append octets behind);
        silent = refl;
      }

  pub server-TakesPiece :
      (server : Endpoint)
      → IsEndpoint m server
      → (piece : Piece) → IsPiece m piece
      → Listens server piece
      → TakesPiece (cmux_server_on_control_message malloc) true server piece
  server-TakesPiece server e (dlci, octets) p (terminal, there, listens) =
      let (positive, has, some_data, small) = p in
      let info = data_frame true dlci octets in
      let behind : List ℕ = cmux_crc (header_octets info) ∷ frame_flag ∷ [] in
      let (last, status) =
        read_within server.terminal_statuses dlci
          (omega (arith, e.maximum, e.well_formed.statuses_sized)) in
      let told = event (parsed_info info) none last in
      let got = terminal_received dlci (octets ++ behind) (length octets) in
      record {
        calls = call_if server.options.on_event told ++ (got ∷ []);
        takes =
            server_receives_data malloc server (delivered info octets) last terminal
              (omega (arith, e.maximum)) (λ z. omega (arith, z, positive)) refl status there
            ∙ rw (lt→ltb 0 (length octets) some_data, listens) refl;
        gets =
            received-append (call_if server.options.on_event told) (got ∷ [])
            ∙ ap (λ r. r ++ received (got ∷ []))
                (nothing_received server.options.on_event told refl)
            ∙ ap (λ t. (dlci, t) ∷ []) (take_append octets behind);
        silent =
            frames_of-append (call_if server.options.on_event told) (got ∷ [])
            ∙ ap (λ r. r ++ []) (nothing_sent server.options.on_event told refl);
      }

  -- On a link with at most 64 DLCIs, data of 1 to 127 octets each, for any terminals that have a
  -- callback for data at the other end, in any order: all of it is sent, the other end takes each of
  -- the frames, and its callbacks get just that data, each piece on its terminal, in their order and
  -- unchanged. The other end sends nothing back and stays as it is. So it is from the client to the
  -- server, and from the server to the client.
  pub link-Multiplexes :
      (client server : Endpoint) (pieces pieces' : List Piece)
      → IsEndpoint m client
      → IsEndpoint m server
      → All (IsPiece m) pieces
      → All (IsPiece m) pieces'
      → All (Listens server) pieces
      → All (Listens client) pieces'
      → Multiplexes
          (cmux_client_terminal_send malloc)
          (cmux_server_on_control_message malloc)
          client
          server
          pieces
        × Multiplexes
            (cmux_server_terminal_send malloc)
            cmux_client_on_control_message
            server
            client
            pieces'
  link-Multiplexes client server pieces pieces' c d p p' l l' = (
    all_pieces-Multiplexes true (cmux_server_on_control_message malloc) server
        (server-TakesPiece server d) client pieces c p l,
    all_pieces-Multiplexes false cmux_client_on_control_message client (client-TakesPiece client c)
        server pieces' d p' l',
  )
