-- ===== src/Link/Multiplex/Ring.antt =====
-- The terminals of one link, with the rings of lib/cmux/cmux_buffer.c that cmux_client_ingest and
-- cmux_server_ingest go through.
use mathlib.Core.List.{append-nil}
use Prim.Native.Nat.{min}
use cmux.Base.{ℕ, ◌+◌, ◌≤◌, ◌≡◌, refl, sym, ap, ◌∙◌, arith, Bool, true, false}
use cmux.Base.{Option, some, List, [], ◌∷◌, ◌++◌, length, take, take_beyond, replicate, All, ◌>>=◌}
use cmux.Buffer.{Message, cmux_buffer_ingest}
use cmux.Buffer.Ring.{RingBuffer, IsRingBuffer, Straight}
use cmux.Buffer.Ingest.{built_frame, delivered}
use cmux.Buffer.Ingest.Found.{behind, process_ingress-built}
use cmux.Buffer.Ingest.Drain.{written_nothing}
use cmux.Endpoint.{Endpoint, Call, Outcome, sent_to_interface, send_data}
use cmux.Endpoint.Requests.{data_frame, data-Sends}
use cmux.Client.{cmux_client_terminal_send, cmux_client_on_control_message, cmux_client_ingest}
use cmux.Server.{cmux_server_terminal_send, cmux_server_on_control_message, cmux_server_ingest}
use cmux.Link.Frames.{IsEndpoint, frames_of}
use cmux.Link.Multiplex.{
  Piece, received, received-append, send_each, IsPiece, Listens, data-IsPlain, TakesPiece,
}
use cmux.Link.Multiplex.Delivers.{client-TakesPiece, server-TakesPiece}

-- The frames of the pieces, one behind the other.
abbrev pub piece_octets : Bool → List Piece → List ℕ
piece_octets cr [] = []
piece_octets cr ((dlci, octets) ∷ pieces) =
    built_frame (data_frame cr dlci octets) octets ++ piece_octets cr pieces

abbrev pub joined : List (List ℕ) → List ℕ
joined [] = []
joined (frame ∷ frames) = frame ++ joined frames

-- What `ingest` gives: the number of octets taken, the ring and the endpoint behind, and the calls.
abbrev pub Ingested : RingBuffer → Type 0
Ingested lwrb = Option (ℕ × lwrb.Ring × Endpoint × List Call)

-- `ingest` again and again, with the octets that come in each time.
unfoldable pub ingest_all :
    (lwrb : RingBuffer)
    → (Endpoint → lwrb.Ring → List ℕ → Ingested lwrb)
    → Endpoint
    → lwrb.Ring
    → List (List ℕ)
    → Ingested lwrb
ingest_all lwrb ingest endpoint ring [] = some (0, ring, endpoint, [])
ingest_all lwrb ingest endpoint ring (octets ∷ more) = do
  (count, ring', next, calls) ← ingest endpoint ring octets
  (counts, ring'', last, calls') ← ingest_all lwrb ingest next ring' more
  some (count + counts, ring'', last, calls ++ calls')

-- One end sends the pieces, their octets come into the ring of the other end in one call of its
-- `ingest`, and with the calls after it that bring nothing new, one for each further piece, the callbacks
-- of the terminals get just the pieces, in their order, and the ring is empty.
pub record Passes (lwrb : RingBuffer) (laws : IsRingBuffer lwrb)
    (send : Endpoint → ℕ → List ℕ → ℕ → Outcome)
    (ingest : Endpoint → lwrb.Ring → List ℕ → Ingested lwrb) (sender receiver : Endpoint)
    (ring : lwrb.Ring) (octets : List ℕ) (piece : Piece) (pieces : List Piece) : Type 0 where
  pub after : Endpoint
  pub sent : List Call
  pub sends : send_each send sender (piece ∷ pieces) ≡ some (after, sent)
  pub octets_sent : joined (frames_of sent) ≡ octets
  pub emptied : lwrb.Ring
  pub calls : List Call
  pub takes :
      ingest_all lwrb ingest receiver ring (octets ∷ replicate (length pieces) [])
      ≡ some (min (length octets) (laws.room ring), emptied, receiver, calls)
  pub gets : received calls ≡ piece ∷ pieces
  pub empty : laws.bytes emptied ≡ []

module _ (lwrb : RingBuffer) (laws : IsRingBuffer lwrb) (straight : Straight lwrb laws)
    (malloc : ℕ → List ℕ) (fresh : (n : ℕ) → length (malloc n) ≡ n) (m : ℕ) (few : m ≤ 64) where
  sent_octets :
      (cr : Bool) (sender : Endpoint) (pieces : List Piece)
      → IsEndpoint m sender
      → All (IsPiece m) pieces
      → (after : Endpoint) × (sent : List Call) × (send_each
            (λ e dlci octets len. send_data malloc e cr dlci octets len)
            sender
            pieces
          ≡ some (after, sent))
        × (joined (frames_of sent) ≡ piece_octets cr pieces)
  unfolding send_each
  sent_octets cr sender [] e p = (sender, [], refl, refl)
  sent_octets cr sender ((dlci, octets) ∷ pieces) e p =
      let (positive, has, some_data, small) = p.0 in
      let frame = built_frame (data_frame cr dlci octets) octets in
      let s =
        data-Sends malloc fresh sender e.well_formed cr dlci octets (omega (arith, e.maximum, has))
          (omega (arith, small)) in
      let (after, sent, sends, same) =
        sent_octets cr (record sender { terminal_statuses = s.statuses }) pieces
          (record { well_formed = s.well_formed; maximum = e.maximum }) p.1 in
      (after, sent_to_interface frame ∷ sent, rw (s.sends, sends) refl, ap (λ t. frame ++ t) same)

  module _ (cr : Bool) (handle : Endpoint → Message → Outcome)
      (ingest : Endpoint → lwrb.Ring → List ℕ → Ingested lwrb)
      (goes_on : (endpoint next : Endpoint) (ring ring' : lwrb.Ring) (octets : List ℕ) (count : ℕ)
          (message : Message) (calls : List Call)
        → cmux_buffer_ingest lwrb malloc ring octets ≡ some (count, ring', some message)
        → handle endpoint message ≡ some (next, calls)
        → ingest endpoint ring octets ≡ some (count, ring', next, calls))
      (receiver : Endpoint)
      (t : (piece : Piece)
        → IsPiece m piece
        → Listens receiver piece
        → TakesPiece handle cr receiver piece) where
    first_taken :
        (dlci : ℕ) (data_octets rest : List ℕ) (ring : lwrb.Ring) (octets : List ℕ)
        → IsPiece m (dlci, data_octets)
        → Listens receiver (dlci, data_octets)
        → straight.IsStraight (lwrb.write ring octets).1
        → laws.bytes (lwrb.write ring octets).1
          ≡ built_frame (data_frame cr dlci data_octets) data_octets ++ rest
        → (ring' : lwrb.Ring) × (calls : List Call) × (ingest receiver ring octets
            ≡ some (min (length octets) (laws.room ring), ring', receiver, calls))
          × (received calls ≡ (dlci, data_octets) ∷ [])
          × (laws.bytes ring' ≡ rest)
          × straight.IsStraight ring'
    unfolding cmux_buffer_ingest
    first_taken dlci data_octets rest ring octets p l s stored =
        let info = data_frame cr dlci data_octets in
        let written = (lwrb.write ring octets).1 in
        let frame = built_frame info data_octets in
        let stored' : laws.bytes written ≡ [] ++ (frame ++ (rest ++ [])) =
          stored ∙ ap (λ r. frame ++ r) (sym (append-nil rest)) in
        let (processed, left) =
          process_ingress-built lwrb laws malloc fresh info data_octets
            (data-IsPlain cr m (dlci, data_octets) few p) written [] rest [] stored'
            (straight.linear written s ∙ ap length stored) tt in
        let taken = t (dlci, data_octets) p l in
        (
          behind lwrb written info [],
          taken.calls,
          goes_on receiver receiver ring (behind lwrb written info []) octets _
              (delivered info data_octets) taken.calls
              (rw (processed, laws.write_count ring octets) refl) taken.takes,
          taken.gets,
          left ∙ append-nil rest,
          straight.read_some (lwrb.skip written 0) _ (straight.skip_some written 0 s),
        )

    one_after_another :
        (piece : Piece) (pieces : List Piece) (ring : lwrb.Ring) (octets : List ℕ)
        → All (IsPiece m) (piece ∷ pieces)
        → All (Listens receiver) (piece ∷ pieces)
        → straight.IsStraight (lwrb.write ring octets).1
        → laws.bytes (lwrb.write ring octets).1 ≡ piece_octets cr (piece ∷ pieces)
        → (emptied : lwrb.Ring) × (calls : List Call) × (ingest_all lwrb ingest receiver ring
              (octets ∷ replicate (length pieces) [])
            ≡ some (min (length octets) (laws.room ring), emptied, receiver, calls))
          × (received calls ≡ piece ∷ pieces)
          × (laws.bytes emptied ≡ [])
    unfolding ingest_all cmux_buffer_ingest
    one_after_another (dlci, data_octets) [] ring octets p l s stored =
        let (ring', calls, one, gets, empty, _) =
          first_taken dlci data_octets [] ring octets p.0 l.0 s stored in
        (
          ring',
          calls ++ [],
          rw one (ap (λ n. some (n, ring', receiver, calls ++ [])) (omega arith)),
          rw (append-nil calls) gets,
          empty,
        )
    one_after_another (dlci, data_octets) (piece ∷ pieces) ring octets p l s stored =
        let (ring', calls, one, gets, left, s') =
          first_taken dlci data_octets (piece_octets cr (piece ∷ pieces)) ring octets p.0 l.0 s
            stored in
        let (emptied, calls', later, gets', empty) =
          one_after_another piece pieces ring' [] p.1 l.1 (straight.write_nothing ring' s')
            (written_nothing lwrb laws malloc fresh ring' ∙ left) in
        (
          emptied,
          calls ++ calls',
          rw (one, later) (ap (λ n. some (n, emptied, receiver, calls ++ calls')) (omega arith)),
          received-append calls calls'
              ∙ ap (λ r. r ++ received calls') gets
              ∙ ap (λ r. (dlci, data_octets) ∷ r) gets',
          empty,
        )

  passed :
      (cr : Bool) (handle : Endpoint → Message → Outcome)
      (ingest : Endpoint → lwrb.Ring → List ℕ → Ingested lwrb)
      → ((endpoint next : Endpoint) (ring ring' : lwrb.Ring) (octets : List ℕ) (count : ℕ)
            (message : Message) (calls : List Call)
          → cmux_buffer_ingest lwrb malloc ring octets ≡ some (count, ring', some message)
          → handle endpoint message ≡ some (next, calls)
          → ingest endpoint ring octets ≡ some (count, ring', next, calls))
      → (sender receiver : Endpoint)
      → ((piece : Piece)
          → IsPiece m piece
          → Listens receiver piece
          → TakesPiece handle cr receiver piece)
      → (ring : lwrb.Ring) (piece : Piece) (pieces : List Piece) → IsEndpoint m sender
      → All (IsPiece m) (piece ∷ pieces)
      → All (Listens receiver) (piece ∷ pieces)
      → laws.bytes ring ≡ []
      → length (piece_octets cr (piece ∷ pieces)) ≤ laws.room ring
      → straight.IsStraight (lwrb.write ring (piece_octets cr (piece ∷ pieces))).1
      → Passes lwrb laws
          (λ e dlci octets len. send_data malloc e cr dlci octets len)
          ingest
          sender
          receiver
          ring
          (piece_octets cr (piece ∷ pieces))
          piece
          pieces
  passed cr handle ingest goes_on sender receiver t ring piece pieces e p l nothing fits s =
      let octets = piece_octets cr (piece ∷ pieces) in
      let (after, sent, sends, same) = sent_octets cr sender (piece ∷ pieces) e p in
      let stored : laws.bytes (lwrb.write ring octets).1 ≡ octets =
        laws.write_bytes ring octets
        ∙ ap (λ b. b ++ take (laws.room ring) octets) nothing
        ∙ take_beyond octets (laws.room ring) fits in
      let (emptied, calls, takes, gets, empty) =
        one_after_another cr handle ingest goes_on receiver t piece pieces ring octets p l s
          stored in
      record {
        after = after;
        sent = sent;
        sends = sends;
        octets_sent = same;
        emptied = emptied;
        calls = calls;
        takes = takes;
        gets = gets;
        empty = empty;
      }

  client_goes_on :
      (endpoint next : Endpoint) (ring ring' : lwrb.Ring) (octets : List ℕ) (count : ℕ)
      (message : Message) (calls : List Call)
      → cmux_buffer_ingest lwrb malloc ring octets ≡ some (count, ring', some message)
      → cmux_client_on_control_message endpoint message ≡ some (next, calls)
      → cmux_client_ingest malloc lwrb endpoint ring octets ≡ some (count, ring', next, calls)
  unfolding cmux_client_ingest
  client_goes_on endpoint next ring ring' octets count message calls e h = rw (e, h) refl

  server_goes_on :
      (endpoint next : Endpoint) (ring ring' : lwrb.Ring) (octets : List ℕ) (count : ℕ)
      (message : Message) (calls : List Call)
      → cmux_buffer_ingest lwrb malloc ring octets ≡ some (count, ring', some message)
      → cmux_server_on_control_message malloc endpoint message ≡ some (next, calls)
      → cmux_server_ingest malloc lwrb endpoint ring octets ≡ some (count, ring', next, calls)
  unfolding cmux_server_ingest
  server_goes_on endpoint next ring ring' octets count message calls e h = rw (e, h) refl

  -- On a link with at most 64 DLCIs, one end sends one or more pieces of data of 1 to 127 octets each,
  -- in any order on any terminals that have a callback for data at the other end. Their octets come into
  -- the empty ring of that end in one call of its ingest function; they fit, and do not go round the end
  -- of the ring's memory. With that call and one for each further piece, with nothing new, the callbacks
  -- there get just the pieces, each on its terminal, in order and unchanged; all octets are taken and the
  -- ring is empty. So it is from the client to the server, and from the server to the client.
  pub link-Passes :
      (client server : Endpoint) (ring ring' : lwrb.Ring) (piece piece' : Piece)
      (pieces pieces' : List Piece)
      → IsEndpoint m client
      → IsEndpoint m server
      → All (IsPiece m) (piece ∷ pieces)
      → All (IsPiece m) (piece' ∷ pieces')
      → All (Listens server) (piece ∷ pieces)
      → All (Listens client) (piece' ∷ pieces')
      → laws.bytes ring ≡ []
      → laws.bytes ring' ≡ []
      → length (piece_octets true (piece ∷ pieces)) ≤ laws.room ring
      → length (piece_octets false (piece' ∷ pieces')) ≤ laws.room ring'
      → straight.IsStraight (lwrb.write ring (piece_octets true (piece ∷ pieces))).1
      → straight.IsStraight (lwrb.write ring' (piece_octets false (piece' ∷ pieces'))).1
      → Passes lwrb laws
          (cmux_client_terminal_send malloc)
          (cmux_server_ingest malloc lwrb)
          client
          server
          ring
          (piece_octets true (piece ∷ pieces))
          piece
          pieces
        × Passes lwrb laws
            (cmux_server_terminal_send malloc)
            (cmux_client_ingest malloc lwrb)
            server
            client
            ring'
            (piece_octets false (piece' ∷ pieces'))
            piece'
            pieces'
  link-Passes client server ring ring' piece piece' pieces pieces' c d p p' l l' b b' f f' s s' = (
    passed true (cmux_server_on_control_message malloc) (cmux_server_ingest malloc lwrb)
        server_goes_on client server (server-TakesPiece malloc fresh m few server d) ring piece
        pieces c p l b f s,
    passed false cmux_client_on_control_message (cmux_client_ingest malloc lwrb) client_goes_on
        server client (client-TakesPiece malloc fresh m few client c) ring' piece' pieces' d p' l'
        b' f' s',
  )
