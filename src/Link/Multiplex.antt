-- ===== src/Link/Multiplex.antt =====
-- What the multiplexer of lib/cmux/cmux_client.c and lib/cmux/cmux_server.c is for: the terminals of one
-- link as channels, each with what was sent on it, in its order.
pub mod Delivers
pub mod Ring
use cmux.Base.{
  ℕ, ◌+◌, ◌≤◌, ◌<◌, ◌≡◌, refl, sym, ap, ◌∙◌, arith, ltb, lt→ltb, Bool, true, false, if◌then◌else◌,
}
use cmux.Base.{Option, some, List, [], ◌∷◌, ◌++◌, length, take, take_append, read, ◌>>=◌, All}
use cmux.Base.Memory.{read_within}
use cmux.Crc.{cmux_crc}
use cmux.Frame.{frame_flag, BuilderFrameInfo}
use cmux.Frame.Layout.{header_octets, length-frame_octets}
use cmux.Frame.RoundTrip.{IsPlain, parsed_info}
use cmux.Buffer.{Message, process_ingress_frame}
use cmux.Buffer.Ingest.{built_frame, delivered, process_ingress_frame-built}
use cmux.Endpoint.{
  TerminalOptions, Endpoint, Call, sent_to_interface, event, started, stopped, terminal_opened,
  terminal_closed, terminal_received, call_if, Outcome, send_data,
}
use cmux.Endpoint.Requests.{data_frame, data-Sends}
use cmux.Client.{cmux_client_terminal_send, cmux_client_on_control_message, terminal_calls}
use cmux.Server.{cmux_server_terminal_send, cmux_server_on_control_message}
use cmux.Link.Received.{client_terminal_message, server_receives_data}
use cmux.Link.Frames.{IsEndpoint, frames_of}

-- Data for a terminal.
abbrev pub Piece : Type 0
Piece = ℕ × List ℕ

-- What the callbacks of the terminals get.
abbrev pub received : List Call → List Piece
received [] = []
received (terminal_received dlci octets n ∷ calls) = (dlci, take n octets) ∷ received calls
received (sent_to_interface frame ∷ calls) = received calls
received (event info request last ∷ calls) = received calls
received (started ∷ calls) = received calls
received (stopped ∷ calls) = received calls
received (terminal_opened dlci ∷ calls) = received calls
received (terminal_closed dlci ∷ calls) = received calls

-- One end sends the pieces, one after the other.
unfoldable pub send_each : (Endpoint → ℕ → List ℕ → ℕ → Outcome) → Endpoint → List Piece → Outcome
send_each send endpoint [] = some (endpoint, [])
send_each send endpoint ((dlci, octets) ∷ pieces) = do
  (next, calls) ← send endpoint dlci octets (length octets)
  (last, more) ← send_each send next pieces
  some (last, calls ++ more)

-- The other end takes the frames, one after the other.
unfoldable pub take_each : (Endpoint → Message → Outcome) → Endpoint → List (List ℕ) → Outcome
take_each handle endpoint [] = some (endpoint, [])
take_each handle endpoint (frame ∷ frames) = do
  message ← process_ingress_frame frame (length frame)
  (next, calls) ← handle endpoint message
  (last, more) ← take_each handle next frames
  some (last, calls ++ more)

-- 1 to 127 octets, for a terminal with a DLCI below `m`.
abbrev pub IsPiece : ℕ → Piece → Type 0
IsPiece m (dlci, octets) = (1 ≤ dlci) × (dlci < m) × (0 < length octets) × (length octets < 128)

-- The terminal has a callback for data.
abbrev pub Listens : Endpoint → Piece → Type 0
Listens endpoint (dlci, octets) =
    (terminal : TerminalOptions) × (read endpoint.terminal_options dlci ≡ some terminal)
    × (terminal.on_terminal_data ≡ true)

-- All pieces that one end sends are frames that the other end takes, and its callbacks get just those
-- pieces, in their order; it sends nothing back and stays as it is.
pub record Multiplexes (send : Endpoint → ℕ → List ℕ → ℕ → Outcome)
    (handle : Endpoint → Message → Outcome) (sender receiver : Endpoint) (pieces : List Piece)
    : Type 0 where
  pub after : Endpoint
  pub calls : List Call
  pub sends : send_each send sender pieces ≡ some (after, calls)
  pub calls' : List Call
  pub takes : take_each handle receiver (frames_of calls) ≡ some (receiver, calls')
  pub gets : received calls' ≡ pieces
  pub silent : frames_of calls' ≡ []

pub received-append : (xs ys : List Call) → received (xs ++ ys) ≡ received xs ++ received ys
received-append [] ys = refl
received-append (terminal_received dlci octets n ∷ xs) ys =
    ap (λ t. (dlci, take n octets) ∷ t) (received-append xs ys)
received-append (sent_to_interface frame ∷ xs) ys = received-append xs ys
received-append (event info request last ∷ xs) ys = received-append xs ys
received-append (started ∷ xs) ys = received-append xs ys
received-append (stopped ∷ xs) ys = received-append xs ys
received-append (terminal_opened dlci ∷ xs) ys = received-append xs ys
received-append (terminal_closed dlci ∷ xs) ys = received-append xs ys

pub data-IsPlain :
    (cr : Bool) (m : ℕ) (piece : Piece)
    → m ≤ 64
    → IsPiece m piece
    → IsPlain (data_frame cr piece.0 piece.1) piece.1
data-IsPlain cr m (dlci, octets) few (positive, has, some_data, small) = record {
  dlci_fits = omega arith;
  named = tt;
  not_ui = refl;
  short = small;
  bodied = (refl, refl);
}

-- What the handler does with one piece.
pub record TakesPiece (handle : Endpoint → Message → Outcome) (cr : Bool) (receiver : Endpoint)
    (piece : Piece) : Type 0 where
  pub calls : List Call
  pub takes :
      handle receiver (delivered (data_frame cr piece.0 piece.1) piece.1) ≡ some (receiver, calls)
  pub gets : received calls ≡ piece ∷ []
  pub silent : frames_of calls ≡ []
