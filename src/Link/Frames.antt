-- ===== src/Link/Frames.antt =====
-- The frames that the ends of a link put on the wire, and operations that return.
use mathlib.Core.Option.{some-injective}
use cmux.Base.{ℕ, ◌≤◌, ◌<◌, ◌≡◌, refl, sym, ap, ◌∙◌, arith}
use cmux.Base.{
  Bool, true, false, if◌then◌else◌, Option, none, some, List, [], ◌∷◌, ◌++◌, length, All,
}
use cmux.Frame.{ControlType, is_ui, BuilderFrameInfo}
use cmux.Frame.Octets.{IsNamed}
use cmux.Frame.RoundTrip.{IsPlain}
use cmux.Buffer.Ingest.{built_frame}
use cmux.Request.{ServicesRequest, cmux_service_request_decode, cmux_service_request_get_length}
use cmux.Request.Bodies.{IsSendable}
use cmux.Endpoint.{Endpoint, Call, Outcome, no_port, call_if, send_request}
use cmux.Endpoint.{sent_to_interface, event, started, stopped, terminal_opened, terminal_closed}
use cmux.Endpoint.{terminal_received}
use cmux.Endpoint.State.{IsWellFormed}
use cmux.Endpoint.Requests.{Sends, command, carrying, command-Sends, request-Sends}
use cmux.Endpoint.{after}

-- What the calls hand to the interface.
abbrev pub frames_of : List Call → List (List ℕ)
frames_of [] = []
frames_of (sent_to_interface frame ∷ calls) = frame ∷ frames_of calls
frames_of (event info request last ∷ calls) = frames_of calls
frames_of (started ∷ calls) = frames_of calls
frames_of (stopped ∷ calls) = frames_of calls
frames_of (terminal_opened dlci ∷ calls) = frames_of calls
frames_of (terminal_closed dlci ∷ calls) = frames_of calls
frames_of (terminal_received dlci octets n ∷ calls) = frames_of calls

pub frames_of-append : (xs ys : List Call) → frames_of (xs ++ ys) ≡ frames_of xs ++ frames_of ys
frames_of-append [] ys = refl
frames_of-append (sent_to_interface frame ∷ xs) ys = ap (λ t. frame ∷ t) (frames_of-append xs ys)
frames_of-append (event info request last ∷ xs) ys = frames_of-append xs ys
frames_of-append (started ∷ xs) ys = frames_of-append xs ys
frames_of-append (stopped ∷ xs) ys = frames_of-append xs ys
frames_of-append (terminal_opened dlci ∷ xs) ys = frames_of-append xs ys
frames_of-append (terminal_closed dlci ∷ xs) ys = frames_of-append xs ys
frames_of-append (terminal_received dlci octets n ∷ xs) ys = frames_of-append xs ys

-- A frame on the wire of a link with DLCIs below `m`: the builder made it, of a plain frame, and a
-- message on the control channel is one that the decoder reads, whatever stands behind it.
pub record IsSent (m : ℕ) (frame : List ℕ) : Type 0 where
  pub info : BuilderFrameInfo
  pub body : List ℕ
  pub built : frame ≡ built_frame info body
  pub plain : IsPlain info body
  pub within : info.dlci < m
  pub decodes :
      (behind : List ℕ)
      → info.dlci ≡ 0
      → 0 < info.length
      → (request : ServicesRequest) × (cmux_service_request_decode no_port
            (some (body ++ behind))
            info.length
          ≡ some request)

pub record IsEndpoint (m : ℕ) (endpoint : Endpoint) : Type 0 where
  pub well_formed : IsWellFormed endpoint
  pub maximum : endpoint.options.maximum_dlci ≡ m

-- The operation returns, leaves an endpoint of the same link, and sends frames that belong on it, `n`
-- at most.
pub record Runs (m n : ℕ) (outcome : Outcome) : Type 0 where
  pub next : Endpoint
  pub calls : List Call
  pub returns : outcome ≡ some (next, calls)
  pub sent : All (IsSent m) (frames_of calls)
  pub few : length (frames_of calls) ≤ n
  pub endpoint : IsEndpoint m next

-- Calls that send nothing.
pub record IsSilent (calls : List Call) : Type 0 where
  pub no_frame : frames_of calls ≡ []

pub nil-IsSilent : IsSilent []
nil-IsSilent = record { no_frame = refl }

pub call_if-IsSilent :
    (b : Bool) (call : Call) → frames_of (call ∷ []) ≡ [] → IsSilent (call_if b call)
call_if-IsSilent true call h = record { no_frame = h }
call_if-IsSilent false call h = nil-IsSilent

pub append-IsSilent : (xs ys : List Call) → IsSilent xs → IsSilent ys → IsSilent (xs ++ ys)
append-IsSilent xs ys h h' = record {
  no_frame = frames_of-append xs ys ∙ rw (h.no_frame, h'.no_frame) refl;
}

pub if-IsSilent :
    (b : Bool) (xs ys : List Call) → IsSilent xs → IsSilent ys → IsSilent (if b then xs else ys)
if-IsSilent true xs ys h h' = h
if-IsSilent false xs ys h h' = h'

module _ (m n : ℕ) where
  pub silent-Runs :
      (endpoint : Endpoint) (calls : List Call)
      → IsEndpoint m endpoint
      → IsSilent calls
      → Runs m n (some (endpoint, calls))
  silent-Runs endpoint calls e h = record {
    next = endpoint;
    calls = calls;
    returns = refl;
    sent = rw h.no_frame tt;
    few = rw h.no_frame (omega arith);
    endpoint = e;
  }

  pub after-Runs :
      (calls : List Call) (outcome : Outcome)
      → IsSilent calls
      → Runs m n outcome
      → Runs m n (after calls outcome)
  after-Runs calls outcome h r = record {
    next = r.next;
    calls = calls ++ r.calls;
    returns = ap (after calls) r.returns;
    sent = rw (frames_of-append calls r.calls, h.no_frame) r.sent;
    few = rw (frames_of-append calls r.calls, h.no_frame) r.few;
    endpoint = r.endpoint;
  }

  pub if-Runs :
      (b : Bool) (o o' : Outcome) → Runs m n o → Runs m n o' → Runs m n (if b then o else o')
  if-Runs true o o' r r' = r
  if-Runs false o o' r r' = r'

module _ (m : ℕ) where
  pub Sends-Runs :
      (before : Endpoint) (info : BuilderFrameInfo) (body : List ℕ) (outcome : Outcome)
      → IsEndpoint m before
      → IsPlain info body
      → info.dlci < m
      → ((behind : List ℕ)
          → info.dlci ≡ 0
          → 0 < info.length
          → (request : ServicesRequest) × (cmux_service_request_decode no_port
                (some (body ++ behind))
                info.length
              ≡ some request))
      → Sends before info body outcome
      → Runs m 1 outcome
  Sends-Runs before info body outcome e plain within decodes s = record {
    next = record before { terminal_statuses = s.statuses };
    calls = sent_to_interface (built_frame info body) ∷ [];
    returns = s.sends;
    sent = (
      record {
        info = info;
        body = body;
        built = refl;
        plain = plain;
        within = within;
        decodes = decodes;
      },
      tt,
    );
    few = omega arith;
    endpoint = record { well_formed = s.well_formed; maximum = e.maximum };
  }

-- A request that can be sent, in a frame with one length octet.
abbrev pub IsShort : Option ServicesRequest → Type 0
IsShort none = Unit
IsShort (some request) =
    IsSendable request.service request.service_data
    × ((size : ℕ) × (cmux_service_request_get_length request ≡ some size) × (size < 128))

module _ (malloc : ℕ → List ℕ) (fresh : (n : ℕ) → length (malloc n) ≡ n) (m : ℕ) (few : m ≤ 64)
    (endpoint : Endpoint) (e : IsEndpoint m endpoint) where
  pub request-Runs :
      (poll_final : Bool) (dlci : ℕ) (type : ControlType) (content : Option ServicesRequest)
      → dlci < m
      → IsNamed type
      → is_ui type ≡ false
      → IsShort content
      → Runs m 1 (send_request malloc endpoint poll_final dlci type content)
  request-Runs poll_final dlci type none h named plain short =
      Sends-Runs m endpoint (command type poll_final dlci) [] _ e
        (record {
          dlci_fits = omega arith;
          named = named;
          not_ui = plain;
          short = omega arith;
          bodied = (refl, refl);
        })
        h (λ behind zero_dlci some_data. absurd (omega arith))
        (command-Sends malloc fresh endpoint e.well_formed poll_final dlci type
          (omega (arith, e.maximum)) plain)
  request-Runs poll_final dlci type (some request) h named plain
        (sendable, (size, measured, small)) =
      let (octets, s, _, measured', decoded) =
        request-Sends malloc fresh endpoint e.well_formed poll_final dlci type request
          (omega (arith, e.maximum)) plain sendable in
      let same : size ≡ length octets = some-injective _ _ (sym measured ∙ measured') in
      Sends-Runs m endpoint (carrying (command type poll_final dlci) (length octets) octets) octets
        _ e
        (record {
          dlci_fits = omega arith;
          named = named;
          not_ui = plain;
          short = omega arith;
          bodied = (refl, refl);
        })
        h (λ behind zero_dlci some_data. (_, decoded behind)) s
