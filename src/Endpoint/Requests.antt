-- ===== src/Endpoint/Requests.antt =====
-- The commands, requests and data that an endpoint of lib/cmux/cmux_client.c and
-- lib/cmux/cmux_server.c sends.
use cmux.Base.{ℕ, ◌<◌, ◌≡◌, refl, sym, ap, ◌∙◌, arith, u16, ◌^◌}
use cmux.Base.{Bool, true, false, Option, none, some, List, [], ◌∷◌, length, read}
use cmux.Base.Memory.{>>=-eq-some}
use cmux.Frame.{ControlType, is_ui, uih, BuilderFrameInfo}
use cmux.Buffer.Ingest.{built_frame}
use cmux.Request.{ServicesRequest, cmux_service_request_get_length, cmux_service_request_encode}
use cmux.Request.{cmux_service_request_decode}
use cmux.Request.Bodies.{IsSendable, received, followed}
use cmux.Request.RoundTrip.{sendable_length, request_decode-encode}
use cmux.Base.{◌++◌}
use cmux.Endpoint.{Endpoint, Call, sent_to_interface, no_port, send_request, send_data}
use cmux.Endpoint.State.{IsWellFormed}
use cmux.Endpoint.Sending.{send_frame_within, send_frame-IsWellFormed}

-- The frame of a command with no data, of a request, and of data.
abbrev pub command : ControlType → Bool → ℕ → BuilderFrameInfo
command type poll_final dlci = record {
  ea = true;
  cr = true;
  dlci = dlci;
  type = type;
  poll_final = poll_final;
  length = 0;
  frame_data_body = none;
}

abbrev pub carrying : BuilderFrameInfo → ℕ → List ℕ → BuilderFrameInfo
carrying info size octets = record info { length = size; frame_data_body = some octets }

abbrev pub data_frame : Bool → ℕ → List ℕ → BuilderFrameInfo
data_frame cr dlci octets = record {
  ea = true;
  cr = cr;
  dlci = dlci;
  type = uih;
  poll_final = false;
  length = length octets;
  frame_data_body = some octets;
}

-- The operation sends this one frame, which is the last one of its DLCI from then on, and nothing
-- else of the endpoint changes.
pub record Sends (before : Endpoint) (info : BuilderFrameInfo) (body : List ℕ)
    (outcome : Option (Endpoint × List Call)) : Type 0 where
  pub statuses : List BuilderFrameInfo
  pub sends :
      outcome
      ≡ some (
        record before { terminal_statuses = statuses },
        sent_to_interface (built_frame info body) ∷ [],
      )
  pub remembers : read statuses info.dlci ≡ some info
  pub well_formed : IsWellFormed (record before { terminal_statuses = statuses })

module _ (malloc : ℕ → List ℕ) where
  pub send_request-IsWellFormed :
      (endpoint : Endpoint) (poll_final : Bool) (dlci : ℕ) (type : ControlType)
      (request : Option ServicesRequest) (after : Endpoint) (calls : List Call)
      → IsWellFormed endpoint
      → send_request malloc endpoint poll_final dlci type request ≡ some (after, calls)
      → IsWellFormed after × (after.options ≡ endpoint.options)
  unfolding send_request
  send_request-IsWellFormed endpoint poll_final dlci type none after calls w e =
      send_frame-IsWellFormed malloc endpoint _ after calls w e
  send_request-IsWellFormed endpoint poll_final dlci type (some request) after calls w e =
      let (size, _, rest) = >>=-eq-some (cmux_service_request_get_length request) _ e in
      let (octets, _, sent) =
        >>=-eq-some (cmux_service_request_encode malloc (malloc size) request) _ rest in
      send_frame-IsWellFormed malloc endpoint _ after calls w sent

  pub send_data-IsWellFormed :
      (endpoint : Endpoint) (cr : Bool) (dlci : ℕ) (octets : List ℕ) (len : ℕ) (after : Endpoint)
      (calls : List Call)
      → IsWellFormed endpoint
      → send_data malloc endpoint cr dlci octets len ≡ some (after, calls)
      → IsWellFormed after × (after.options ≡ endpoint.options)
  unfolding send_data
  send_data-IsWellFormed endpoint cr dlci octets len after calls w e =
      send_frame-IsWellFormed malloc endpoint _ after calls w e

  module _ (fresh : (n : ℕ) → length (malloc n) ≡ n) (endpoint : Endpoint)
      (w : IsWellFormed endpoint) where
    pub command-Sends :
        (poll_final : Bool) (dlci : ℕ) (type : ControlType)
        → dlci < endpoint.options.maximum_dlci
        → is_ui type ≡ false
        → Sends endpoint
            (command type poll_final dlci)
            []
            (send_request malloc endpoint poll_final dlci type none)
    unfolding send_request
    command-Sends poll_final dlci type h plain =
        let (statuses, e, r, w') =
          send_frame_within malloc fresh endpoint (command type poll_final dlci) [] w h plain
            (refl, refl) in
        record { statuses = statuses; sends = e; remembers = r; well_formed = w' }

    -- The octets of a request that can be sent are what the decoder reads back, whatever stands
    -- behind them in the frame.
    pub request-Sends :
        (poll_final : Bool) (dlci : ℕ) (type : ControlType) (request : ServicesRequest)
        → dlci < endpoint.options.maximum_dlci
        → is_ui type ≡ false
        → IsSendable request.service request.service_data
        → (octets : List ℕ) × Sends endpoint
            (carrying (command type poll_final dlci) (length octets) octets)
            octets
            (send_request malloc endpoint poll_final dlci type (some request))
          × (length octets < 131)
          × (cmux_service_request_get_length request ≡ some (length octets))
          × ((behind : List ℕ)
              → cmux_service_request_decode no_port (some (octets ++ behind)) (length octets)
                ≡ some (record request {
                  service_data = followed behind (received no_port request.service_data);
                }))
    unfolding send_request
    request-Sends poll_final dlci type request h plain sendable =
        let (size, measured, small) = sendable_length malloc fresh no_port request sendable in
        let (octets, encoded, sized, decoded) =
          request_decode-encode malloc fresh no_port request (malloc size) size sendable measured
            (fresh size) in
        let info = carrying (command type poll_final dlci) (length octets) octets in
        let (statuses, e, r, w') =
          send_frame_within malloc fresh endpoint info octets w h plain (refl, refl) in
        let fits : u16 size ≡ length octets = omega (arith, sized, small) in
        (
          octets,
          record {
            statuses = statuses;
            sends = rw (measured, encoded, fits) e;
            remembers = r;
            well_formed = w';
          },
          rw sized small,
          measured ∙ ap some (sym sized),
          λ behind.
              ap (cmux_service_request_decode no_port (some (octets ++ behind))) sized
              ∙ decoded behind,
        )

    pub data-Sends :
        (cr : Bool) (dlci : ℕ) (octets : List ℕ)
        → dlci < endpoint.options.maximum_dlci
        → length octets < 2 ^ 16
        → Sends endpoint
            (data_frame cr dlci octets)
            octets
            (send_data malloc endpoint cr dlci octets (length octets))
    unfolding send_data
    data-Sends cr dlci octets h small =
        let (statuses, e, r, w') =
          send_frame_within malloc fresh endpoint (data_frame cr dlci octets) octets w h refl
            (refl, refl) in
        let fits : u16 (length octets) ≡ length octets = omega arith in
        record { statuses = statuses; sends = rw fits e; remembers = r; well_formed = w' }
