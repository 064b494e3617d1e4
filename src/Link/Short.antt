-- ===== src/Link/Short.antt =====
-- What comes into lib/cmux/cmux_client.c and lib/cmux/cmux_server.c with too few octets: the decoder of
-- lib/cmux/cmux_service_request_codec.c does not look at the length of the parameters.
use cmux.Base.{ℕ, ◌<◌, ◌≡◌, refl, arith, le→not_ltb, lt→ltb, ==_ne, ==_refl, bit_and, ◌>>>◌, false}
use cmux.Base.{none, some, List, [], ◌∷◌, ◌++◌, length}
use cmux.Crc.{cmux_crc}
use cmux.Frame.{frame_flag, is_extended, BuilderFrameInfo}
use cmux.Frame.Layout.{header_octets}
use cmux.Frame.RoundTrip.{IsPlain, sized_body}
use cmux.Service.{service_type, service_mask, cmux_service_decode}
use cmux.Request.Needs.{needed, decode_body-ReadsJust}
use cmux.Request.{cmux_service_request_decode}
use cmux.Buffer.Ingest.{delivered}
use cmux.Endpoint.{Endpoint, no_port}
use cmux.Endpoint.State.{IsWellFormed}
use cmux.Client.{cmux_client_on_control_message, incoming_request}
use cmux.Server.{cmux_server_on_control_message}
use cmux.Base.Memory.{read_within}

-- The parameters of a request, behind the length, are too few for the decoder of its service.
short_request :
    (type low : ℕ) (octets : List ℕ) (n : ℕ)
    → 0 < n
    → is_extended low ≡ false
    → length octets < needed (service_type (bit_and type service_mask)) octets
    → cmux_service_request_decode no_port (some (type ∷ low ∷ octets)) n ≡ none
unfolding cmux_service_request_decode cmux_service_decode
short_request type low octets n some_data short few =
    let r =
      decode_body-ReadsJust no_port (service_type (bit_and type service_mask)) octets (low >>> 1) in
    rw (==_ne n 0 (λ z. omega (arith, z, some_data)), short, r.outside few) refl

-- The octets that the decoder finds behind the length: the parameters, and the last two octets of the
-- frame.
abbrev pub found_behind : BuilderFrameInfo → List ℕ → List ℕ
found_behind info parameter_octets =
    parameter_octets ++ (cmux_crc (header_octets info) ∷ frame_flag ∷ [])

-- A plain frame on the control channel, whose data are the type of a request, a length of one octet,
-- and parameters that are, with the check sequence and the flag that follow, fewer than the decoder of
-- the service reads: a well-formed client and a well-formed server read behind the block of the frame.
pub short_request_overread :
    (malloc : ℕ → List ℕ) (client server : Endpoint) (info : BuilderFrameInfo) (type low : ℕ)
    (parameter_octets : List ℕ)
    → IsWellFormed client
    → IsWellFormed server
    → IsPlain info (type ∷ low ∷ parameter_octets)
    → info.dlci ≡ 0
    → is_extended low ≡ false
    → length (found_behind info parameter_octets)
      < needed (service_type (bit_and type service_mask)) (found_behind info parameter_octets)
    → (cmux_client_on_control_message client (delivered info (type ∷ low ∷ parameter_octets))
        ≡ none)
      × (cmux_server_on_control_message malloc server
            (delivered info (type ∷ low ∷ parameter_octets))
          ≡ none)
unfolding cmux_client_on_control_message cmux_server_on_control_message incoming_request
short_request_overread malloc client server info type low parameter_octets w w' plain control short
      few =
    let size = sized_body info (type ∷ low ∷ parameter_octets) plain in
    let faults =
      short_request type low (found_behind info parameter_octets) info.length (omega (arith, size))
        short few in
    let some_data = lt→ltb 0 info.length (omega (arith, size)) in
    let on_control = ==_refl info.dlci 0 control in
    let (last, status) =
      read_within client.terminal_statuses info.dlci
        (omega (arith, control, w.statuses_sized, w.positive)) in
    let (last', status') =
      read_within server.terminal_statuses info.dlci
        (omega (arith, control, w'.statuses_sized, w'.positive)) in
    (
      rw
          (
            le→not_ltb info.dlci client.options.maximum_dlci (omega (arith, control)),
            status,
            on_control,
            some_data,
            faults,
          )
          refl,
      rw
          (
            le→not_ltb info.dlci server.options.maximum_dlci (omega (arith, control)),
            status',
            on_control,
            some_data,
            faults,
          )
          refl,
    )
