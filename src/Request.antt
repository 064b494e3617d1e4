-- ===== src/Request.antt =====
-- lib/cmux/cmux_service_request_codec.h and cmux_service_request_codec.c, with the record of
-- services/test.h: a message of the control channel with its parameters.
pub mod Bodies
pub mod RoundTrip
pub mod Needs
use cmux.Base.{ℕ, Bool, Option, none, some, List, [], ◌>>=◌, slice, copy_in}
use cmux.Service.{Service, cmux_service_decode, cmux_service_encode}
use cmux.Service.{cmux_service_encode_get_length}
use cmux.Services.ModemStatus.{ModemStatus, modem_status_decode, modem_status_encode}
use cmux.Services.ModemStatus.{modem_status_encode_length}
use cmux.Services.LineStatus.{LineStatusParameters, line_status_decode, line_status_encode}
use cmux.Services.LineStatus.{line_status_encode_length}
use cmux.Services.ServiceNegotiation.{ServiceNegotiation, service_negotiation_decode}
use cmux.Services.ServiceNegotiation.{service_negotiation_encode, service_negotiation_encode_length}
use cmux.Services.ParameterNegotiation.{ParameterNegotiation, parameter_negotiation_decode}
use cmux.Services.ParameterNegotiation.{parameter_negotiation_encode}
use cmux.Services.ParameterNegotiation.{parameter_negotiation_encode_length}
use cmux.Services.PortNegotiation.{PortParameters, port_negotiation_decode}
use cmux.Services.PortNegotiation.Encode.{port_negotiation_encode, port_negotiation_encode_length}

-- `struct test_service_t`: the octets from the pointer on, and the length that goes with them.
pub record TestService : Type 0 where
  pub octets : List ℕ
  pub length : ℕ

-- The union of the parameters: which member was written last. To read another one is `none`.
pub data ServiceData : Type 0 where
  nothing : ServiceData
  parameters : ParameterNegotiation → ServiceData
  modem : ModemStatus → ServiceData
  port : PortParameters → ServiceData
  line : LineStatusParameters → ServiceData
  negotiation : ServiceNegotiation → ServiceData
  test_data : TestService → ServiceData

-- `cmux_services_request_t`
pub record ServicesRequest : Type 0 where
  pub service : Service
  pub cr : Bool
  pub service_data : ServiceData

-- The `switch` of the decoder on the service, the pointer to the body and its length. The port
-- parameters are updated in place: `before` is what the union holds, read as port parameters.
unfoldable pub decode_body : PortParameters → Service → List ℕ → ℕ → Option ServiceData
decode_body before Service.parameter_negotiation body n = do
  p ← parameter_negotiation_decode body
  some (parameters p)
decode_body before Service.test body n = some (test_data (record { octets = body; length = n }))
decode_body before Service.modem_status body n = do
  status ← modem_status_decode body
  some (modem status)
decode_body before Service.remote_port_negotiation body n = do
  p ← port_negotiation_decode body before
  some (port p)
decode_body before Service.remote_line_status body n = do
  status ← line_status_decode body
  some (line status)
decode_body before Service.service_negotiation body n = do
  p ← service_negotiation_decode body
  some (negotiation p)
decode_body before Service.power_saving body n = some nothing
decode_body before Service.multiplexer_close_down body n = some nothing
decode_body before Service.flow_control_on body n = some nothing
decode_body before Service.flow_control_off body n = some nothing
decode_body before Service.unsupported body n = some nothing
decode_body before (Service.other code) body n = some nothing

unfoldable pub cmux_service_request_decode :
    PortParameters → Option (List ℕ) → ℕ → Option ServicesRequest
cmux_service_request_decode before octets len = do
  decoded ← cmux_service_decode octets len
  content ← decode_body before decoded.service decoded.service_body decoded.service_body_length
  some (record { service = decoded.service; cr = decoded.cr; service_data = content })

-- `service_data_octets_length`, by the `switch` that both encoding functions have.
unfoldable pub data_length : Service → ServiceData → Option ℕ
data_length Service.parameter_negotiation (parameters p) =
    some (parameter_negotiation_encode_length p)
data_length Service.test (test_data t) = some t.length
data_length Service.modem_status (modem status) = some (modem_status_encode_length status)
data_length Service.remote_port_negotiation (port p) = some (port_negotiation_encode_length p)
data_length Service.remote_line_status (line status) = some (line_status_encode_length status)
data_length Service.service_negotiation (negotiation p) = some (service_negotiation_encode_length p)
data_length Service.power_saving content = some 0
data_length Service.multiplexer_close_down content = some 0
data_length Service.flow_control_on content = some 0
data_length Service.flow_control_off content = some 0
data_length Service.unsupported content = some 0
data_length (Service.other code) content = some 0
data_length _ _ = none

unfoldable pub cmux_service_request_get_length : ServicesRequest → Option ℕ
cmux_service_request_get_length request = do
  n ← data_length request.service request.service_data
  some (cmux_service_encode_get_length n)

-- `malloc n` is a block of `n` octets with anything in it. That it may fail is not looked at by
-- the code.
module _ (malloc : ℕ → List ℕ) where
  -- The octets of the parameters, in a block of their own; none for NULL.
  unfoldable pub encode_body : Service → ServiceData → Option (List ℕ)
  encode_body Service.parameter_negotiation (parameters p) =
      parameter_negotiation_encode (malloc (parameter_negotiation_encode_length p)) p
  encode_body Service.test (test_data t) = do
    source ← slice t.octets 0 t.length
    copy_in (malloc t.length) 0 source
  encode_body Service.modem_status (modem status) =
      modem_status_encode (malloc (modem_status_encode_length status)) status
  encode_body Service.remote_port_negotiation (port p) =
      port_negotiation_encode (malloc (port_negotiation_encode_length p)) p
  encode_body Service.remote_line_status (line status) =
      line_status_encode (malloc (line_status_encode_length status)) status
  encode_body Service.service_negotiation (negotiation p) =
      service_negotiation_encode (malloc (service_negotiation_encode_length p)) p
  encode_body Service.power_saving content = some []
  encode_body Service.multiplexer_close_down content = some []
  encode_body Service.flow_control_on content = some []
  encode_body Service.flow_control_off content = some []
  encode_body Service.unsupported content = some []
  encode_body (Service.other code) content = some []
  encode_body _ _ = none

  unfoldable pub cmux_service_request_encode : List ℕ → ServicesRequest → Option (List ℕ)
  cmux_service_request_encode service_octets request = do
    n ← data_length request.service request.service_data
    body ← encode_body request.service request.service_data
    cmux_service_encode service_octets request.service request.cr body n
