-- ===== src/Tests/Services.antt =====
-- The parameters of lib/cmux/services, run.
use cmux.Base.{ℕ, ◌≡◌, refl, arith, true, false, some, List, length}
use cmux.Services.ModemStatus.{ModemStatus, modem_status_encode, modem_status_decode}
use cmux.Services.ModemStatus.{modem_status_encode_length}
use cmux.Services.LineStatus.{LineStatusParameters, line_status_encode, line_status_decode}
use cmux.Services.LineStatus.{line_status_encode_length}
use cmux.Services.Statuses.{statuses_decode-encode}
use cmux.Services.ServiceNegotiation.{ServiceNegotiation, service_negotiation_encode, sent}
use cmux.Services.ServiceNegotiation.{service_negotiation_decode, service_negotiation_encode_length}
use cmux.Services.ServiceNegotiation.{service_negotiation_decode-encode}
use cmux.Services.ParameterNegotiation.{ParameterNegotiation, parameter_negotiation_encode}
use cmux.Services.ParameterNegotiation.{parameter_negotiation_decode}
use cmux.Services.ParameterNegotiation.{parameter_negotiation_encode_length}
use cmux.Services.ParameterNegotiation.{parameter_negotiation_decode-encode}
use cmux.Services.PortNegotiation.{PortParameters, port_negotiation_decode}
use cmux.Services.PortNegotiation.Encode.{port_negotiation_encode, port_negotiation_encode_length}
use cmux.Services.PortNegotiation.Encode.{port_negotiation_has_changes}
use cmux.Services.PortNegotiation.RoundTrip.{received_port, port_negotiation_decode-encode}
use cmux.Endpoint.{no_port}
use cmux.Tests.Data.{zeroed}

abbrev ready : ModemStatus
ready = record { dlci = 1; fc = false; rtc = true; rtr = true; ic = false; dv = true }

abbrev overrun : LineStatusParameters
overrun = record { dlci = 1; status = 3 }

statuses_decode-encode_example :
    ((octets : List ℕ) × (modem_status_encode (zeroed 2) ready ≡ some octets)
      × (length octets ≡ modem_status_encode_length ready)
      × (modem_status_decode octets ≡ some ready))
    × ((octets : List ℕ) × (line_status_encode (zeroed 2) overrun ≡ some octets)
        × (length octets ≡ line_status_encode_length overrun)
        × (line_status_decode octets ≡ some overrun))
unfolding modem_status_encode_length line_status_encode_length
statuses_decode-encode_example =
    statuses_decode-encode ready overrun (zeroed 2) (zeroed 2) (omega arith) (omega arith)
      (omega arith) refl refl

abbrev voice : ServiceNegotiation
voice = record { dlci = 1; service = 4; voice_codec = 2 }

service_negotiation_decode-encode_example :
    (octets : List ℕ) × (service_negotiation_encode (zeroed 4) voice ≡ some octets)
    × (length octets ≡ service_negotiation_encode_length voice)
    × (service_negotiation_decode octets ≡ some (sent voice))
unfolding service_negotiation_encode_length
service_negotiation_decode-encode_example =
    service_negotiation_decode-encode voice (zeroed 4) (omega arith) (omega arith, refl)
      (omega arith, refl) refl

abbrev proposal : ParameterNegotiation
proposal = record {
  dlci = 1;
  frame_type = 0;
  layer_type = 0;
  priority = 7;
  ack_timer_msec = 250;
  max_frame_size = 31;
  max_retransmissions = 3;
  window_size = 2;
}

parameter_negotiation_decode-encode_example :
    (octets : List ℕ) × (parameter_negotiation_encode (zeroed 8) proposal ≡ some octets)
    × (length octets ≡ parameter_negotiation_encode_length proposal)
    × (parameter_negotiation_decode octets ≡ some (record proposal { ack_timer_msec = 200 }))
unfolding parameter_negotiation_encode_length
parameter_negotiation_decode-encode_example =
    parameter_negotiation_decode-encode proposal (zeroed 8)
      (record {
        dlci = omega arith;
        frame_type = omega arith;
        layer_type = omega arith;
        priority = omega arith;
        ack_timer = omega arith;
        max_frame_size = omega arith;
        max_retransmissions = omega arith;
        window_size = omega arith;
      })
      refl

abbrev fast : PortParameters
fast = record no_port { dlci = 1; speed = record { value = 9600; is_set = true } }

port_negotiation_decode-encode_example :
    (octets : List ℕ) × (port_negotiation_encode (zeroed 9) fast ≡ some octets)
    × (length octets ≡ port_negotiation_encode_length fast)
    × (port_negotiation_decode octets no_port ≡ some (received_port fast no_port))
unfolding port_negotiation_encode_length port_negotiation_has_changes
port_negotiation_decode-encode_example =
    port_negotiation_decode-encode fast no_port (zeroed 9) (omega arith) refl
