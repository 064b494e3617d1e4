-- ===== src/Tests/Requests.antt =====
-- Messages of the control channel, lib/cmux/cmux_service_codec.c and
-- lib/cmux/cmux_service_request_codec.c, run.
use cmux.Base.{◌++◌}
use cmux.Base.{ℕ, ◌≡◌, ◌≤◌, ◌<◌, refl, arith, true, false, some, List, length}
use cmux.Frame.{uih}
use cmux.Frame.LongFrames.{misread_length}
use cmux.Service.{test, modem_status, cmux_service_decode, cmux_service_encode_get_length}
use cmux.Service.RoundTrip.{message_octets, cmux_service_decode_long}
use cmux.Request.{ServicesRequest, modem, cmux_service_request_encode, cmux_service_request_decode}
use cmux.Request.{cmux_service_request_get_length, data_length}
use cmux.Request.RoundTrip.{request_decode-encode}
use cmux.Services.ModemStatus.{modem_status_encode_length}
use cmux.Endpoint.{no_port, send_request}
use cmux.Endpoint.Requests.{Sends, carrying, command, request-Sends}
use cmux.Tests.Data.{zeroed, length-zeroed, endpoint, endpoint-IsWellFormed}

cmux_service_decode_long_example :
    (cmux_service_decode (some (message_octets test true (zeroed 128) 128)) 131
      ≡ some (record {
        service = test;
        cr = true;
        service_body = zeroed 128;
        service_body_length = misread_length 128;
      }))
    × (256 ≤ misread_length 128)
cmux_service_decode_long_example =
    cmux_service_decode_long test true (zeroed 128) 128 tt refl (omega arith) (omega arith)

abbrev status_request : ServicesRequest
status_request = record {
  service = modem_status;
  cr = true;
  service_data =
      modem (record { dlci = 1; fc = true; rtc = false; rtr = true; ic = false; dv = true });
}

status_length : cmux_service_request_get_length status_request ≡ some 4
unfolding cmux_service_request_get_length data_length cmux_service_encode_get_length
    modem_status_encode_length
status_length = refl

request_decode-encode_example :
    (octets : List ℕ) × (cmux_service_request_encode zeroed (zeroed 4) status_request ≡ some octets)
    × (length octets ≡ 4)
    × ((behind : List ℕ)
        → cmux_service_request_decode no_port (some (octets ++ behind)) 4 ≡ some status_request)
request_decode-encode_example =
    request_decode-encode zeroed length-zeroed no_port status_request (zeroed 4) 4 (omega arith)
      status_length refl

request-Sends_example :
    (octets : List ℕ) × Sends endpoint
      (carrying (command uih true 0) (length octets) octets)
      octets
      (send_request zeroed endpoint true 0 uih (some status_request))
    × (length octets < 131)
    × (cmux_service_request_get_length status_request ≡ some (length octets))
    × ((behind : List ℕ)
        → cmux_service_request_decode no_port (some (octets ++ behind)) (length octets)
          ≡ some status_request)
request-Sends_example =
    request-Sends zeroed length-zeroed endpoint endpoint-IsWellFormed true 0 uih status_request
      (omega arith) refl (omega arith)
