-- ===== src/Service.antt =====
-- lib/cmux/cmux_service_codec.h and cmux_service_codec.c: the type, the length and the body of a
-- message on the control channel.
pub mod RoundTrip
use Prim.Native.String.{String}
use cmux.Base.{ℕ, ◌+◌, ◌<<◌, ◌>>>◌, bit_and, bit_or, u8, Bool, false, ltb, ◌==◌, if◌then◌else◌}
use cmux.Base.{Option, none, some, List, [], length, drop, ◌>>=◌, read, write, slice, copy_in}
use cmux.Frame.{has_bits, is_extended, extended_length}

-- `enum CMUX_SERVICE`. The code casts octets to it, so that any other value occurs as well.
pub data Service : Type 0 where
  parameter_negotiation power_saving multiplexer_close_down test flow_control_on : Service
  flow_control_off modem_status unsupported remote_port_negotiation : Service
  remote_line_status service_negotiation : Service
  other : ℕ → Service

abbrev pub service_code : Service → ℕ
service_code parameter_negotiation = 0b10000000
service_code power_saving = 0b01000000
service_code multiplexer_close_down = 0b11000000
service_code test = 0b00100000
service_code flow_control_on = 0b10100000
service_code flow_control_off = 0b01100000
service_code modem_status = 0b11100000
service_code unsupported = 0b00010000
service_code remote_port_negotiation = 0b10010000
service_code remote_line_status = 0b01010000
service_code service_negotiation = 0b11010000
service_code (other n) = n

-- `(enum CMUX_SERVICE)n`
unfoldable pub service_type : ℕ → Service
service_type n =
    if n == 0b10000000
    then parameter_negotiation
    else if n == 0b01000000
    then power_saving
    else if n == 0b11000000
    then multiplexer_close_down
    else if n == 0b00100000
    then test
    else if n == 0b10100000
    then flow_control_on
    else if n == 0b01100000
    then flow_control_off
    else if n == 0b11100000
    then modem_status
    else if n == 0b00010000
    then unsupported
    else if n == 0b10010000
    then remote_port_negotiation
    else if n == 0b01010000
    then remote_line_status
    else if n == 0b11010000
    then service_negotiation
    else other n

unfoldable pub get_service_string : Service → String
get_service_string parameter_negotiation = "PN"
get_service_string power_saving = "PSC"
get_service_string multiplexer_close_down = "CLD"
get_service_string test = "TEST"
get_service_string flow_control_on = "FCon"
get_service_string flow_control_off = "FCoff"
get_service_string modem_status = "MSC"
get_service_string unsupported = "NSC"
get_service_string remote_port_negotiation = "RPN"
get_service_string remote_line_status = "RLS"
get_service_string service_negotiation = "SNC"
get_service_string (other n) = "UNKNOWN"

abbrev pub service_mask : ℕ
service_mask = 0b11111100

-- `struct decoded_service_t`. The pointer to the body is the octets from there to the end of the
-- block that it points into, and none for NULL.
pub record DecodedService : Type 0 where
  pub service : Service
  pub cr : Bool
  pub service_body : List ℕ
  pub service_body_length : ℕ

-- `memset(decoded_service, 0, sizeof(struct decoded_service_t))`
abbrev pub no_service : DecodedService
no_service = record { service = other 0; cr = false; service_body = []; service_body_length = 0 }

-- The data behind the pointer, `none` for NULL. That the length of the body goes past the data is
-- only logged.
unfoldable pub cmux_service_decode : Option (List ℕ) → ℕ → Option DecodedService
cmux_service_decode none length = some no_service
cmux_service_decode (some octets) length = if length == 0 then some no_service else (do
  type ← read octets 0
  low ← read octets 1
  if is_extended low
      then (do
        high ← read octets 2
        some (record {
          service = service_type (bit_and type service_mask);
          cr = has_bits type 0x02;
          service_body = drop 3 octets;
          service_body_length = extended_length low high;
        }))
      else some (record {
        service = service_type (bit_and type service_mask);
        cr = has_bits type 0x02;
        service_body = drop 2 octets;
        service_body_length = low >>> 1;
      }))

unfoldable pub cmux_service_encode_get_length : ℕ → ℕ
cmux_service_encode_get_length service_data_length =
    1 + (if ltb 127 service_data_length then 2 else 1) + service_data_length

abbrev pub service_octet : Service → Bool → ℕ
service_octet service cr =
    let plain = u8 (bit_or (bit_and (service_code service) service_mask) 0x01) in
    if cr then u8 (bit_or plain 0x02) else plain

-- `memcpy` reads the `n` octets of the data and writes them behind the length.
unfoldable pub cmux_service_encode : List ℕ → Service → Bool → List ℕ → ℕ → Option (List ℕ)
cmux_service_encode octets service cr service_data n = do
  typed ← write octets 0 (service_octet service cr)
  body ← slice service_data 0 n
  if ltb 127 n
      then (do
        low ← write typed 1 (u8 (bit_and n 0x7f << 1))
        high ← write low 2 (u8 (bit_and n 0x7f80 >>> 7))
        copy_in high 3 body)
      else (do sized ← write typed 1 (u8 (bit_or (n << 1) 0x01)); copy_in sized 2 body)
