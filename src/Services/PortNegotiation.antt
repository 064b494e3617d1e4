-- ===== src/Services/PortNegotiation.antt =====
-- lib/cmux/services/remote_parameter_negotiation.h and remote_parameter_negotiation.c: the
-- parameters of a remote port. The comments of the header give the meaning of each field.
pub mod Encode
pub mod Stages
pub mod Bits
pub mod Signals
pub mod RoundTrip
use cmux.Base.{ℕ, ◌+◌, ◌-◌, ◌%◌, ◌≡◌, ◌>>>◌, bit_and, Bool, true, false, ltb, ◌==◌, if◌then◌else◌}
use cmux.Base.{
  Option, some, List, [], ◌∷◌, get_or, length, ◌>>=◌, read, ℤ, pos, negsuc, minus_one, u8,
}
use cmux.Frame.{has_bits}

-- `enum remote_parameter_parity`; `other` is a value that has no name there.
pub data Parity : Type 0 where
  odd_parity even_parity mark_parity space_parity no_parity : Parity
  other : ℕ → Parity

-- The anonymous structs of a value and whether it is set.
pub record Setting (A : Type 0) : Type 0 where
  pub value : A
  pub is_set : Bool

-- `input` and `output` of the flow control
pub record Flow : Type 0 where
  pub xon_xoff : Setting Bool
  pub rtr : Setting Bool
  pub rtc : Setting Bool

pub record FlowControl : Type 0 where
  pub xon : Setting ℕ
  pub xoff : Setting ℕ
  pub input : Flow
  pub output : Flow

-- `struct remote_port_parameters_t`
pub record PortParameters : Type 0 where
  pub dlci : ℕ
  pub speed : Setting ℕ
  pub data_bits : Setting ℕ
  pub stop_bits : Setting ℕ
  pub parity : Setting Parity
  pub flow_control : FlowControl

abbrev pub baud_rates : List ℕ
baud_rates = 2400 ∷ 4800 ∷ 7200 ∷ 9600 ∷ 19200 ∷ 38400 ∷ 57600 ∷ 115200 ∷ 230400 ∷ []

-- The loop of `get_baud_rate_key` over what is left of the table, at index `i`.
abbrev pub baud_rate_key_from : List ℕ → ℕ → ℕ → ℤ
baud_rate_key_from [] i baud_rate = minus_one
baud_rate_key_from (rate ∷ rates) i baud_rate =
    let rest = baud_rate_key_from rates (i + 1) baud_rate in
    if rate == baud_rate then pos i else rest

abbrev pub get_baud_rate_key : ℕ → ℤ
get_baud_rate_key baud_rate = baud_rate_key_from baud_rates 0 baud_rate

-- The `switch` on the data bits and on the type of the parity.
abbrev pub data_bits_value : ℕ → ℕ → ℕ
data_bits_value d before =
    if d == 0b00
    then 5
    else if d == 0b01
    then 6
    else if d == 0b10
    then 7
    else if d == 0b11
    then 8
    else before

abbrev pub parity_value : ℕ → Parity → Parity
parity_value pt before =
    if pt == 0b00
    then odd_parity
    else if pt == 0b01
    then even_parity
    else if pt == 0b10
    then mark_parity
    else if pt == 0b11
    then space_parity
    else before

-- `length == 8`: the values and the marks of what is set. An index that is not in the table of
-- rates leaves the rate as it was.
unfoldable pub decode_settings : List ℕ → PortParameters → Option PortParameters
decode_settings octets before = do
  rate ← read octets 2
  format ← read octets 3
  signals ← read octets 4
  xon_char ← read octets 5
  xoff_char ← read octets 6
  pm1 ← read octets 7
  pm2 ← read octets 8
  let flc = bit_and signals 0b00111111
  some (record before {
    speed = record {
      value = if ltb rate 9 then get_or baud_rates rate 0 else before.speed.value;
      is_set = has_bits pm1 0b00000001;
    };
    data_bits = record {
      value = data_bits_value (bit_and format 0b00000011) before.data_bits.value;
      is_set = has_bits pm1 0b00000010;
    };
    stop_bits = record {
      value = if bit_and format 0b00000100 >>> 2 == 0 then 1 else 15;
      is_set = has_bits pm1 0b00000100;
    };
    parity = record {
      value =
          if bit_and format 0b00001000 >>> 3 == 0
          then no_parity
          else parity_value (bit_and format 0b00110000 >>> 4) before.parity.value;
      is_set = has_bits pm1 0b00011000;
    };
    flow_control = record {
      xon = record { value = xon_char; is_set = has_bits pm1 0b00100000 };
      xoff = record { value = xoff_char; is_set = has_bits pm1 0b01000000 };
      input = record {
        xon_xoff = record { value = has_bits flc 0b00000001; is_set = has_bits pm2 0b00000001 };
        rtr = record { value = has_bits flc 0b00000100; is_set = has_bits pm2 0b00000100 };
        rtc = record { value = has_bits flc 0b00010000; is_set = has_bits pm2 0b00010000 };
      };
      output = record {
        xon_xoff = record { value = has_bits flc 0b00000010; is_set = has_bits pm2 0b00000010 };
        rtr = record { value = has_bits flc 0b00001000; is_set = has_bits pm2 0b00001000 };
        rtc = record { value = has_bits flc 0b00100000; is_set = has_bits pm2 0b00100000 };
      };
    };
  })

-- The parameters are updated in place: `before` is what they are at the call.
unfoldable pub port_negotiation_decode : List ℕ → PortParameters → Option PortParameters
port_negotiation_decode octets before = do
  size ← read octets 0
  address ← read octets 1
  if size == 8
      then decode_settings octets (record before { dlci = address >>> 2 })
      else some (record before { dlci = address >>> 2 })
