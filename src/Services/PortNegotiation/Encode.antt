-- ===== src/Services/PortNegotiation/Encode.antt =====
-- The encoder of lib/cmux/services/remote_parameter_negotiation.c, a function for each of its
-- blocks on one parameter.
use cmux.Base.{ℕ, ◌+◌, ◌-◌, ◌%◌, ◌<<◌, u8, Bool, true, false, ltb, ◌==◌, if◌then◌else◌}
use cmux.Base.{Option, some, List, ◌>>=◌, write, or_at, and_at, ℤ, pos, negsuc, minus_one}
use cmux.Services.Address.{dlci_octet}
use cmux.Services.PortNegotiation.{
  Parity, odd_parity, even_parity, mark_parity, space_parity, no_parity, other,
}
use cmux.Services.PortNegotiation.{Setting, PortParameters, get_baud_rate_key}

-- A bool in a sum of C.
abbrev pub as_number : Bool → ℕ
as_number b = if b then 1 else 0

unfoldable pub port_negotiation_has_changes : PortParameters → Bool
port_negotiation_has_changes p =
    let flow = p.flow_control in
    let changes =
      as_number p.speed.is_set
      + as_number p.data_bits.is_set
      + as_number p.stop_bits.is_set
      + as_number p.parity.is_set
      + as_number flow.xon.is_set
      + as_number flow.xoff.is_set
      + as_number flow.input.xon_xoff.is_set
      + as_number flow.output.xon_xoff.is_set
      + as_number flow.input.rtr.is_set
      + as_number flow.output.rtr.is_set
      + as_number flow.input.rtc.is_set
      + as_number flow.output.rtc.is_set in
    ltb 0 (u8 changes)

unfoldable pub port_negotiation_encode_length : PortParameters → ℕ
port_negotiation_encode_length p = if port_negotiation_has_changes p then 9 else 2

abbrev pub get_data_bits : ℕ → ℤ
get_data_bits data_bits =
    if data_bits == 5
    then pos 0b00
    else if data_bits == 6
    then pos 0b01
    else if data_bits == 7
    then pos 0b10
    else if data_bits == 8
    then pos 0b11
    else minus_one

abbrev pub get_parity : Parity → ℕ
get_parity odd_parity = 0b00
get_parity even_parity = 0b01
get_parity mark_parity = 0b10
get_parity space_parity = 0b11
get_parity no_parity = 0
get_parity (other n) = 0

-- `(uint8_t)` of a signed number
abbrev pub u8_of : ℤ → ℕ
u8_of (pos n) = u8 n
u8_of (negsuc n) = u8 (256 - (n + 1) % 256)

-- A key, or that of the default where there is none.
abbrev pub key_or : ℤ → ℤ → ℤ
key_or (pos n) default = pos n
key_or (negsuc n) default = default

unfoldable pub encode_speed : Setting ℕ → List ℕ → Option (List ℕ)
encode_speed speed octets =
    if speed.is_set
    then (do
      marked ← or_at 7 0b00000001 octets
      write marked 2 (u8_of (key_or (get_baud_rate_key speed.value) (get_baud_rate_key 115200))))
    else write octets 2 (u8_of (get_baud_rate_key 115200))

unfoldable pub encode_data_bits : Setting ℕ → List ℕ → Option (List ℕ)
encode_data_bits data_bits octets =
    if data_bits.is_set
    then (do
      marked ← or_at 7 0b00000010 octets
      or_at 3 (u8_of (key_or (get_data_bits data_bits.value) (get_data_bits 8))) marked)
    else or_at 3 (u8_of (get_data_bits 8)) octets

unfoldable pub encode_stop_bits : Setting ℕ → List ℕ → Option (List ℕ)
encode_stop_bits stop_bits octets =
    if stop_bits.is_set
    then (do
      marked ← or_at 7 0b00000100 octets
      if stop_bits.value == 1
          then and_at 3 0b11111011 marked
          else if stop_bits.value == 15
          then or_at 3 0b00000100 marked
          else and_at 3 0b11111011 marked)
    else and_at 3 0b11111011 octets

-- `parity == NO_PARITY`
abbrev pub is_no_parity : Parity → Bool
is_no_parity no_parity = true
is_no_parity _ = false

unfoldable pub encode_parity : Setting Parity → List ℕ → Option (List ℕ)
encode_parity parity octets =
    if parity.is_set
    then (do
      marked ← or_at 7 0b00011000 octets
      if is_no_parity parity.value
          then and_at 3 0b11000111 marked
          else (do on ← or_at 3 0b00001000 marked; or_at 3 (get_parity parity.value << 4) on))
    else and_at 3 0b11000111 octets

-- One signal of the flow control: its mark in `octets[8]` and its value in `octets[4]`.
unfoldable pub encode_signal : ℕ → Setting Bool → List ℕ → Option (List ℕ)
encode_signal mask signal octets =
    if signal.is_set
    then (do
      marked ← or_at 8 mask octets
      if signal.value then or_at 4 mask marked else and_at 4 (0xff - mask) marked)
    else some octets

-- A character of the flow control, which goes to `octets[i]`.
unfoldable pub encode_char : ℕ → ℕ → ℕ → Setting ℕ → List ℕ → Option (List ℕ)
encode_char i mask default char octets =
    if char.is_set
    then (do marked ← or_at 7 mask octets; write marked i (u8 char.value))
    else write octets i default

-- What follows the address where something is set.
unfoldable pub encode_settings : PortParameters → List ℕ → Option (List ℕ)
encode_settings p octets = do
  pm1 ← write octets 7 0
  pm2 ← write pm1 8 0
  speed ← encode_speed p.speed pm2
  format ← write speed 3 0
  data_bits ← encode_data_bits p.data_bits format
  stop_bits ← encode_stop_bits p.stop_bits data_bits
  parity ← encode_parity p.parity stop_bits
  signals ← write parity 4 0
  input_xon_xoff ← encode_signal 0b00000001 p.flow_control.input.xon_xoff signals
  output_xon_xoff ← encode_signal 0b00000010 p.flow_control.output.xon_xoff input_xon_xoff
  input_rtr ← encode_signal 0b00000100 p.flow_control.input.rtr output_xon_xoff
  output_rtr ← encode_signal 0b00001000 p.flow_control.output.rtr input_rtr
  input_rtc ← encode_signal 0b00010000 p.flow_control.input.rtc output_rtr
  output_rtc ← encode_signal 0b00100000 p.flow_control.output.rtc input_rtc
  xon ← encode_char 5 0b00100000 0x11 p.flow_control.xon output_rtc
  encode_char 6 0b01000000 0x13 p.flow_control.xoff xon

unfoldable pub port_negotiation_encode : List ℕ → PortParameters → Option (List ℕ)
port_negotiation_encode octets p = do
  sized ← write octets 0 (if port_negotiation_has_changes p then 8 else 1)
  addressed ← write sized 1 (dlci_octet p.dlci)
  if port_negotiation_has_changes p then encode_settings p addressed else some addressed
