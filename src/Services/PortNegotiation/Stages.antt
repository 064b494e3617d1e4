-- ===== src/Services/PortNegotiation/Stages.antt =====
-- What each block of the encoder of lib/cmux/services/remote_parameter_negotiation.c does to the
-- nine octets of the command.
use cmux.Base.{ℕ, ◌-◌, ◌%◌, ◌≡◌, arith, ◌<<◌, bit_and, bit_or, u8, Bool, ◌==◌}
use cmux.Base.{if◌then◌else◌, some, List, [], ◌∷◌, Bool-cases, inl, inr}
use cmux.Services.PortNegotiation.{Parity, Setting, PortParameters, get_baud_rate_key}
use cmux.Services.PortNegotiation.Encode.{get_data_bits, get_parity}
use cmux.Services.PortNegotiation.Encode.{
  u8_of, key_or, is_no_parity, encode_speed, encode_data_bits,
}
use cmux.Services.PortNegotiation.Encode.{
  encode_stop_bits, encode_parity, encode_signal, encode_char,
}
use cmux.Services.PortNegotiation.Encode.{encode_settings}

-- `v |= mask` where the flag is set
abbrev pub marked : Bool → ℕ → ℕ → ℕ
marked flag mask v = if flag then bit_or v mask % 256 else v

abbrev pub speed_octet : Setting ℕ → ℕ
speed_octet speed = u8_of (
    key_or (get_baud_rate_key (if speed.is_set then speed.value else 115200))
      (get_baud_rate_key 115200))

abbrev pub bits_octet : Setting ℕ → ℕ → ℕ
bits_octet bits v =
    bit_or v
      (u8_of (key_or (get_data_bits (if bits.is_set then bits.value else 8)) (get_data_bits 8)))
    % 256

abbrev pub stop_octet : Setting ℕ → ℕ → ℕ
stop_octet stop v =
    if stop.is_set
    then (if stop.value == 1
        then bit_and v 0b11111011 % 256
        else if stop.value == 15
        then bit_or v 0b00000100 % 256
        else bit_and v 0b11111011 % 256)
    else bit_and v 0b11111011 % 256

abbrev pub parity_octet : Setting Parity → ℕ → ℕ
parity_octet parity v =
    if parity.is_set
    then (if is_no_parity parity.value
        then bit_and v 0b11000111 % 256
        else bit_or (bit_or v 0b00001000 % 256) (get_parity parity.value << 4) % 256)
    else bit_and v 0b11000111 % 256

abbrev pub signal_octet : ℕ → Setting Bool → ℕ → ℕ
signal_octet mask signal v =
    if signal.is_set
    then (if signal.value then bit_or v mask % 256 else bit_and v (0xff - mask) % 256)
    else v

abbrev pub char_octet : ℕ → Setting ℕ → ℕ
char_octet default char = if char.is_set then u8 char.value else default

module _ (o0 o1 o2 o3 o4 o5 o6 o7 o8 : ℕ) where
  abbrev octets : List ℕ
  octets = o0 ∷ o1 ∷ o2 ∷ o3 ∷ o4 ∷ o5 ∷ o6 ∷ o7 ∷ o8 ∷ []

  pub encode_speed_lem :
      (s : Setting ℕ)
      → encode_speed s octets
        ≡ some
            (o0 ∷ o1 ∷ speed_octet s ∷ o3 ∷ o4 ∷ o5 ∷ o6 ∷ marked s.is_set 0b00000001 o7 ∷ o8 ∷ [])
  unfolding encode_speed
  encode_speed_lem s = elim (Bool-cases s.is_set) [ inl e ↦ rw e | inr e ↦ rw e ]

  pub encode_data_bits_lem :
      (s : Setting ℕ)
      → encode_data_bits s octets
        ≡ some (
            o0 ∷ o1 ∷ o2 ∷ bits_octet s o3 ∷ o4 ∷ o5 ∷ o6 ∷ marked s.is_set 0b00000010 o7 ∷ o8 ∷ [])
  unfolding encode_data_bits
  encode_data_bits_lem s = elim (Bool-cases s.is_set) [ inl e ↦ rw e | inr e ↦ rw e ]

  pub encode_stop_bits_lem :
      (s : Setting ℕ)
      → encode_stop_bits s octets
        ≡ some (
            o0 ∷ o1 ∷ o2 ∷ stop_octet s o3 ∷ o4 ∷ o5 ∷ o6 ∷ marked s.is_set 0b00000100 o7 ∷ o8 ∷ [])
  unfolding encode_stop_bits
  encode_stop_bits_lem s = ground arith

  pub encode_parity_lem :
      (s : Setting Parity)
      → encode_parity s octets
        ≡ some (
            o0
            ∷ o1
            ∷ o2
            ∷ parity_octet s o3
            ∷ o4
            ∷ o5
            ∷ o6
            ∷ marked s.is_set 0b00011000 o7
            ∷ o8
            ∷ [])
  unfolding encode_parity
  encode_parity_lem s = elim (Bool-cases s.is_set) [
    | inl e ↦ elim (Bool-cases (is_no_parity s.value)) [ inl f ↦ rw (e, f) | inr f ↦ rw (e, f) ]
    | inr e ↦ rw e
  ]

  pub encode_signal_lem :
      (mask : ℕ) (s : Setting Bool)
      → encode_signal mask s octets
        ≡ some (
            o0
            ∷ o1
            ∷ o2
            ∷ o3
            ∷ signal_octet mask s o4
            ∷ o5
            ∷ o6
            ∷ o7
            ∷ marked s.is_set mask o8
            ∷ [])
  unfolding encode_signal
  encode_signal_lem mask s = elim (Bool-cases s.is_set) [
    | inl e ↦ elim (Bool-cases s.value) [ inl f ↦ rw (e, f) | inr f ↦ rw (e, f) ]
    | inr e ↦ rw e
  ]

  pub encode_xon_lem :
      (s : Setting ℕ)
      → encode_char 5 0b00100000 0x11 s octets
        ≡ some (
            o0
            ∷ o1
            ∷ o2
            ∷ o3
            ∷ o4
            ∷ char_octet 0x11 s
            ∷ o6
            ∷ marked s.is_set 0b00100000 o7
            ∷ o8
            ∷ [])
  unfolding encode_char
  encode_xon_lem s = elim (Bool-cases s.is_set) [ inl e ↦ rw e | inr e ↦ rw e ]

  pub encode_xoff_lem :
      (s : Setting ℕ)
      → encode_char 6 0b01000000 0x13 s octets
        ≡ some (
            o0
            ∷ o1
            ∷ o2
            ∷ o3
            ∷ o4
            ∷ o5
            ∷ char_octet 0x13 s
            ∷ marked s.is_set 0b01000000 o7
            ∷ o8
            ∷ [])
  unfolding encode_char
  encode_xoff_lem s = elim (Bool-cases s.is_set) [ inl e ↦ rw e | inr e ↦ rw e ]

-- The octets that describe the line, and the two octets of marks.
abbrev pub format_octet : PortParameters → ℕ
format_octet p = parity_octet p.parity (stop_octet p.stop_bits (bits_octet p.data_bits 0))

abbrev pub signals_octet : PortParameters → ℕ
signals_octet p = signal_octet 0b00100000 p.flow_control.output.rtc (
    signal_octet 0b00010000 p.flow_control.input.rtc (
      signal_octet 0b00001000 p.flow_control.output.rtr (
        signal_octet 0b00000100 p.flow_control.input.rtr (
          signal_octet 0b00000010 p.flow_control.output.xon_xoff
            (signal_octet 0b00000001 p.flow_control.input.xon_xoff 0)))))

abbrev pub marks_octet : Bool → Bool → Bool → Bool → Bool → Bool → ℕ
marks_octet speed bits stop parity xon xoff = marked xoff 0b01000000 (
    marked xon 0b00100000 (
      marked parity 0b00011000
        (marked stop 0b00000100 (marked bits 0b00000010 (marked speed 0b00000001 0)))))

abbrev pub flow_marks_octet : Bool → Bool → Bool → Bool → Bool → Bool → ℕ
flow_marks_octet ix ox ir or ic oc = marked oc 0b00100000 (
    marked ic 0b00010000
      (marked or 0b00001000 (marked ir 0b00000100 (marked ox 0b00000010 (marked ix 0b00000001 0)))))

abbrev pub settings_octets : PortParameters → List ℕ
settings_octets p =
    let flow = p.flow_control in
    speed_octet p.speed
    ∷ format_octet p
    ∷ signals_octet p
    ∷ char_octet 0x11 flow.xon
    ∷ char_octet 0x13 flow.xoff
    ∷ marks_octet p.speed.is_set p.data_bits.is_set p.stop_bits.is_set p.parity.is_set
        flow.xon.is_set flow.xoff.is_set
    ∷ flow_marks_octet flow.input.xon_xoff.is_set flow.output.xon_xoff.is_set flow.input.rtr.is_set
        flow.output.rtr.is_set flow.input.rtc.is_set flow.output.rtc.is_set
    ∷ []

-- The blocks one after the other.
pub encode_settings_lem :
    (p : PortParameters) (o0 o1 o2 o3 o4 o5 o6 o7 o8 : ℕ)
    → encode_settings p (o0 ∷ o1 ∷ o2 ∷ o3 ∷ o4 ∷ o5 ∷ o6 ∷ o7 ∷ o8 ∷ [])
      ≡ some (o0 ∷ o1 ∷ settings_octets p)
unfolding encode_settings
encode_settings_lem p o0 o1 o2 o3 o4 o5 o6 o7 o8 = simp (
  encode_speed_lem, encode_data_bits_lem, encode_stop_bits_lem, encode_parity_lem,
  encode_signal_lem, encode_xon_lem, encode_xoff_lem,
)
