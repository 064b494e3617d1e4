-- ===== src/Services/PortNegotiation/Bits.antt =====
-- What the decoder of lib/cmux/services/remote_parameter_negotiation.c finds in the octets that the
-- encoder leaves.
use cmux.Base.{ℕ, ◌+◌, ◌≡◌, arith, ◌>>>◌, bit_and, Bool, ◌&&◌, ◌||◌, ◌==◌, ltb}
use cmux.Base.{if◌then◌else◌, get_or, Bool-cases, inl, inr, ◌⊎◌}
use cmux.Frame.{has_bits}
use cmux.Services.PortNegotiation.{
  Parity, odd_parity, even_parity, mark_parity, space_parity, no_parity, other,
}
use cmux.Services.PortNegotiation.{Setting, baud_rates, data_bits_value, parity_value}
use cmux.Services.PortNegotiation.{get_baud_rate_key}
use cmux.Services.PortNegotiation.Encode.{u8_of, key_or}
use cmux.Services.PortNegotiation.Stages.{marks_octet, flow_marks_octet, speed_octet}
use cmux.Services.PortNegotiation.Stages.{bits_octet, stop_octet, parity_octet}

module _ (a b c d e f : Bool) where
  pub mark_speed : has_bits (marks_octet a b c d e f) 0b00000001 ≡ a
  mark_speed = ground arith

  pub mark_bits : has_bits (marks_octet a b c d e f) 0b00000010 ≡ b
  mark_bits = ground arith

  pub mark_stop : has_bits (marks_octet a b c d e f) 0b00000100 ≡ c
  mark_stop = ground arith

  pub mark_parity_set : has_bits (marks_octet a b c d e f) 0b00011000 ≡ d
  mark_parity_set = ground arith

  pub mark_xon : has_bits (marks_octet a b c d e f) 0b00100000 ≡ e
  mark_xon = ground arith

  pub mark_xoff : has_bits (marks_octet a b c d e f) 0b01000000 ≡ f
  mark_xoff = ground arith

  pub flow_mark_1 : has_bits (flow_marks_octet a b c d e f) 0b00000001 ≡ a
  flow_mark_1 = ground arith

  pub flow_mark_2 : has_bits (flow_marks_octet a b c d e f) 0b00000010 ≡ b
  flow_mark_2 = ground arith

  pub flow_mark_3 : has_bits (flow_marks_octet a b c d e f) 0b00000100 ≡ c
  flow_mark_3 = ground arith

  pub flow_mark_4 : has_bits (flow_marks_octet a b c d e f) 0b00001000 ≡ d
  flow_mark_4 = ground arith

  pub flow_mark_5 : has_bits (flow_marks_octet a b c d e f) 0b00010000 ≡ e
  flow_mark_5 = ground arith

  pub flow_mark_6 : has_bits (flow_marks_octet a b c d e f) 0b00100000 ≡ f
  flow_mark_6 = ground arith

-- What a peer reads of a setting: its value where it is set and can be sent, else the default.
abbrev pub known_speed : ℕ → ℕ
known_speed v =
    if 2400 == v
    then 2400
    else if 4800 == v
    then 4800
    else if 7200 == v
    then 7200
    else if 9600 == v
    then 9600
    else if 19200 == v
    then 19200
    else if 38400 == v
    then 38400
    else if 57600 == v
    then 57600
    else if 115200 == v
    then 115200
    else if 230400 == v
    then 230400
    else 115200

abbrev pub sent_speed : Setting ℕ → ℕ
sent_speed s = if s.is_set then known_speed s.value else 115200

abbrev pub sent_bits : Setting ℕ → ℕ
sent_bits s = let v = s.value in if s.is_set && (v == 5 || v == 6 || v == 7 || v == 8) then v else 8

abbrev pub sent_stop : Setting ℕ → ℕ
sent_stop s = if s.is_set && (s.value == 15) then 15 else 1

abbrev pub named_parity : Parity → Parity
named_parity (other n) = odd_parity
named_parity parity = parity

abbrev pub sent_parity : Setting Parity → Parity
sent_parity s = if s.is_set then named_parity s.value else no_parity

key_octet : ℕ → ℕ
key_octet v = u8_of (key_or (get_baud_rate_key v) (get_baud_rate_key 115200))

-- Each comparison of the table in turn, the other way round in the code.
key_read :
    (v before : ℕ)
    → (if ltb (key_octet v) 9 then get_or baud_rates (key_octet v) 0 else before) ≡ known_speed v
unfolding key_octet
key_read v before = ground arith

pub speed_read :
    (s : Setting ℕ) (before : ℕ)
    → (if ltb (speed_octet s) 9 then get_or baud_rates (speed_octet s) 0 else before) ≡ sent_speed s
unfolding key_octet
speed_read s before = elim (Bool-cases s.is_set) [
  | inl e ↦ rw e (key_read s.value before)
  | inr e ↦ rw e
]

pub bits_read : (s : Setting ℕ) (before : ℕ) → data_bits_value (bits_octet s 0) before ≡ sent_bits s
bits_read s before = ground arith

-- The three settings that share an octet: whatever two bits the data bits leave, the other two
-- settings keep them, and are found beside them.
abbrev pub IsTwoBits : ℕ → Type 0
IsTwoBits v = (v ≡ 0) ⊎ ((v ≡ 1) ⊎ ((v ≡ 2) ⊎ (v ≡ 3)))

pub bits_octet-IsTwoBits : (s : Setting ℕ) → IsTwoBits (bits_octet s 0)
bits_octet-IsTwoBits s = ground arith

-- What `stop_octet` and `parity_octet` are at such an octet.
stop_octet_sum :
    (s : Setting ℕ) (v : ℕ)
    → IsTwoBits v
    → stop_octet s v ≡ v + (if sent_stop s == 15 then 4 else 0)
stop_octet_sum s v h = ground arith

parity_sum : Parity → ℕ
parity_sum odd_parity = 0x08
parity_sum even_parity = 0x18
parity_sum mark_parity = 0x28
parity_sum space_parity = 0x38
parity_sum no_parity = 0
parity_sum (other n) = 0x08

format_parts : Setting ℕ → Setting Parity → ℕ → ℕ
format_parts stop parity v =
    v + (if sent_stop stop == 15 then 4 else 0) + parity_sum (sent_parity parity)

parity_octet_sum :
    (stop : Setting ℕ) (parity : Setting Parity) (v : ℕ)
    → IsTwoBits v
    → parity_octet parity (stop_octet stop v) ≡ format_parts stop parity v
unfolding format_parts parity_sum
parity_octet_sum stop parity v h = ground arith

module _ (stop : Setting ℕ) (parity : Setting Parity) (v : ℕ) (two : IsTwoBits v) where
  abbrev pub format : ℕ
  format = parity_octet parity (stop_octet stop v)

  pub format_bits : bit_and format 0b00000011 ≡ v
  unfolding format_parts parity_sum
  format_bits = rw (parity_octet_sum stop parity v two) (ground arith)

  pub format_stop : (if bit_and format 0b00000100 >>> 2 == 0 then 1 else 15) ≡ sent_stop stop
  unfolding format_parts parity_sum
  format_stop = rw (parity_octet_sum stop parity v two) (ground arith)

  pub format_parity :
      (before : Parity)
      → (if bit_and format 0b00001000 >>> 3 == 0
          then no_parity
          else parity_value (bit_and format 0b00110000 >>> 4) before)
        ≡ sent_parity parity
  unfolding format_parts parity_sum
  format_parity before = rw (parity_octet_sum stop parity v two) (ground arith)
