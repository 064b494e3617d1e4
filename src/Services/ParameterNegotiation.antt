-- ===== src/Services/ParameterNegotiation.antt =====
-- lib/cmux/services/parameter_negotiation.h and parameter_negotiation.c: the parameters of a DLC.
use cmux.Base.{
  ℕ, ◌*◌, ◌/◌, ◌<◌, ◌≡◌, refl, arith, ◌<<◌, ◌>>>◌, bit_and, bit_or, u8, u16, true, ◌==◌,
}
use cmux.Base.{Option, some, List, [], ◌∷◌, length, ◌>>=◌, read, write}
use cmux.Base.Bits.{bit_and_255, bit_or_above}
use cmux.Base.Tables.{all_below, eq_below, eq_below₂}

-- `enum parameter_frame_types` and `enum convergence_layer_type`: the decoder casts any four bits
-- to them, so they stand for their numbers.
abbrev pub frame_type_uih : ℕ
frame_type_uih = 0b00000000

abbrev pub frame_type_ui : ℕ
frame_type_ui = 0b00000001

abbrev pub frame_type_i : ℕ
frame_type_i = 0b00000010

abbrev pub layer_type1 : ℕ
layer_type1 = 0b00000000

abbrev pub layer_type2 : ℕ
layer_type2 = 0b00000001

abbrev pub layer_type3 : ℕ
layer_type3 = 0b00000010

abbrev pub layer_type4 : ℕ
layer_type4 = 0b00000011

-- `struct parameter_negotiation_parameters_t`
pub record ParameterNegotiation : Type 0 where
  pub dlci : ℕ
  pub frame_type : ℕ
  pub layer_type : ℕ
  pub priority : ℕ
  pub ack_timer_msec : ℕ
  pub max_frame_size : ℕ
  pub max_retransmissions : ℕ
  pub window_size : ℕ

unfoldable pub parameter_negotiation_decode : List ℕ → Option ParameterNegotiation
parameter_negotiation_decode octets = do
  o0 ← read octets 0
  o1 ← read octets 1
  o2 ← read octets 2
  o3 ← read octets 3
  o4 ← read octets 4
  o5 ← read octets 5
  o6 ← read octets 6
  o7 ← read octets 7
  some (record {
    dlci = bit_and o0 0b00111111;
    frame_type = bit_and o1 0b00001111;
    layer_type = bit_and o1 0b11110000 >>> 4;
    priority = bit_and o2 0b00111111;
    ack_timer_msec = o3 * 100;
    max_frame_size = u16 (bit_or o4 (o5 << 8));
    max_retransmissions = o6;
    window_size = bit_and o7 0b00000111;
  })

unfoldable pub parameter_negotiation_encode_length : ParameterNegotiation → ℕ
parameter_negotiation_encode_length parameters = 8

abbrev pub types_octet : ℕ → ℕ → ℕ
types_octet frame_type layer_type =
    u8 (bit_or (bit_and frame_type 0b00001111) (bit_and layer_type 0b00001111 << 4))

unfoldable pub parameter_negotiation_encode : List ℕ → ParameterNegotiation → Option (List ℕ)
parameter_negotiation_encode octets parameters = do
  w0 ← write octets 0 (u8 (bit_and parameters.dlci 0b00111111))
  w1 ← write w0 1 (types_octet parameters.frame_type parameters.layer_type)
  w2 ← write w1 2 (u8 (bit_and parameters.priority 0b00111111))
  w3 ← write w2 3 (u8 (parameters.ack_timer_msec / 100))
  w4 ← write w3 4 (u8 (bit_and parameters.max_frame_size 0b11111111))
  w5 ← write w4 5 (u8 (bit_and (parameters.max_frame_size >>> 8) 0b11111111))
  w6 ← write w5 6 (u8 parameters.max_retransmissions)
  write w6 7 (u8 (bit_and parameters.window_size 0b00000111))

-- The ranges of the fields, as their comments have them or as their bits allow.
pub record IsInRange (p : ParameterNegotiation) : Type 0 where
  pub dlci : p.dlci < 64
  pub frame_type : p.frame_type < 16
  pub layer_type : p.layer_type < 16
  pub priority : p.priority < 64
  pub ack_timer : p.ack_timer_msec < 25600
  pub max_frame_size : p.max_frame_size < 65536
  pub max_retransmissions : p.max_retransmissions < 256
  pub window_size : p.window_size < 8

six_table : all_below 64 (λ n. bit_and (u8 (bit_and n 0b00111111)) 0b00111111 == n) ≡ true
unfolding all_below
six_table = refl

three_table : all_below 8 (λ n. bit_and (u8 (bit_and n 0b00000111)) 0b00000111 == n) ≡ true
unfolding all_below
three_table = refl

frame_table :
    all_below 16 (λ f. all_below 16 (λ l. bit_and (types_octet f l) 0b00001111 == f)) ≡ true
unfolding all_below
frame_table = refl

layer_table :
    all_below 16 (λ f. all_below 16 (λ l. bit_and (types_octet f l) 0b11110000 >>> 4 == l)) ≡ true
unfolding all_below
layer_table = refl

six_bits : (n : ℕ) → n < 64 → bit_and (u8 (bit_and n 0b00111111)) 0b00111111 ≡ n
six_bits n h =
    eq_below 64 (λ n. bit_and (u8 (bit_and n 0b00111111)) 0b00111111) (λ n. n) six_table n h

three_bits : (n : ℕ) → n < 8 → bit_and (u8 (bit_and n 0b00000111)) 0b00000111 ≡ n
three_bits n h =
    eq_below 8 (λ n. bit_and (u8 (bit_and n 0b00000111)) 0b00000111) (λ n. n) three_table n h

low_nibble : (f l : ℕ) → f < 16 → l < 16 → bit_and (types_octet f l) 0b00001111 ≡ f
low_nibble f l hf hl =
    eq_below₂ 16 16 (λ f l. bit_and (types_octet f l) 0b00001111) (λ f l. f) frame_table f l hf hl

high_nibble : (f l : ℕ) → f < 16 → l < 16 → bit_and (types_octet f l) 0b11110000 >>> 4 ≡ l
high_nibble f l hf hl =
    eq_below₂ 16 16 (λ f l. bit_and (types_octet f l) 0b11110000 >>> 4) (λ f l. l) layer_table f l
      hf hl

sixteen_bits :
    (n : ℕ)
    → n < 65536
    → u16 (bit_or (u8 (bit_and n 0b11111111)) (u8 (bit_and (n >>> 8) 0b11111111) << 8)) ≡ n
sixteen_bits n h = omega (
  arith,
  bit_and_255 n,
  bit_and_255 (n >>> 8),
  bit_or_above 8 (u8 (bit_and n 0b11111111)) (u8 (bit_and (n >>> 8) 0b11111111)) (omega arith),
)

-- What is encoded into any block of eight octets, the length that the code computes, is decoded
-- again, but for the acknowledgement timer, which comes back rounded down to a multiple of 100 ms.
-- The encoder does not leave the block.
pub parameter_negotiation_decode-encode :
    (parameters : ParameterNegotiation) (block : List ℕ)
    → IsInRange parameters
    → length block ≡ parameter_negotiation_encode_length parameters
    → (octets : List ℕ) × (parameter_negotiation_encode block parameters ≡ some octets)
      × (length octets ≡ parameter_negotiation_encode_length parameters)
      × (parameter_negotiation_decode octets
          ≡ some (record parameters { ack_timer_msec = parameters.ack_timer_msec / 100 * 100 }))
unfolding parameter_negotiation_encode parameter_negotiation_decode
    parameter_negotiation_encode_length
parameter_negotiation_decode-encode p (a ∷ b ∷ c ∷ d ∷ e ∷ f ∷ g ∷ i ∷ []) h l =
    let timer : u8 (p.ack_timer_msec / 100) ≡ p.ack_timer_msec / 100 = omega arith in
    let retries : u8 p.max_retransmissions ≡ p.max_retransmissions = omega arith in
    (
      _,
      refl,
      refl,
      rw (
        six_bits p.dlci h.dlci,
        low_nibble p.frame_type p.layer_type h.frame_type h.layer_type,
        high_nibble p.frame_type p.layer_type h.frame_type h.layer_type,
        six_bits p.priority h.priority,
        timer,
        sixteen_bits p.max_frame_size h.max_frame_size,
        retries,
        three_bits p.window_size h.window_size,
      ),
    )
parameter_negotiation_decode-encode p _ h l = absurd (omega arith)
