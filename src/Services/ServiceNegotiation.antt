-- ===== src/Services/ServiceNegotiation.antt =====
-- lib/cmux/services/service_negotiation.h and service_negotiation.c: the service negotiation
-- command.
use cmux.Base.{
  ℕ, ◌*◌, ◌/◌, ◌%◌, ◌<◌, ◌≡◌, refl, arith, ◌>>>◌, bit_and, u8, true, false, Bool, not, ◌==◌, ◌&&◌,
  if◌then◌else◌,
}
use cmux.Base.{Option, some, List, [], ◌∷◌, length, ◌>>=◌, read, write, Bool-cases, inl, inr}
use cmux.Base.Tables.{all_below, eq_below}
use cmux.Services.Address.{dlci_octet, dlci_octet_shifted}

-- `enum service_negotiation_service` and `enum service_negotiation_voice_codec`: the decoder casts
-- any seven upper bits to them, so they stand for their numbers.
abbrev pub service_none : ℕ
service_none = 0b00000000

abbrev pub service_data : ℕ
service_data = 0b00000010

abbrev pub service_voice : ℕ
service_voice = 0b00000100

abbrev pub voice_codec_none : ℕ
voice_codec_none = 0b00000000

abbrev pub gsm_46_021 : ℕ
gsm_46_021 = 0b00000010

abbrev pub value_mask : ℕ
value_mask = 0b11111110

-- `struct service_negotiation_parameters_t`
pub record ServiceNegotiation : Type 0 where
  pub dlci : ℕ
  pub service : ℕ
  pub voice_codec : ℕ

unfoldable pub service_negotiation_decode : List ℕ → Option ServiceNegotiation
service_negotiation_decode octets = do
  size ← read octets 0
  address ← read octets 1
  if size == 3
      then (do
        service ← read octets 2
        codec ← read octets 3
        some (record {
          dlci = address >>> 2;
          service = bit_and service value_mask;
          voice_codec = bit_and codec value_mask;
        }))
      else some
          (record { dlci = address >>> 2; service = service_none; voice_codec = voice_codec_none })

-- Both a service and a codec are given.
abbrev pub has_service : ServiceNegotiation → Bool
has_service parameters =
    not (parameters.service == service_none) && not (parameters.voice_codec == voice_codec_none)

unfoldable pub service_negotiation_encode_length : ServiceNegotiation → ℕ
service_negotiation_encode_length parameters = if has_service parameters then 4 else 2

unfoldable pub service_negotiation_encode : List ℕ → ServiceNegotiation → Option (List ℕ)
service_negotiation_encode octets parameters = do
  filled ←
      (if has_service parameters
        then (do
          sized ← write octets 0 3
          served ← write sized 2 (u8 parameters.service)
          write served 3 (u8 parameters.voice_codec))
        else write octets 0 1)
  write filled 1 (dlci_octet parameters.dlci)

-- What a peer reads: a service without a codec, or a codec without a service, is not sent.
abbrev pub sent : ServiceNegotiation → ServiceNegotiation
sent parameters =
    if has_service parameters
    then parameters
    else record { dlci = parameters.dlci; service = service_none; voice_codec = voice_codec_none }

even_table : all_below 128 (λ n. bit_and (u8 (2 * n)) 0b11111110 == 2 * n) ≡ true
unfolding all_below
even_table = refl

even_octet : (n : ℕ) → n < 256 → n % 2 ≡ 0 → bit_and (u8 n) value_mask ≡ n
even_octet n h e =
    let twice : n ≡ 2 * (n / 2) = omega arith in
    rw twice (
      eq_below 128 (λ n. bit_and (u8 (2 * n)) 0b11111110) (λ n. 2 * n) even_table (n / 2)
        (omega arith))

-- An octet whose lowest bit is free, as the enumerations have them.
abbrev pub IsValue : ℕ → Type 0
IsValue n = (n < 256) × (n % 2 ≡ 0)

-- The octets of a command with a service, and of one without.
abbrev pub RoundTrips : ServiceNegotiation → List ℕ → Type 0
RoundTrips parameters block =
    (octets : List ℕ) × (service_negotiation_encode block parameters ≡ some octets)
    × (length octets ≡ service_negotiation_encode_length parameters)
    × (service_negotiation_decode octets ≡ some (sent parameters))

round_trip_given :
    (parameters : ServiceNegotiation) (block : List ℕ)
    → parameters.dlci < 64
    → IsValue parameters.service
    → IsValue parameters.voice_codec
    → has_service parameters ≡ true
    → length block ≡ 4
    → RoundTrips parameters block
unfolding service_negotiation_encode service_negotiation_decode service_negotiation_encode_length
round_trip_given parameters (a ∷ b ∷ c ∷ d ∷ []) h hs hv given l = (
  3 ∷ dlci_octet parameters.dlci ∷ u8 parameters.service ∷ u8 parameters.voice_codec ∷ [],
  rw given,
  rw given,
  rw (
    given,
    dlci_octet_shifted parameters.dlci h,
    even_octet parameters.service hs.0 hs.1,
    even_octet parameters.voice_codec hv.0 hv.1,
  ),
)
round_trip_given parameters _ h hs hv given l = absurd (omega arith)

round_trip_absent :
    (parameters : ServiceNegotiation) (block : List ℕ)
    → parameters.dlci < 64
    → has_service parameters ≡ false
    → length block ≡ 2
    → RoundTrips parameters block
unfolding service_negotiation_encode service_negotiation_decode service_negotiation_encode_length
round_trip_absent parameters (a ∷ b ∷ []) h absent l = (
  1 ∷ dlci_octet parameters.dlci ∷ [],
  rw absent,
  rw absent,
  rw (absent, dlci_octet_shifted parameters.dlci h),
)
round_trip_absent parameters _ h absent l = absurd (omega arith)

-- What is encoded into any block of the length that the code computes is decoded as `sent` says:
-- a DLCI of six bits, and the service and the codec, even octets as the enumerations have them,
-- where both are given, else neither. The encoder does not leave the block.
pub service_negotiation_decode-encode :
    (parameters : ServiceNegotiation) (block : List ℕ)
    → parameters.dlci < 64
    → IsValue parameters.service
    → IsValue parameters.voice_codec
    → length block ≡ service_negotiation_encode_length parameters
    → (octets : List ℕ) × (service_negotiation_encode block parameters ≡ some octets)
      × (length octets ≡ service_negotiation_encode_length parameters)
      × (service_negotiation_decode octets ≡ some (sent parameters))
unfolding service_negotiation_encode_length
service_negotiation_decode-encode parameters block h hs hv l =
    elim (Bool-cases (has_service parameters)) [
      | inl given ↦ round_trip_given parameters block h hs hv given (rw given at l)
      | inr absent ↦ round_trip_absent parameters block h absent (rw absent at l)
    ]
