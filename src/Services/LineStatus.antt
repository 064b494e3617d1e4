-- ===== src/Services/LineStatus.antt =====
-- lib/cmux/services/line_status_indication.h and line_status_indication.c: the remote line status
-- command.
use cmux.Base.{
  ℕ, ◌<◌, ◌≡◌, refl, arith, ◌>>>◌, bit_and, u8, true, ◌==◌, Option, some, List, [], ◌∷◌,
}
use cmux.Base.{length, ◌>>=◌, read, write}
use cmux.Base.Tables.{all_below, eq_below}
use cmux.Services.Address.{dlci_octet, dlci_octet_shifted}

-- `enum line_status`: the decoder casts any four bits to it, so it stands for its number.
abbrev pub LineStatus : Type 0
LineStatus = ℕ

abbrev pub no_error : LineStatus
no_error = 0b00000000

abbrev pub overrun_error : LineStatus
overrun_error = 0b00001001

abbrev pub parity_error : LineStatus
parity_error = 0b00000101

abbrev pub framing_error : LineStatus
framing_error = 0b00000011

abbrev pub line_status_mask : ℕ
line_status_mask = 0b00001111

-- `struct line_status_parameters_t`
pub record LineStatusParameters : Type 0 where
  pub dlci : ℕ
  pub status : LineStatus

unfoldable pub line_status_decode : List ℕ → Option LineStatusParameters
line_status_decode octets = do
  address ← read octets 0
  line ← read octets 1
  some (record { dlci = address >>> 2; status = bit_and line line_status_mask })

unfoldable pub line_status_encode_length : LineStatusParameters → ℕ
line_status_encode_length status = 2

unfoldable pub line_status_encode : List ℕ → LineStatusParameters → Option (List ℕ)
line_status_encode octets status = do
  addressed ← write octets 0 (dlci_octet status.dlci)
  write addressed 1 (u8 (bit_and status.status line_status_mask))

mask_table : all_below 16 (λ n. bit_and (u8 (bit_and n 15)) 15 == n) ≡ true
unfolding all_below
mask_table = refl

-- What is encoded into any block of the length that the code computes is decoded again: a DLCI of
-- six bits and a status of four. The encoder does not leave the block.
pub line_status_decode-encode :
    (parameters : LineStatusParameters) (block : List ℕ)
    → parameters.dlci < 64
    → parameters.status < 16
    → length block ≡ line_status_encode_length parameters
    → (octets : List ℕ) × (line_status_encode block parameters ≡ some octets)
      × (length octets ≡ line_status_encode_length parameters)
      × (line_status_decode octets ≡ some parameters)
unfolding line_status_encode line_status_decode line_status_encode_length
line_status_decode-encode parameters (x ∷ y ∷ []) h k l = (
  dlci_octet parameters.dlci ∷ u8 (bit_and parameters.status line_status_mask) ∷ [],
  refl,
  refl,
  ground (
    arith,
    dlci_octet_shifted parameters.dlci h,
    eq_below 16 (λ n. bit_and (u8 (bit_and n 15)) 15) (λ n. n) mask_table parameters.status k,
  ),
)
line_status_decode-encode parameters _ h k l = absurd (omega arith)
