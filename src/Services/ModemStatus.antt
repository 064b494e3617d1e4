-- ===== src/Services/ModemStatus.antt =====
-- lib/cmux/services/modem_status.h and modem_status.c: the modem status command.
use cmux.Base.{ℕ, ◌+◌, ◌<◌, ◌≡◌, refl, arith, ◌>>>◌, bit_and}
use cmux.Base.{Bool, if◌then◌else◌, Option, some, List, [], ◌∷◌, length}
use cmux.Base.{◌>>=◌, read, write, or_at}
use cmux.Frame.{has_bits}
use cmux.Services.Address.{dlci_octet, dlci_octet_masked}

-- `struct modem_status_t`
pub record ModemStatus : Type 0 where
  pub dlci : ℕ
  pub fc : Bool
  pub rtc : Bool
  pub rtr : Bool
  pub ic : Bool
  pub dv : Bool

unfoldable pub modem_status_decode : List ℕ → Option ModemStatus
modem_status_decode octets = do
  address ← read octets 0
  signals ← read octets 1
  some (record {
    dlci = bit_and address 0b11111100 >>> 2;
    fc = has_bits signals 0b00000010;
    rtc = has_bits signals 0b00000100;
    rtr = has_bits signals 0b00001000;
    ic = has_bits signals 0b01000000;
    dv = has_bits signals 0b10000000;
  })

unfoldable pub modem_status_encode_length : ModemStatus → ℕ
modem_status_encode_length status = 2

-- `if (flag) { octets[i] |= mask; }`
abbrev pub or_if : Bool → ℕ → ℕ → List ℕ → Option (List ℕ)
or_if flag i mask octets = if flag then or_at i mask octets else some octets

-- What the flags come to.
abbrev signal_octet : ModemStatus → ℕ
signal_octet status =
    0b00000001
    + (if status.fc then 0b00000010 else 0)
    + (if status.rtc then 0b00000100 else 0)
    + (if status.rtr then 0b00001000 else 0)
    + (if status.ic then 0b01000000 else 0)
    + (if status.dv then 0b10000000 else 0)

unfoldable pub modem_status_encode : List ℕ → ModemStatus → Option (List ℕ)
modem_status_encode octets status = do
  addressed ← write octets 0 (dlci_octet status.dlci)
  zeroed ← write addressed 1 0
  marked ← or_at 1 0b00000001 zeroed
  fc ← or_if status.fc 1 0b00000010 marked
  rtc ← or_if status.rtc 1 0b00000100 fc
  rtr ← or_if status.rtr 1 0b00001000 rtc
  ic ← or_if status.ic 1 0b01000000 rtr
  or_if status.dv 1 0b10000000 ic

-- What is encoded into any block of the length that the code computes is decoded again: every
-- signal, and a DLCI of six bits. The encoder does not leave the block.
pub modem_status_decode-encode :
    (status : ModemStatus) (block : List ℕ)
    → status.dlci < 64
    → length block ≡ modem_status_encode_length status
    → (octets : List ℕ) × (modem_status_encode block status ≡ some octets)
      × (length octets ≡ modem_status_encode_length status)
      × (modem_status_decode octets ≡ some status)
unfolding modem_status_encode modem_status_decode modem_status_encode_length
modem_status_decode-encode status (x ∷ y ∷ []) h l = (
  dlci_octet status.dlci ∷ signal_octet status ∷ [],
  ground arith,
  refl,
  ground (arith, dlci_octet_masked status.dlci h),
)
modem_status_decode-encode status _ h l = absurd (omega arith)
