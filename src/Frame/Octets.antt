-- ===== src/Frame/Octets.antt =====
-- The octets that lib/cmux/cmux_frame_builder.c packs, and what lib/cmux/cmux_frame_parser.c
-- unpacks from them.
use cmux.Base.{ℕ, ◌+◌, ◌*◌, ◌/◌, ◌%◌, ◌<◌, ◌≡◌, refl, arith, ◌<<◌, ◌>>>◌, bit_and, bit_or}
use cmux.Base.{u8, Bool, true, false, ◌==◌, if◌then◌else◌}
use cmux.Base.Bits.{bit_and_1, bit_and_2, bit_and_127, bit_and_upper, bit_or_above}
use cmux.Base.Tables.{all_below, eq_below}
use cmux.Frame.{ControlType, sabm, other, control_code, control_type}
use cmux.Frame.{poll_final_bit, has_bits, without_poll_final, is_extended, extended_length}

-- The six commands and responses that `enum CONTROL_TYPE` names.
abbrev pub IsNamed : ControlType → Type 0
IsNamed (other n) = ⊥
IsNamed _ = Unit

-- The address octet as `address_octet` of the builder packs it.
abbrev pub packed_address : Bool → Bool → ℕ → ℕ
packed_address ea cr dlci =
    u8 (bit_or (bit_or (if ea then 0x01 else 0x00) (if cr then 0x02 else 0x00)) (dlci << 2))

abbrev pub packed_control : ControlType → Bool → ℕ
packed_control type poll_final =
    u8 (bit_or (control_code type) (if poll_final then poll_final_bit else 0x00))

flags_sum : Bool → Bool → ℕ
flags_sum ea cr = (if ea then 1 else 0) + (if cr then 2 else 0)

packed_address_sum :
    (ea cr : Bool) (dlci : ℕ) → dlci < 64 → packed_address ea cr dlci ≡ flags_sum ea cr + dlci * 4
unfolding flags_sum
packed_address_sum true true d h = omega (arith, bit_or_above 2 3 d (omega arith))
packed_address_sum true false d h = omega (arith, bit_or_above 2 1 d (omega arith))
packed_address_sum false true d h = omega (arith, bit_or_above 2 2 d (omega arith))
packed_address_sum false false d h = omega (arith, bit_or_above 2 0 d (omega arith))

pub address_ea :
    (ea cr : Bool) (dlci : ℕ) → dlci < 64 → has_bits (packed_address ea cr dlci) 0x01 ≡ ea
unfolding flags_sum
address_ea ea cr d h =
    ground (arith, packed_address_sum ea cr d h, bit_and_1 (packed_address ea cr d))

pub address_cr :
    (ea cr : Bool) (dlci : ℕ) → dlci < 64 → has_bits (packed_address ea cr dlci) 0x02 ≡ cr
unfolding flags_sum
address_cr ea cr d h =
    ground (arith, packed_address_sum ea cr d h, bit_and_2 (packed_address ea cr d))

pub address_dlci : (ea cr : Bool) (dlci : ℕ) → dlci < 64 → packed_address ea cr dlci >>> 2 ≡ dlci
unfolding flags_sum
address_dlci ea cr d h = ground (arith, packed_address_sum ea cr d h)

pub control_octet_type :
    (t : ControlType) (p : Bool)
    → IsNamed t
    → control_type (without_poll_final (packed_control t p)) ≡ t
unfolding control_type
control_octet_type sabm true h = refl
control_octet_type sabm false h = refl
control_octet_type (other n) p h = absurd h
control_octet_type _ true h = refl
control_octet_type _ false h = refl

pub control_octet_poll_final :
    (t : ControlType) (p : Bool) → IsNamed t → has_bits (packed_control t p) 0x10 ≡ p
control_octet_poll_final sabm true h = refl
control_octet_poll_final sabm false h = refl
control_octet_poll_final (other n) p h = absurd h
control_octet_poll_final _ true h = refl
control_octet_poll_final _ false h = refl

-- The length octets.
abbrev pub short_octet : ℕ → ℕ
short_octet n = u8 (bit_or (bit_and n 0x7f << 1) 0x01)

abbrev pub low_octet : ℕ → ℕ
low_octet n = u8 (bit_and n 0x7f << 1)

abbrev pub high_octet : ℕ → ℕ
high_octet n = u8 (bit_and n 0x7f80 >>> 7)

short_table : all_below 128 (λ n. short_octet n == 2 * n + 1) ≡ true
unfolding all_below
short_table = refl

short_octet_sum : (n : ℕ) → n < 128 → short_octet n ≡ 2 * n + 1
short_octet_sum n h = eq_below 128 (λ n. short_octet n) (λ n. 2 * n + 1) short_table n h

pub short_octet-is_extended : (n : ℕ) → n < 128 → is_extended (short_octet n) ≡ false
short_octet-is_extended n h = ground (arith, short_octet_sum n h, bit_and_1 (short_octet n))

pub short_octet_length : (n : ℕ) → n < 128 → short_octet n >>> 1 ≡ n
short_octet_length n h = omega (arith, short_octet_sum n h)

low_octet_sum : (n : ℕ) → low_octet n ≡ 2 * (n % 128)
low_octet_sum n = omega (arith, bit_and_127 n)

high_octet_sum : (n : ℕ) → high_octet n ≡ n / 128 % 256
high_octet_sum n = omega (arith, bit_and_upper n)

pub low_octet-is_extended : (n : ℕ) → is_extended (low_octet n) ≡ true
low_octet-is_extended n = ground (arith, low_octet_sum n, bit_and_1 (low_octet n))

-- The parser shifts the second length octet by 8, the builder by 7.
pub extended_length_octets :
    (n : ℕ) → extended_length (low_octet n) (high_octet n) ≡ n % 128 + n / 128 % 256 * 256
extended_length_octets n = omega (
  arith,
  low_octet_sum n,
  high_octet_sum n,
  bit_or_above 8 (low_octet n >>> 1) (high_octet n) (omega (arith, low_octet_sum n)),
)
