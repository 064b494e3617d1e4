-- ===== src/Crc/Reference.antt =====
-- The table of lib/cmux/crc.c against the check sequence computed bit by bit.
use cmux.Base.{ℕ, zero, suc, ◌-◌, ◌/◌, ◌%◌, ◌<◌, ◌≡◌, refl, ap, ◌∙◌, arith, bit_xor, List, [], ◌∷◌}
use cmux.Base.{true, ◌==◌, ltb, ltb→lt, if◌then◌else◌, length, get_or, IsBytes}
use cmux.Base.Tables.{all_below, all_below_at, eq_below}
use cmux.Crc.{crc_table, crc_step, crc_loop, cmux_crc}

-- One shift of the register with the reversed polynomial of x^8 + x^2 + x + 1.
abbrev pub shift_bit : ℕ → ℕ
shift_bit r = if r % 2 == 1 then bit_xor (r / 2) 0xe0 else r / 2

abbrev pub shift_bits : ℕ → ℕ → ℕ
shift_bits zero r = r
shift_bits (suc n) r = shift_bits n (shift_bit r)

-- The register after a message, and its ones complement.
abbrev pub register : ℕ → List ℕ → ℕ
register r [] = r
register r (octet ∷ message) = register (shift_bits 8 (bit_xor r octet)) message

unfoldable pub bitwise_crc : List ℕ → ℕ
bitwise_crc message = 0xff - register 0xff message

xor_table : all_below 256 (λ a. all_below 256 (λ b. ltb (bit_xor a b) 256)) ≡ true
unfolding all_below
xor_table = refl

step_table : all_below 256 (λ x. get_or crc_table x 0 == shift_bits 8 x) ≡ true
unfolding all_below
step_table = refl

entry_table : all_below 256 (λ x. ltb (get_or crc_table x 0) 256) ≡ true
unfolding all_below
entry_table = refl

pub bit_xor-lt : (a b : ℕ) → a < 256 → b < 256 → bit_xor a b < 256
bit_xor-lt a b ha hb = ltb→lt _ _ (
    all_below_at 256 _ b
      (all_below_at 256 (λ a. all_below 256 (λ b. ltb (bit_xor a b) 256)) a xor_table ha) hb)

pub index_in_bounds : (a b : ℕ) → a < 256 → b < 256 → bit_xor a b < length crc_table
index_in_bounds a b ha hb = bit_xor-lt a b ha hb

pub crc_step-lt : (a b : ℕ) → a < 256 → b < 256 → crc_step a b < 256
unfolding crc_step
crc_step-lt a b ha hb = ltb→lt _ _ (
    all_below_at 256 (λ x. ltb (get_or crc_table x 0) 256) (bit_xor a b) entry_table
      (bit_xor-lt a b ha hb))

crc_step-eq-shift : (a b : ℕ) → a < 256 → b < 256 → crc_step a b ≡ shift_bits 8 (bit_xor a b)
unfolding crc_step
crc_step-eq-shift a b ha hb =
    eq_below 256 (λ x. get_or crc_table x 0) (λ x. shift_bits 8 x) step_table (bit_xor a b)
      (bit_xor-lt a b ha hb)

pub crc_loop-lt : (m : List ℕ) (r : ℕ) → IsBytes m → r < 256 → crc_loop r m < 256
unfolding crc_loop
crc_loop-lt [] r h hr = hr
crc_loop-lt (x ∷ m) r h hr = crc_loop-lt m (crc_step r x) h.1 (crc_step-lt r x hr h.0)

pub cmux_crc-lt : (m : List ℕ) → cmux_crc m < 256
unfolding cmux_crc
cmux_crc-lt m = omega arith

crc_loop-eq-register : (m : List ℕ) (r : ℕ) → IsBytes m → r < 256 → crc_loop r m ≡ register r m
unfolding crc_loop
crc_loop-eq-register [] r h hr = refl
crc_loop-eq-register (x ∷ m) r h hr =
    crc_loop-eq-register m (crc_step r x) h.1 (crc_step-lt r x hr h.0)
    ∙ ap (λ s. register s m) (crc_step-eq-shift r x hr h.0)

-- For every message of octets, the table driven check sequence is the one that shifts each octet
-- bit by bit through the register with the reversed polynomial.
pub cmux_crc-eq-bitwise_crc : (m : List ℕ) → IsBytes m → cmux_crc m ≡ bitwise_crc m
unfolding cmux_crc bitwise_crc
cmux_crc-eq-bitwise_crc m h = ap (λ r. 0xff - r) (crc_loop-eq-register m 0xff h (omega arith))
