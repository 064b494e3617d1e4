-- ===== src/Crc/Detect.antt =====
-- What the check sequence of lib/cmux/crc.c tells apart: the table is a permutation, so that a
-- register keeps every difference that one octet makes.
use cmux.Base.{ℕ, ◌<◌, ◌≡◌, ◌≢◌, sym, ap, ◌∙◌, arith, bit_xor, List, [], ◌∷◌, ◌++◌}
use cmux.Base.{true, ◌==◌, get_or, IsBytes, refl}
use cmux.Base.Tables.{all_below, all_below_at, eq_below}
use cmux.Crc.{crc_table, crc_step, crc_loop, cmux_crc}
use cmux.Crc.Reference.{bit_xor-lt, crc_step-lt, crc_loop-lt}

-- Where each octet stands in `crc_table`.
abbrev position : List ℕ
position =
    0x00 ∷ 0xc1 ∷ 0x43 ∷ 0x82 ∷ 0x86 ∷ 0x47 ∷ 0xc5 ∷ 0x04 ∷ 0xcd ∷ 0x0c ∷ 0x8e ∷ 0x4f ∷ 0x4b ∷ 0x8a
    ∷ 0x08 ∷ 0xc9 ∷ 0x5b ∷ 0x9a ∷ 0x18 ∷ 0xd9 ∷ 0xdd ∷ 0x1c ∷ 0x9e ∷ 0x5f ∷ 0x96 ∷ 0x57 ∷ 0xd5
    ∷ 0x14 ∷ 0x10 ∷ 0xd1 ∷ 0x53 ∷ 0x92 ∷ 0xb6 ∷ 0x77 ∷ 0xf5 ∷ 0x34 ∷ 0x30 ∷ 0xf1 ∷ 0x73 ∷ 0xb2
    ∷ 0x7b ∷ 0xba ∷ 0x38 ∷ 0xf9 ∷ 0xfd ∷ 0x3c ∷ 0xbe ∷ 0x7f ∷ 0xed ∷ 0x2c ∷ 0xae ∷ 0x6f ∷ 0x6b
    ∷ 0xaa ∷ 0x28 ∷ 0xe9 ∷ 0x20 ∷ 0xe1 ∷ 0x63 ∷ 0xa2 ∷ 0xa6 ∷ 0x67 ∷ 0xe5 ∷ 0x24 ∷ 0xad ∷ 0x6c
    ∷ 0xee ∷ 0x2f ∷ 0x2b ∷ 0xea ∷ 0x68 ∷ 0xa9 ∷ 0x60 ∷ 0xa1 ∷ 0x23 ∷ 0xe2 ∷ 0xe6 ∷ 0x27 ∷ 0xa5
    ∷ 0x64 ∷ 0xf6 ∷ 0x37 ∷ 0xb5 ∷ 0x74 ∷ 0x70 ∷ 0xb1 ∷ 0x33 ∷ 0xf2 ∷ 0x3b ∷ 0xfa ∷ 0x78 ∷ 0xb9
    ∷ 0xbd ∷ 0x7c ∷ 0xfe ∷ 0x3f ∷ 0x1b ∷ 0xda ∷ 0x58 ∷ 0x99 ∷ 0x9d ∷ 0x5c ∷ 0xde ∷ 0x1f ∷ 0xd6
    ∷ 0x17 ∷ 0x95 ∷ 0x54 ∷ 0x50 ∷ 0x91 ∷ 0x13 ∷ 0xd2 ∷ 0x40 ∷ 0x81 ∷ 0x03 ∷ 0xc2 ∷ 0xc6 ∷ 0x07
    ∷ 0x85 ∷ 0x44 ∷ 0x8d ∷ 0x4c ∷ 0xce ∷ 0x0f ∷ 0x0b ∷ 0xca ∷ 0x48 ∷ 0x89 ∷ 0x9b ∷ 0x5a ∷ 0xd8
    ∷ 0x19 ∷ 0x1d ∷ 0xdc ∷ 0x5e ∷ 0x9f ∷ 0x56 ∷ 0x97 ∷ 0x15 ∷ 0xd4 ∷ 0xd0 ∷ 0x11 ∷ 0x93 ∷ 0x52
    ∷ 0xc0 ∷ 0x01 ∷ 0x83 ∷ 0x42 ∷ 0x46 ∷ 0x87 ∷ 0x05 ∷ 0xc4 ∷ 0x0d ∷ 0xcc ∷ 0x4e ∷ 0x8f ∷ 0x8b
    ∷ 0x4a ∷ 0xc8 ∷ 0x09 ∷ 0x2d ∷ 0xec ∷ 0x6e ∷ 0xaf ∷ 0xab ∷ 0x6a ∷ 0xe8 ∷ 0x29 ∷ 0xe0 ∷ 0x21
    ∷ 0xa3 ∷ 0x62 ∷ 0x66 ∷ 0xa7 ∷ 0x25 ∷ 0xe4 ∷ 0x76 ∷ 0xb7 ∷ 0x35 ∷ 0xf4 ∷ 0xf0 ∷ 0x31 ∷ 0xb3
    ∷ 0x72 ∷ 0xbb ∷ 0x7a ∷ 0xf8 ∷ 0x39 ∷ 0x3d ∷ 0xfc ∷ 0x7e ∷ 0xbf ∷ 0x36 ∷ 0xf7 ∷ 0x75 ∷ 0xb4
    ∷ 0xb0 ∷ 0x71 ∷ 0xf3 ∷ 0x32 ∷ 0xfb ∷ 0x3a ∷ 0xb8 ∷ 0x79 ∷ 0x7d ∷ 0xbc ∷ 0x3e ∷ 0xff ∷ 0x6d
    ∷ 0xac ∷ 0x2e ∷ 0xef ∷ 0xeb ∷ 0x2a ∷ 0xa8 ∷ 0x69 ∷ 0xa0 ∷ 0x61 ∷ 0xe3 ∷ 0x22 ∷ 0x26 ∷ 0xe7
    ∷ 0x65 ∷ 0xa4 ∷ 0x80 ∷ 0x41 ∷ 0xc3 ∷ 0x02 ∷ 0x06 ∷ 0xc7 ∷ 0x45 ∷ 0x84 ∷ 0x4d ∷ 0x8c ∷ 0x0e
    ∷ 0xcf ∷ 0xcb ∷ 0x0a ∷ 0x88 ∷ 0x49 ∷ 0xdb ∷ 0x1a ∷ 0x98 ∷ 0x59 ∷ 0x5d ∷ 0x9c ∷ 0x1e ∷ 0xdf
    ∷ 0x16 ∷ 0xd7 ∷ 0x55 ∷ 0x94 ∷ 0x90 ∷ 0x51 ∷ 0xd3 ∷ 0x12 ∷ []

position_table : all_below 256 (λ x. get_or position (get_or crc_table x 0) 0 == x) ≡ true
unfolding all_below
position_table = refl

xor_right_table : all_below 256 (λ a. all_below 256 (λ b. bit_xor (bit_xor a b) b == a)) ≡ true
unfolding all_below
xor_right_table = refl

xor_left_table : all_below 256 (λ a. all_below 256 (λ b. bit_xor a (bit_xor a b) == b)) ≡ true
unfolding all_below
xor_left_table = refl

xor_right : (a b : ℕ) → a < 256 → b < 256 → bit_xor (bit_xor a b) b ≡ a
xor_right a b ha hb =
    eq_below 256 (λ b. bit_xor (bit_xor a b) b) (λ _. a)
      (all_below_at 256 (λ a. all_below 256 (λ b. bit_xor (bit_xor a b) b == a)) a xor_right_table
        ha)
      b hb

xor_left : (a b : ℕ) → a < 256 → b < 256 → bit_xor a (bit_xor a b) ≡ b
xor_left a b ha hb =
    eq_below 256 (λ b. bit_xor a (bit_xor a b)) (λ b. b)
      (all_below_at 256 (λ a. all_below 256 (λ b. bit_xor a (bit_xor a b) == b)) a xor_left_table
        ha)
      b hb

position-entry : (x : ℕ) → x < 256 → get_or position (get_or crc_table x 0) 0 ≡ x
position-entry x h =
    eq_below 256 (λ x. get_or position (get_or crc_table x 0) 0) (λ x. x) position_table x h

module _ (r a s b : ℕ) (hr : r < 256) (ha : a < 256) (hs : s < 256) (hb : b < 256) where
  crc_step_xor : crc_step r a ≡ crc_step s b → bit_xor r a ≡ bit_xor s b
  unfolding crc_step
  crc_step_xor e =
      sym (position-entry (bit_xor r a) (bit_xor-lt r a hr ha))
      ∙ ap (λ t. get_or position t 0) e
      ∙ position-entry (bit_xor s b) (bit_xor-lt s b hs hb)

crc_step-injective_octet :
    (r a b : ℕ) → r < 256 → a < 256 → b < 256 → crc_step r a ≡ crc_step r b → a ≡ b
crc_step-injective_octet r a b hr ha hb e =
    sym (xor_left r a hr ha)
    ∙ ap (bit_xor r) (crc_step_xor r a r b hr ha hr hb e)
    ∙ xor_left r b hr hb

crc_step-injective_register :
    (r s a : ℕ) → r < 256 → s < 256 → a < 256 → crc_step r a ≡ crc_step s a → r ≡ s
crc_step-injective_register r s a hr hs ha e =
    sym (xor_right r a hr ha)
    ∙ ap (λ t. bit_xor t a) (crc_step_xor r a s a hr ha hs ha e)
    ∙ xor_right s a hs ha

crc_loop-injective :
    (m : List ℕ) (r s : ℕ) → IsBytes m → r < 256 → s < 256 → crc_loop r m ≡ crc_loop s m → r ≡ s
unfolding crc_loop
crc_loop-injective [] r s h hr hs e = e
crc_loop-injective (x ∷ m) r s h hr hs e = crc_step-injective_register r s x hr hs h.0 (
    crc_loop-injective m (crc_step r x) (crc_step s x) h.1 (crc_step-lt r x hr h.0)
      (crc_step-lt s x hs h.0) e)

crc_loop_one_octet :
    (before after : List ℕ) (r a b : ℕ)
    → IsBytes before
    → IsBytes after
    → r < 256
    → a < 256
    → b < 256
    → crc_loop r (before ++ (a ∷ after)) ≡ crc_loop r (before ++ (b ∷ after))
    → a ≡ b
unfolding crc_loop
crc_loop_one_octet [] after r a b hb ha hr h h' e = crc_step-injective_octet r a b hr h h' (
    crc_loop-injective after (crc_step r a) (crc_step r b) ha (crc_step-lt r a hr h)
      (crc_step-lt r b hr h') e)
crc_loop_one_octet (x ∷ before) after r a b hb ha hr h h' e =
    crc_loop_one_octet before after (crc_step r x) a b hb.1 ha (crc_step-lt r x hr hb.0) h h' e

IsBytes-around :
    (before after : List ℕ) (a : ℕ)
    → IsBytes before
    → IsBytes after
    → a < 256
    → IsBytes (before ++ (a ∷ after))
IsBytes-around [] after a hb ha h = (h, ha)
IsBytes-around (x ∷ before) after a hb ha h = (hb.0, IsBytes-around before after a hb.1 ha h)

-- Two messages of octets that differ in exactly one place, wherever it is, have different check
-- sequences: an octet that is corrupted alone is always noticed.
pub cmux_crc_detects_octet :
    (before after : List ℕ) (a b : ℕ)
    → IsBytes before
    → IsBytes after
    → a < 256
    → b < 256
    → a ≢ b
    → cmux_crc (before ++ (a ∷ after)) ≢ cmux_crc (before ++ (b ∷ after))
unfolding cmux_crc
cmux_crc_detects_octet before after a b hb ha h h' ne e =
    ne (crc_loop_one_octet before after 0xff a b hb ha (omega arith) h h' same)
  where
    same : crc_loop 0xff (before ++ (a ∷ after)) ≡ crc_loop 0xff (before ++ (b ∷ after))
    same = omega (
      arith,
      e,
      crc_loop-lt (before ++ (a ∷ after)) 0xff (IsBytes-around before after a hb ha h)
          (omega arith),
      crc_loop-lt (before ++ (b ∷ after)) 0xff (IsBytes-around before after b hb ha h')
          (omega arith),
    )
