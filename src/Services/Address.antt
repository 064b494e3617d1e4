-- ===== src/Services/Address.antt =====
-- The octet that carries the DLCI in the services of lib/cmux/services, with the command bit and
-- the extension bit: `(dlci << 2) | 0x01 | 0x02` of an octet.
use cmux.Base.{ℕ, ◌<◌, ◌≡◌, true, refl, ◌<<◌, ◌>>>◌, bit_and, bit_or, u8, ◌==◌}
use cmux.Base.Tables.{all_below, eq_below}

abbrev pub dlci_octet : ℕ → ℕ
dlci_octet dlci = u8 (bit_or (bit_or (dlci << 2) 0x01) 0x02)

shifted_table : all_below 64 (λ d. dlci_octet d >>> 2 == d) ≡ true
unfolding all_below
shifted_table = refl

masked_table : all_below 64 (λ d. bit_and (dlci_octet d) 0b11111100 >>> 2 == d) ≡ true
unfolding all_below
masked_table = refl

pub dlci_octet_shifted : (d : ℕ) → d < 64 → dlci_octet d >>> 2 ≡ d
dlci_octet_shifted d h = eq_below 64 (λ d. dlci_octet d >>> 2) (λ d. d) shifted_table d h

pub dlci_octet_masked : (d : ℕ) → d < 64 → bit_and (dlci_octet d) 0b11111100 >>> 2 ≡ d
dlci_octet_masked d h =
    eq_below 64 (λ d. bit_and (dlci_octet d) 0b11111100 >>> 2) (λ d. d) masked_table d h
