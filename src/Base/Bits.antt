-- ===== src/Base/Bits.antt =====
-- `&` and `|` at variables: one equation for the lowest digit, from the recursion on digits that
-- the native operations stand for, and what follows of masks and of fields that do not overlap.
use Prim.Native.Nat.{ℕ, zero, suc, ◌+◌, ◌-◌, ◌*◌, ◌/◌, ◌%◌, ◌^◌, ◌≤◌, ◌<◌, min, max}
use Prim.Native.Nat.{bit_and, bit_or, digits, bitwise}
use Prim.Native.Nat.{bit_and-bitwise, bit_or-bitwise}
use mathlib.Core.Path.{◌≡◌, refl, ap, ◌∙◌}
use native.Mathlib.Nat.{pow-suc}
use native.Mathlib.Omega.{arith}

module _ (z : ℕ → ℕ) (f : ℕ → ℕ → ℕ) where
  -- One more round of fuel than the number has digits makes no difference.
  digits-suc : (n a b : ℕ) → a ≤ n → digits z f (suc n) a b ≡ digits z f n a b
  digits-suc zero zero b h = refl
  digits-suc zero (suc a) b h = absurd (omega arith)
  digits-suc (suc n) zero b h = refl
  digits-suc (suc n) (suc a) b h =
      ap (λ t. t * 2 + f (suc a % 2) (b % 2)) (digits-suc n (suc a / 2) (b / 2) (omega arith))

  digits-add : (k a b : ℕ) → digits z f (k + a) a b ≡ digits z f a a b
  digits-add zero a b = ap (λ n. digits z f n a b) (omega arith)
  digits-add (suc k) a b =
      let e : suc k + a ≡ suc (k + a) = omega arith in
      ap (λ n. digits z f n a b) e ∙ digits-suc (k + a) a b (omega arith) ∙ digits-add k a b

  lowest :
      (a b : ℕ)
      → bitwise z f (suc a) b ≡ bitwise z f (suc a / 2) (b / 2) * 2 + f (suc a % 2) (b % 2)
  lowest a b = ap (λ t. t * 2 + f (suc a % 2) (b % 2)) enough
    where
      enough : digits z f a (suc a / 2) (b / 2) ≡ digits z f (suc a / 2) (suc a / 2) (b / 2)
      enough =
          let e : a ≡ a - suc a / 2 + suc a / 2 = omega arith in
          ap (λ n. digits z f n (suc a / 2) (b / 2)) e
          ∙ digits-add (a - suc a / 2) (suc a / 2) (b / 2)

pub bit_and_lowest : (a b : ℕ) → bit_and a b ≡ bit_and (a / 2) (b / 2) * 2 + min (a % 2) (b % 2)
bit_and_lowest zero b = simp bit_and-bitwise (omega arith)
bit_and_lowest (suc a) b = simp bit_and-bitwise (lowest (λ _. 0) min a b)

pub bit_or_lowest : (a b : ℕ) → bit_or a b ≡ bit_or (a / 2) (b / 2) * 2 + max (a % 2) (b % 2)
bit_or_lowest zero b = simp bit_or-bitwise (omega arith)
bit_or_lowest (suc a) b = simp bit_or-bitwise (lowest (λ y. y) max a b)

pub bit_and_half : (a b : ℕ) → bit_and a b / 2 ≡ bit_and (a / 2) (b / 2)
bit_and_half a b = omega (arith, bit_and_lowest a b)

bit_and-zero : (k a : ℕ) → a ≤ k → bit_and a 0 ≡ 0
bit_and-zero k zero h = refl
bit_and-zero zero (suc a) h = absurd (omega arith)
bit_and-zero (suc k) (suc a) h =
    omega (arith, bit_and_lowest (suc a) 0, bit_and-zero k (suc a / 2) (omega arith))

-- Masks of ones, a lemma for each digit more.
pub bit_and_1 : (a : ℕ) → bit_and a 1 ≡ a % 2
bit_and_1 a = omega (arith, bit_and_lowest a 1, bit_and-zero (a / 2) (a / 2) (omega arith))

bit_and_3 : (a : ℕ) → bit_and a 3 ≡ a % 4
bit_and_3 a = omega (arith, bit_and_lowest a 3, bit_and_1 (a / 2))

bit_and_7 : (a : ℕ) → bit_and a 7 ≡ a % 8
bit_and_7 a = omega (arith, bit_and_lowest a 7, bit_and_3 (a / 2))

bit_and_15 : (a : ℕ) → bit_and a 15 ≡ a % 16
bit_and_15 a = omega (arith, bit_and_lowest a 15, bit_and_7 (a / 2))

bit_and_31 : (a : ℕ) → bit_and a 31 ≡ a % 32
bit_and_31 a = omega (arith, bit_and_lowest a 31, bit_and_15 (a / 2))

bit_and_63 : (a : ℕ) → bit_and a 63 ≡ a % 64
bit_and_63 a = omega (arith, bit_and_lowest a 63, bit_and_31 (a / 2))

pub bit_and_127 : (a : ℕ) → bit_and a 127 ≡ a % 128
bit_and_127 a = omega (arith, bit_and_lowest a 127, bit_and_63 (a / 2))

pub bit_and_255 : (a : ℕ) → bit_and a 255 ≡ a % 256
bit_and_255 a = omega (arith, bit_and_lowest a 255, bit_and_127 (a / 2))

-- The eight digits above the lowest ones, up to `(a & 0b0111111110000000) >> 7`.
bit_and_above1 : (a : ℕ) → bit_and a 0x1fe / 2 ≡ a / 2 % 256
bit_and_above1 a = omega (arith, bit_and_half a 0x1fe, bit_and_255 (a / 2))

bit_and_above2 : (a : ℕ) → bit_and a 0x3fc / 4 ≡ a / 4 % 256
bit_and_above2 a = omega (arith, bit_and_half a 0x3fc, bit_and_above1 (a / 2))

bit_and_above3 : (a : ℕ) → bit_and a 0x7f8 / 8 ≡ a / 8 % 256
bit_and_above3 a = omega (arith, bit_and_half a 0x7f8, bit_and_above2 (a / 2))

bit_and_above4 : (a : ℕ) → bit_and a 0xff0 / 16 ≡ a / 16 % 256
bit_and_above4 a = omega (arith, bit_and_half a 0xff0, bit_and_above3 (a / 2))

bit_and_above5 : (a : ℕ) → bit_and a 0x1fe0 / 32 ≡ a / 32 % 256
bit_and_above5 a = omega (arith, bit_and_half a 0x1fe0, bit_and_above4 (a / 2))

bit_and_above6 : (a : ℕ) → bit_and a 0x3fc0 / 64 ≡ a / 64 % 256
bit_and_above6 a = omega (arith, bit_and_half a 0x3fc0, bit_and_above5 (a / 2))

pub bit_and_upper : (a : ℕ) → bit_and a 0x7f80 / 128 ≡ a / 128 % 256
bit_and_upper a = omega (arith, bit_and_half a 0x7f80, bit_and_above6 (a / 2))

-- `lo | hi << k` is a sum where `lo` has `k` digits at most.
pub bit_or_above : (k lo hi : ℕ) → lo < 2 ^ k → bit_or lo (hi * 2 ^ k) ≡ lo + hi * 2 ^ k
bit_or_above zero lo hi h =
    let e : lo ≡ 0 = omega arith in rw e (bit_or-bitwise 0 (hi * 2 ^ 0) ∙ omega arith)
bit_or_above (suc k) lo hi h =
    let double : hi * 2 ^ suc k ≡ 2 * (hi * 2 ^ k) =
      omega (arith, ap (λ (t : ℕ). hi * t) (pow-suc 2 k)) in
    let half : hi * 2 ^ suc k / 2 ≡ hi * 2 ^ k = omega (arith, double) in
    let below : lo / 2 < 2 ^ k = omega (arith, pow-suc 2 k) in
    let rest : bit_or (lo / 2) (hi * 2 ^ suc k / 2) ≡ lo / 2 + hi * 2 ^ k =
      rw half (bit_or_above k (lo / 2) hi below) in
    omega (arith, bit_or_lowest lo (hi * 2 ^ suc k), rest, double)

pub bit_and_2 : (a : ℕ) → bit_and a 2 ≡ a / 2 % 2 * 2
bit_and_2 a = omega (arith, bit_and_lowest a 2, bit_and_1 (a / 2))
