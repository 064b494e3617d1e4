-- ===== src/Base/Tables.antt =====
-- Statements about one octet, or two, proved by going through all their values.
use Prim.Native.Nat.{ℕ, zero, suc, ◌<◌}
use mathlib.Core.Path.{◌≡◌}
use mathlib.Core.Bool.{Bool, true, ◌&&◌}
use native.Mathlib.Omega.{arith}
use cmux.Base.Tests.{◌==◌, ==_iff}

unfoldable pub all_below : ℕ → (ℕ → Bool) → Bool
all_below zero p = true
all_below (suc n) p = p n && all_below n p

pub all_below_at : (n : ℕ) (p : ℕ → Bool) (x : ℕ) → all_below n p ≡ true → x < n → p x ≡ true
unfolding all_below
all_below_at zero p x h lt = absurd (omega arith)
all_below_at (suc n) p x h lt = ground (arith, all_below_at n p x)

-- Two functions that agree at every octet of a table.
pub eq_below :
    (n : ℕ) (f g : ℕ → ℕ) → all_below n (λ x. f x == g x) ≡ true → (x : ℕ) → x < n → f x ≡ g x
eq_below n f g h x lt = (==_iff (f x) (g x)).0 (all_below_at n (λ x. f x == g x) x h lt)

pub eq_below₂ :
    (n m : ℕ) (f g : ℕ → ℕ → ℕ)
    → all_below n (λ x. all_below m (λ y. f x y == g x y)) ≡ true
    → (x y : ℕ) → x < n
    → y < m
    → f x y ≡ g x y
eq_below₂ n m f g h x y lx ly =
    eq_below m (f x) (g x) (all_below_at n (λ x. all_below m (λ y. f x y == g x y)) x h lx) y ly
