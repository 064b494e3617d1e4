-- ===== src/Base/Blocks.antt =====
-- A block of memory that is the front of a longer one, and one that is filled as a whole.
use Prim.Native.Nat.{ℕ, zero, suc, ◌+◌, ◌<◌}
use native.Mathlib.Omega.{arith}
use mathlib.Core.Option
use mathlib.Core.Path.{◌≡◌, ap, refl}
use mathlib.Core.List.{List, [], ◌∷◌, ◌++◌, append-nil}
use mathlib.Core.Option.{Option, none, some, map-eq-some_iff}
use cmux.Base.Lists.{length}
use cmux.Base.Memory.{read, slice, copy_in, copy_in_over}

-- What is read inside a block is read in any longer block that begins with it.
pub read_append {ℓ} :
    {A : Type ℓ} (xs ys : List A) (i : ℕ) {v : A} → read xs i ≡ some v → read (xs ++ ys) i ≡ some v
read_append [] ys i e = cc
read_append (x ∷ xs) ys zero e = e
read_append (x ∷ xs) ys (suc i) e = read_append xs ys i e

pub slice_append :
    (xs ys : List ℕ) (i n : ℕ) {s : List ℕ} → slice xs i n ≡ some s → slice (xs ++ ys) i n ≡ some s
slice_append [] ys zero zero e = e
slice_append [] ys zero (suc n) e = cc
slice_append [] ys (suc i) n e = cc
slice_append (x ∷ xs) ys zero zero e = e
slice_append (x ∷ xs) ys zero (suc n) {s} e =
    let (t, w, q) = (map-eq-some_iff (λ t. x ∷ t) (slice xs zero n)).0 e in
    rw (slice_append xs ys zero n w) (ap some q)
slice_append (x ∷ xs) ys (suc i) n e = slice_append xs ys i n e

pub copy_in_all : (old src : List ℕ) → length old ≡ length src → copy_in old 0 src ≡ some src
copy_in_all old src e =
    let c : copy_in (old ++ []) 0 src ≡ some (src ++ []) = copy_in_over old src [] e in
    rw (append-nil old, append-nil src) at c

-- Octets that are not all inside the block.
pub slice_outside : (m : List ℕ) (off n : ℕ) → length m < off + n → slice m off n ≡ none
slice_outside m zero zero h = absurd (omega arith)
slice_outside [] zero (suc n) h = refl
slice_outside (x ∷ m) zero (suc n) h =
    ap (Option.map (λ s. x ∷ s)) (slice_outside m zero n (omega arith))
slice_outside [] (suc off) n h = refl
slice_outside (x ∷ m) (suc off) n h = slice_outside m off n (omega arith)
