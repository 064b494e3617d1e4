-- ===== src/Base/Gives.antt =====
-- For lib/cmux: what code that may fault gives, where it gives anything, with a rule for each way to
-- put such code together.
use Prim.Native.Nat.{ℕ, zero, suc, ◌<◌}
use mathlib.Core.Path.{◌≡◌, refl}
use mathlib.Core.Bool.{Bool, true, false}
use mathlib.Core.List.{List, [], ◌∷◌}
use mathlib.Core.Option.{Option, none, some, some-injective}
use mathlib.Core.Option
use std.Path.{subst}
use cmux.Base.Tests.{if◌then◌else◌}
use cmux.Base.Lists.{IsBytes}
use cmux.Base.Memory.{◌>>=◌, write, slice, copy_in}

pub record Gives {A : Type 0} (P : A → Type 0) (outcome : Option A) : Type 0 where
  pub given : (a : A) → outcome ≡ some a → P a

pub some-Gives : {A : Type 0} {P : A → Type 0} {a : A} → P a → Gives P (some a)
some-Gives {P = P} {a = a} p = record { given = λ b e. subst P (some-injective a b e) p }

pub none-Gives : {A : Type 0} {P : A → Type 0} → Gives P none
none-Gives = record { given = λ a e. cc }

pub then-Gives :
    {A B : Type 0} {P : A → Type 0} {Q : B → Type 0} {outcome : Option A} {next : A → Option B}
    → Gives P outcome
    → ((a : A) → P a → Gives Q (next a))
    → Gives Q (outcome >>= next)
then-Gives {outcome = none} g h = none-Gives
then-Gives {outcome = some a} g h = h a (g.given a refl)

-- Where nothing needs to be known of the first.
pub any-Gives :
    {A B : Type 0} {Q : B → Type 0} (outcome : Option A) {next : A → Option B}
    → ((a : A) → Gives Q (next a))
    → Gives Q (outcome >>= next)
any-Gives none h = none-Gives
any-Gives (some a) h = h a

pub if-Gives :
    {A : Type 0} {P : A → Type 0} (b : Bool) {o o' : Option A}
    → Gives P o
    → Gives P o'
    → Gives P (if b then o else o')
if-Gives true g g' = g
if-Gives false g g' = g'

pub map-Gives :
    {A B : Type 0} {P : A → Type 0} {Q : B → Type 0} (f : A → B) {o : Option A}
    → ((a : A) → P a → Q (f a))
    → Gives P o
    → Gives Q (Option.map f o)
map-Gives f {o = none} h g = none-Gives
map-Gives f {o = some a} h g = some-Gives (h a (g.given a refl))

pub write-Gives : (m : List ℕ) (i v : ℕ) → IsBytes m → v < 256 → Gives IsBytes (write m i v)
write-Gives [] i v h l = none-Gives
write-Gives (x ∷ m) zero v h l = some-Gives (l, h.1)
write-Gives (x ∷ m) (suc i) v h l =
    map-Gives (λ m'. x ∷ m') (λ m' h'. (h.0, h')) (write-Gives m i v h.1 l)

pub slice-Gives : (m : List ℕ) (from n : ℕ) → IsBytes m → Gives IsBytes (slice m from n)
slice-Gives m zero zero h = some-Gives tt
slice-Gives [] zero (suc n) h = none-Gives
slice-Gives (x ∷ m) zero (suc n) h =
    map-Gives (λ s. x ∷ s) (λ s h'. (h.0, h')) (slice-Gives m zero n h.1)
slice-Gives [] (suc from) n h = none-Gives
slice-Gives (x ∷ m) (suc from) n h = slice-Gives m from n h.1

pub copy_in-Gives :
    (m : List ℕ) (at : ℕ) (src : List ℕ)
    → IsBytes m
    → IsBytes src
    → Gives IsBytes (copy_in m at src)
copy_in-Gives m zero [] h k = some-Gives h
copy_in-Gives [] zero (s ∷ src) h k = none-Gives
copy_in-Gives (x ∷ m) zero (s ∷ src) h k =
    map-Gives (λ m'. s ∷ m') (λ m' h'. (k.0, h')) (copy_in-Gives m zero src h.1 k.1)
copy_in-Gives [] (suc at) src h k = none-Gives
copy_in-Gives (x ∷ m) (suc at) src h k =
    map-Gives (λ m'. x ∷ m') (λ m' h'. (h.0, h')) (copy_in-Gives m at src h.1 k)
