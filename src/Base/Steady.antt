-- ===== src/Base/Steady.antt =====
-- Decoders that read single octets: what they decode does not depend on what stands behind it.
use mathlib.Core.Path.{◌≡◌}
use mathlib.Core.Bool.{Bool, true, false}
use mathlib.Core.List.{List, ◌++◌}
use mathlib.Core.Option.{Option, some}
use Prim.Native.Nat.{ℕ}
use cmux.Base.Tests.{if◌then◌else◌}
use cmux.Base.Memory.{◌>>=◌, >>=-eq-some, read}
use cmux.Base.Blocks.{read_append}

abbrev pub IsSteady {κ} : {B : Type κ} → (List ℕ → Option B) → Type κ
IsSteady {B = B} f =
    (octets behind : List ℕ) (r : B) → f octets ≡ some r → f (octets ++ behind) ≡ some r

pub some-IsSteady {κ} : {B : Type κ} (b : B) → IsSteady (λ octets. some b)
some-IsSteady b octets behind r e = e

pub read-IsSteady {κ} :
    {B : Type κ} (i : ℕ) (f : ℕ → List ℕ → Option B)
    → ((v : ℕ) → IsSteady (f v))
    → IsSteady (λ octets. read octets i >>= λ v. f v octets)
read-IsSteady i f steady octets behind r e =
    let (v, here, rest) = >>=-eq-some (read octets i) _ e in
    rw (read_append octets behind i here) (steady v octets behind r rest)

pub if-IsSteady {κ} :
    {B : Type κ} (b : Bool) (f g : List ℕ → Option B)
    → IsSteady f
    → IsSteady g
    → IsSteady (λ octets. if b then f octets else g octets)
if-IsSteady true f g s t = s
if-IsSteady false f g s t = t
