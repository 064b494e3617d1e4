-- ===== src/Base/Memory.antt =====
-- Memory as a list of octets. Undefined behaviour of C, such as an access outside the block that
-- an array or an allocation has, is `none`, and a function that may fault runs in `Option`.
use Prim.Native.Nat.{ℕ, zero, suc, ◌+◌, ◌%◌, ◌≤◌, ◌<◌, bit_and, bit_or}
use mathlib.Core.Path.{◌≡◌, refl, sym, ap, ◌∙◌}
use mathlib.Core.List.{List, [], ◌∷◌, ◌++◌}
use mathlib.Core.Logic.{◌≢◌}
use mathlib.Core.Option.{Option, none, some, some-injective, map-eq-some_iff}
use mathlib.Core.Option
use native.Mathlib.Omega.{arith}
use cmux.Base.Lists.{length, get_elem?, IsBytes}

infixl 5 ◌>>=◌
abbrev pub ◌>>=◌ {ℓ κ} : {A : Type ℓ} {B : Type κ} → Option A → (A → Option B) → Option B
none >>= f = none
some a >>= f = f a

-- What a run that did not fault went through.
pub >>=-eq-some {ℓ κ} :
    {A : Type ℓ} {B : Type κ} (m : Option A) (f : A → Option B) {b : B}
    → (m >>= f) ≡ some b
    → (a : A) × (m ≡ some a) × (f a ≡ some b)
>>=-eq-some none f h = cc
>>=-eq-some (some a) f h = (a, refl, h)

pub >>=-eq-none {ℓ κ} :
    {A : Type ℓ} {B : Type κ} (m : Option A) (f : A → Option B)
    → ((a : A) → f a ≡ none)
    → (m >>= f) ≡ none
>>=-eq-none none f h = refl
>>=-eq-none (some a) f h = h a

-- `frame[i]`
abbrev pub read {ℓ} : {A : Type ℓ} → List A → ℕ → Option A
read m i = get_elem? m i

-- `frame[i] = v`
abbrev pub write {ℓ} : {A : Type ℓ} → List A → ℕ → A → Option (List A)
write [] i v = none
write (x ∷ m) zero v = some (v ∷ m)
write (x ∷ m) (suc i) v = Option.map (λ m'. x ∷ m') (write m i v)

-- The `n` octets from `frame + off` on, as a function that walks them reads them.
abbrev pub slice : List ℕ → ℕ → ℕ → Option (List ℕ)
slice m zero zero = some []
slice [] zero (suc n) = none
slice (x ∷ m) zero (suc n) = Option.map (λ s. x ∷ s) (slice m zero n)
slice [] (suc off) n = none
slice (x ∷ m) (suc off) n = slice m off n

-- `memcpy(frame + off, src, n)`, with the `n` octets of `src` already read.
abbrev pub copy_in : List ℕ → ℕ → List ℕ → Option (List ℕ)
copy_in m zero [] = some m
copy_in [] zero (s ∷ src) = none
copy_in (x ∷ m) zero (s ∷ src) = Option.map (λ m'. s ∷ m') (copy_in m zero src)
copy_in [] (suc off) src = none
copy_in (x ∷ m) (suc off) src = Option.map (λ m'. x ∷ m') (copy_in m off src)

-- The whole of a block, and the start of one that goes on.
pub slice_prefix : (xs ys : List ℕ) (n : ℕ) → n ≡ length xs → slice (xs ++ ys) 0 n ≡ some xs
slice_prefix [] ys zero e = refl
slice_prefix [] ys (suc n) e = absurd (omega arith)
slice_prefix (x ∷ xs) ys zero e = absurd (omega arith)
slice_prefix (x ∷ xs) ys (suc n) e =
    ap (Option.map (λ s. x ∷ s)) (slice_prefix xs ys n (omega arith))

pub slice_whole : (xs : List ℕ) (n : ℕ) → n ≡ length xs → slice xs 0 n ≡ some xs
slice_whole [] zero e = refl
slice_whole [] (suc n) e = absurd (omega arith)
slice_whole (x ∷ xs) zero e = absurd (omega arith)
slice_whole (x ∷ xs) (suc n) e = ap (Option.map (λ s. x ∷ s)) (slice_whole xs n (omega arith))

pub slice_within :
    (m : List ℕ) (off n : ℕ)
    → off + n ≤ length m
    → (s : List ℕ) × (slice m off n ≡ some s) × (length s ≡ n)
slice_within m zero zero h = ([], refl, refl)
slice_within [] zero (suc n) h = absurd (omega arith)
slice_within (x ∷ m) zero (suc n) h =
    let (s, e, l) = slice_within m zero n (omega arith) in
    (x ∷ s, ap (Option.map (λ s. x ∷ s)) e, ap suc l)
slice_within [] (suc off) n h = absurd (omega arith)
slice_within (x ∷ m) (suc off) n h = slice_within m off n (omega arith)

pub read_within {ℓ} :
    {A : Type ℓ} (m : List A) (i : ℕ) → i < length m → (v : A) × (read m i ≡ some v)
read_within [] i h = absurd (omega arith)
read_within (x ∷ m) zero h = (x, refl)
read_within (x ∷ m) (suc i) h = read_within m i (omega arith)

pub read_outside {ℓ} : {A : Type ℓ} (m : List A) (i : ℕ) → length m ≤ i → read m i ≡ none
read_outside [] i h = refl
read_outside (x ∷ m) zero h = absurd (omega arith)
read_outside (x ∷ m) (suc i) h = read_outside m i (omega arith)

map-id : (o : Option (List ℕ)) → Option.map (λ m. [] ++ m) o ≡ o
map-id none = refl
map-id (some m) = refl

-- Access behind a block of known length is access to what follows it.
map-map {ℓ} :
    {A B C : Type ℓ} (f : B → C) (g : A → B) (h : A → C)
    → ((a : A) → f (g a) ≡ h a)
    → (o : Option A) → Option.map f (Option.map g o) ≡ Option.map h o
map-map f g h e none = refl
map-map f g h e (some a) = ap some (e a)

pub read_past : (xs ys : List ℕ) (i j : ℕ) → i ≡ length xs + j → read (xs ++ ys) i ≡ read ys j
read_past [] ys i j e = let e' : i ≡ j = omega arith in ap (read ys) e'
read_past (x ∷ xs) ys zero j e = absurd (omega arith)
read_past (x ∷ xs) ys (suc i) j e = read_past xs ys i j (omega arith)

pub write_past :
    (xs ys : List ℕ) (i j v : ℕ)
    → i ≡ length xs + j
    → write (xs ++ ys) i v ≡ Option.map (λ m. xs ++ m) (write ys j v)
write_past [] ys i j v e =
    let e' : i ≡ j = omega arith in ap (λ k. write ys k v) e' ∙ sym (map-id (write ys j v))
write_past (x ∷ xs) ys zero j v e = absurd (omega arith)
write_past (x ∷ xs) ys (suc i) j v e =
    ap (Option.map (λ m. x ∷ m)) (write_past xs ys i j v (omega arith))
    ∙ map-map (λ m. x ∷ m) (λ m. xs ++ m) (λ m. (x ∷ xs) ++ m) (λ _. refl) (write ys j v)

pub slice_past :
    (xs ys : List ℕ) (i j n : ℕ) → i ≡ length xs + j → slice (xs ++ ys) i n ≡ slice ys j n
slice_past [] ys i j n e = let e' : i ≡ j = omega arith in ap (λ k. slice ys k n) e'
slice_past (x ∷ xs) ys zero j n e = absurd (omega arith)
slice_past (x ∷ xs) ys (suc i) j n e = slice_past xs ys i j n (omega arith)

pub copy_in_past :
    (xs ys src : List ℕ) (i j : ℕ)
    → i ≡ length xs + j
    → copy_in (xs ++ ys) i src ≡ Option.map (λ m. xs ++ m) (copy_in ys j src)
copy_in_past [] ys src i j e =
    let e' : i ≡ j = omega arith in ap (λ k. copy_in ys k src) e' ∙ sym (map-id (copy_in ys j src))
copy_in_past (x ∷ xs) ys src zero j e = absurd (omega arith)
copy_in_past (x ∷ xs) ys src (suc i) j e =
    ap (Option.map (λ m. x ∷ m)) (copy_in_past xs ys src i j (omega arith))
    ∙ map-map (λ m. x ∷ m) (λ m. xs ++ m) (λ m. (x ∷ xs) ++ m) (λ _. refl) (copy_in ys j src)

-- Copying over as many octets as the source has.
pub copy_in_over :
    (old src ys : List ℕ) → length old ≡ length src → copy_in (old ++ ys) 0 src ≡ some (src ++ ys)
copy_in_over [] [] ys e = refl
copy_in_over [] (s ∷ src) ys e = absurd (omega arith)
copy_in_over (x ∷ old) [] ys e = absurd (omega arith)
copy_in_over (x ∷ old) (s ∷ src) ys e =
    ap (Option.map (λ m. s ∷ m)) (copy_in_over old src ys (omega arith))

-- A block taken apart at an index inside it.
pub split_at :
    (n k : ℕ) (m : List ℕ)
    → length m ≡ n + k
    → (front : List ℕ) × (back : List ℕ) × (m ≡ front ++ back)
      × (length front ≡ n)
      × (length back ≡ k)
split_at zero k m e = ([], m, refl, refl, omega arith)
split_at (suc n) k [] e = absurd (omega arith)
split_at (suc n) k (x ∷ m) e =
    let (front, back, p, q, r) = split_at n k m (omega arith) in
    (x ∷ front, back, ap (λ t. x ∷ t) p, ap suc q, r)

-- What is read from octets is an octet.
pub read-IsBytes : (m : List ℕ) (i v : ℕ) → IsBytes m → read m i ≡ some v → v < 256
read-IsBytes [] i v h e = cc
read-IsBytes (x ∷ m) zero v h e = ground (arith, h.0, e)
read-IsBytes (x ∷ m) (suc i) v h e = read-IsBytes m i v h.1 e

-- `octets[i] |= mask` and `octets[i] &= mask`
abbrev pub or_at : ℕ → ℕ → List ℕ → Option (List ℕ)
or_at i mask m = read m i >>= λ v. write m i (bit_or v mask % 256)

abbrev pub and_at : ℕ → ℕ → List ℕ → Option (List ℕ)
and_at i mask m = read m i >>= λ v. write m i (bit_and v mask % 256)

pub write_within {ℓ} :
    {A : Type ℓ} (m : List A) (i : ℕ) (v : A)
    → i < length m
    → (m' : List A) × (write m i v ≡ some m') × (length m' ≡ length m) × (read m' i ≡ some v)
write_within [] i v h = absurd (omega arith)
write_within (x ∷ m) zero v h = (v ∷ m, refl, refl, refl)
write_within (x ∷ m) (suc i) v h =
    let (m', e, l, r) = write_within m i v (omega arith) in
    (x ∷ m', ap (Option.map (λ t. x ∷ t)) e, ap suc l, r)

pub write_outside {ℓ} :
    {A : Type ℓ} (m : List A) (i : ℕ) (v : A) → length m ≤ i → write m i v ≡ none
write_outside [] i v h = refl
write_outside (x ∷ m) zero v h = absurd (omega arith)
write_outside (x ∷ m) (suc i) v h = ap (Option.map (λ t. x ∷ t)) (write_outside m i v (omega arith))

-- A write leaves the other places as they are.
pub read-write_ne {ℓ} :
    {A : Type ℓ} (m m' : List A) (i j : ℕ) (v : A)
    → write m i v ≡ some m'
    → i ≢ j
    → read m' j ≡ read m j
read-write_ne [] m' i j v e ne = cc
read-write_ne (x ∷ m) m' zero zero v e ne = absurd (ne refl)
read-write_ne (x ∷ m) m' zero (suc j) v e ne =
    let e' : v ∷ m ≡ m' = some-injective _ _ e in rw (← e')
read-write_ne (x ∷ m) m' (suc i) zero v e ne =
    let (t, w, q) = (map-eq-some_iff (λ t. x ∷ t) (write m i v)).0 e in rw (← q)
read-write_ne (x ∷ m) m' (suc i) (suc j) v e ne =
    let (t, w, q) = (map-eq-some_iff (λ t. x ∷ t) (write m i v)).0 e in
    rw (← q) (read-write_ne m t i j v w (λ p. ne (ap suc p)))
