-- ===== src/Dump/Text.antt =====
-- The text of a line of lib/cmux/cmux_frame_dump.c, and a reader that gets the octets back from it.
use cmux.Base.{ℕ, zero, suc, ◌+◌, ◌-◌, ◌*◌, ◌/◌, ◌%◌, ◌≤◌, ◌<◌, ◌≡◌, refl, arith}
use cmux.Base.{false, if◌then◌else◌, ltb, ◌==◌, ==_ne, Bool-cases, inl, inr}
use cmux.Base.{
  List, [], ◌∷◌, ◌++◌, length, length-append, length-replicate, replicate, All, All-append,
}
use cmux.Dump.{hex_digit, hex, padded_hex}

-- The value of a digit, 0 to 9 and A to F.
abbrev pub hex_value : ℕ → ℕ
hex_value c = if ltb c 58 then c - 48 else c - 55

-- The octets that stand in front of the bar, two digits each.
abbrev pub read_columns : List ℕ → List ℕ
read_columns [] = []
read_columns (c ∷ []) = []
read_columns (c ∷ d ∷ text) =
    let skipped = read_columns (d ∷ text) in
    let rest = read_columns text in
    if c == 32 then skipped else if c == 124 then [] else (hex_value c * 16 + hex_value d) ∷ rest

-- Those of a line: they stand behind the bracket.
abbrev pub read_line : List ℕ → List ℕ
read_line [] = []
read_line (c ∷ text) = if c == 41 then read_columns text else read_line text

abbrev pub read_lines : List (List ℕ) → List ℕ
read_lines [] = []
read_lines (line ∷ lines) = read_line line ++ read_lines lines

digit-value : (d : ℕ) → d < 16 → hex_value (hex_digit d) ≡ d
digit-value d h = ground arith

pub octet-value :
    (v : ℕ) → v < 256 → hex_value (hex_digit (v / 16)) * 16 + hex_value (hex_digit (v % 16)) ≡ v
octet-value v h =
    rw (digit-value (v / 16) (omega arith), digit-value (v % 16) (omega arith)) (omega arith)

-- A digit is no blank, no bracket and no bar.
abbrev pub IsDigit : ℕ → Type 0
IsDigit c = (48 ≤ c) × (c ≤ 70)

hex_digit-IsDigit : (d : ℕ) → d < 16 → IsDigit (hex_digit d)
hex_digit-IsDigit d h = (ground arith, ground arith)

pub hex-AllDigits : (digits v : ℕ) → All IsDigit (hex digits v)
hex-AllDigits zero v = tt
hex-AllDigits (suc digits) v = elim (Bool-cases (ltb v 16)) [
  | inl small ↦ rw small (hex_digit-IsDigit (v % 16) (omega arith), tt)
  | inr big ↦ rw big (
      All-append IsDigit (hex digits (v / 16)) (hex_digit (v % 16) ∷ [])
        (hex-AllDigits digits (v / 16)) (hex_digit-IsDigit (v % 16) (omega arith), tt))
]

zeros-AllDigits : (n : ℕ) → All IsDigit (replicate n 48)
zeros-AllDigits zero = tt
zeros-AllDigits (suc n) = ((omega arith, omega arith), zeros-AllDigits n)

pub padded-AllDigits : (digits v : ℕ) → All IsDigit (padded_hex digits v)
padded-AllDigits digits v =
    All-append IsDigit (replicate (8 - length (hex digits v)) 48) (hex digits v)
      (zeros-AllDigits (8 - length (hex digits v))) (hex-AllDigits digits v)

-- How long a number is.
pub length-hex : (digits v : ℕ) → length (hex digits v) ≤ digits
length-hex zero v = omega arith
length-hex (suc digits) v = elim (Bool-cases (ltb v 16)) [
  | inl small ↦ rw small (omega arith)
  | inr big ↦ rw big (
      omega (
        arith,
        length-append (hex digits (v / 16)) (hex_digit (v % 16) ∷ []),
        length-hex digits (v / 16),
      ))
]

hex_shorter :
    (v k : ℕ)
    → ((digits : ℕ) → length (hex digits (v / 16)) ≤ k)
    → (digits : ℕ) → length (hex digits v) ≤ suc k
hex_shorter v k h zero = omega arith
hex_shorter v k h (suc digits) = elim (Bool-cases (ltb v 16)) [
  | inl small ↦ rw small (omega arith)
  | inr big ↦
      rw big
        (omega (arith, length-append (hex digits (v / 16)) (hex_digit (v % 16) ∷ []), h digits))
]

hex_shortest : (v : ℕ) → v < 16 → (digits : ℕ) → length (hex digits v) ≤ 1
hex_shortest v h zero = omega arith
hex_shortest v h (suc digits) = elim (Bool-cases (ltb v 16)) [
  | inl small ↦ rw small (omega arith)
  | inr big ↦ absurd (ground (arith, big, h))
]

-- Four digits are enough for 16 bits, so that such a number is padded to eight digits.
hex_of_16_bits : (v : ℕ) → v < 65536 → (digits : ℕ) → length (hex digits v) ≤ 4
hex_of_16_bits v h = hex_shorter v 3 (
    hex_shorter (v / 16) 2
      (hex_shorter (v / 16 / 16) 1 (hex_shortest (v / 16 / 16 / 16) (omega (arith, h)))))

pub length-padded : (digits v : ℕ) → v < 65536 → length (padded_hex digits v) ≡ 8
length-padded digits v h = omega (
  arith,
  length-append (replicate (8 - length (hex digits v)) 48) (hex digits v),
  length-replicate {A = ℕ} (8 - length (hex digits v)) 48,
  hex_of_16_bits v h digits,
)

-- A line is read behind its bracket.
pub read_line_behind :
    (front text : List ℕ)
    → All (λ c. (c == 41) ≡ false) front
    → read_line (front ++ (41 ∷ text)) ≡ read_columns text
read_line_behind [] text h = refl
read_line_behind (c ∷ front) text h = rw h.0 (read_line_behind front text h.1)

pub digits_no_bracket : (xs : List ℕ) → All IsDigit xs → All (λ c. (c == 41) ≡ false) xs
digits_no_bracket [] h = tt
digits_no_bracket (c ∷ xs) h = (==_ne c 41 (λ e. omega (arith, e, h.0.0)), digits_no_bracket xs h.1)
