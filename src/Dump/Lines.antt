-- ===== src/Dump/Lines.antt =====
-- One line of lib/cmux/cmux_frame_dump.c: its columns and its characters.
pub mod Round
pub mod Loop
use mathlib.Core.List.{append_assoc}
use cmux.Base.{
  ℕ, zero, suc, ◌+◌, ◌-◌, ◌*◌, ◌/◌, ◌%◌, ◌≤◌, ◌<◌, ◌≡◌, refl, sym, ap, ◌∙◌, arith, bit_and,
}
use cmux.Base.{
  Bool, true, false, if◌then◌else◌, ltb, lt→ltb, le→not_ltb, ◌==◌, ==_ne, Bool-cases, inl, inr,
}
use cmux.Base.{
  some, List, [], ◌∷◌, ◌++◌, length, length-append, IsBytes, All, All-append, ◌>>=◌, read,
}
use cmux.Base.Memory.{read_past}
use cmux.Dump.{hex_digit, hex, padded_hex, hex_octet, printed, bytes_per_line, hd_buffer_size}
use cmux.Dump.{columns, characters, line_text}
use cmux.Dump.Text.{read_columns, read_line, hex_value, octet-value, length-hex, length-padded}
use cmux.Dump.Text.{hex-AllDigits, padded-AllDigits, digits_no_bracket, read_line_behind}

-- The columns of a line from index `i` on, of the octets that are left.
abbrev pub group_blank : ℕ → List ℕ
group_blank i = if bit_and i 7 == 0 then 32 ∷ [] else []

abbrev pub column_text : ℕ → ℕ → List ℕ → List ℕ
column_text zero i xs = []
column_text (suc left) i [] = group_blank i ++ (32 ∷ 32 ∷ 32 ∷ column_text left (i + 1) [])
column_text (suc left) i (x ∷ xs) =
    group_blank i ++ (32 ∷ hex_digit (x / 16) ∷ hex_digit (x % 16) ∷ column_text left (i + 1) xs)

read_first : (front xs : List ℕ) (x i : ℕ) → i ≡ length front → read (front ++ (x ∷ xs)) i ≡ some x
read_first front xs x i e = read_past front (x ∷ xs) i 0 (omega (arith, e))

moved : (front xs : List ℕ) (x : ℕ) → front ++ (x ∷ xs) ≡ (front ++ (x ∷ [])) ++ xs
moved front xs x = sym (append_assoc front (x ∷ []) xs)

columns_blank :
    (left i cur : ℕ) (block : List ℕ)
    → cur ≤ i
    → columns left i cur block ≡ some (column_text left i [])
unfolding columns
columns_blank zero i cur block h = refl
columns_blank (suc left) i cur block h =
    rw (le→not_ltb cur i h, columns_blank left (i + 1) cur block (omega (arith, h))) refl

pub columns-column_text :
    (left i cur : ℕ) (front xs behind : List ℕ)
    → i ≡ length front
    → cur ≡ i + length xs
    → columns left i cur (front ++ (xs ++ behind)) ≡ some (column_text left i xs)
unfolding columns
columns-column_text zero i cur front xs behind e e' = refl
columns-column_text (suc left) i cur front [] behind e e' =
    columns_blank (suc left) i cur (front ++ behind) (omega (arith, e'))
columns-column_text (suc left) i cur front (x ∷ xs) behind e e' =
    let longer : length (front ++ (x ∷ [])) ≡ length front + 1 = length-append front (x ∷ []) in
    let rest =
      columns-column_text left (i + 1) cur (front ++ (x ∷ [])) xs behind (omega (arith, e, longer))
        (omega (arith, e')) in
    let rest' = rw (← moved front (xs ++ behind) x) at rest in
    rw (lt→ltb i cur (omega (arith, e')), read_first front (xs ++ behind) x i e, rest') refl

pub characters-printed :
    (i : ℕ) (front xs behind : List ℕ)
    → i ≡ length front
    → (last : List ℕ) × (characters (length xs) i (front ++ (xs ++ behind)) ≡ some last)
      × (length last ≡ length xs)
unfolding characters
characters-printed i front [] behind e = ([], refl, refl)
characters-printed i front (x ∷ xs) behind e =
    let longer : length (front ++ (x ∷ [])) ≡ length front + 1 = length-append front (x ∷ []) in
    let (last, c, l) =
      characters-printed (i + 1) (front ++ (x ∷ [])) xs behind (omega (arith, e, longer)) in
    let c' = rw (← moved front (xs ++ behind) x) at c in
    (printed x ∷ last, rw (read_first front (xs ++ behind) x i e, c') refl, ap suc l)

-- Every line has as many columns.
pub length-column_text :
    (left i : ℕ) (xs : List ℕ) → length (column_text left i xs) ≡ length (column_text left i [])
length-column_text zero i xs = refl
length-column_text (suc left) i [] = refl
length-column_text (suc left) i (x ∷ xs) = omega (
  arith,
  length-append (group_blank i)
      (32 ∷ hex_digit (x / 16) ∷ hex_digit (x % 16) ∷ column_text left (i + 1) xs),
  length-append (group_blank i) (32 ∷ 32 ∷ 32 ∷ column_text left (i + 1) []),
  length-column_text left (i + 1) xs,
)

skip_group :
    (i : ℕ) (text tail : List ℕ)
    → read_columns ((group_blank i ++ (32 ∷ text)) ++ tail) ≡ read_columns (32 ∷ (text ++ tail))
skip_group i text tail = elim (Bool-cases (bit_and i 7 == 0)) [
  | inl first ↦ rw first refl
  | inr later ↦ rw later refl
]

skip_blank : (text : List ℕ) → read_columns (32 ∷ text) ≡ read_columns text
skip_blank [] = refl
skip_blank (c ∷ text) = refl

bar_ends : (text : List ℕ) → read_columns (124 ∷ text) ≡ []
bar_ends [] = refl
bar_ends (c ∷ text) = refl

digits_read :
    (x : ℕ) (text : List ℕ)
    → x < 256
    → read_columns (hex_digit (x / 16) ∷ hex_digit (x % 16) ∷ text) ≡ x ∷ read_columns text
digits_read x text h =
    let high : (hex_digit (x / 16) == 32) ≡ false = ground (arith, h) in
    let bar : (hex_digit (x / 16) == 124) ≡ false = ground (arith, h) in
    rw (high, bar, octet-value x h) refl

-- The reader gets the octets back.
read-column_text :
    (left i : ℕ) (xs text : List ℕ)
    → length xs ≤ left
    → IsBytes xs
    → read_columns (column_text left i xs ++ (32 ∷ 32 ∷ 124 ∷ text)) ≡ xs
read-column_text zero i [] text h bytes = bar_ends text
read-column_text zero i (x ∷ xs) text h bytes = absurd (omega (arith, h))
read-column_text (suc left) i [] text h bytes =
    let tail = column_text left (i + 1) [] ++ (32 ∷ 32 ∷ 124 ∷ text) in
    skip_group i (32 ∷ 32 ∷ column_text left (i + 1) []) (32 ∷ 32 ∷ 124 ∷ text)
    ∙ skip_blank tail
    ∙ read-column_text left (i + 1) [] text (omega arith) tt
read-column_text (suc left) i (x ∷ xs) text h bytes =
    let tail = column_text left (i + 1) xs ++ (32 ∷ 32 ∷ 124 ∷ text) in
    skip_group i (hex_digit (x / 16) ∷ hex_digit (x % 16) ∷ column_text left (i + 1) xs)
      (32 ∷ 32 ∷ 124 ∷ text)
    ∙ digits_read x tail bytes.0
    ∙ ap (λ t. x ∷ t) (read-column_text left (i + 1) xs text (omega (arith, h)) bytes.1)

module _ (pointer_size buffer_ptr offset : ℕ) where
  -- The text of a line fits into its array, and the octets can be read back from it.
  pub line_text-read :
      (xs behind : List ℕ)
      → length xs ≤ 16
      → IsBytes xs
      → offset < 65536
      → length (hex (pointer_size * 2) buffer_ptr) ≤ pointer_size + 6
      → (text : List ℕ) × (line_text pointer_size buffer_ptr offset (length xs) (xs ++ behind)
          ≡ some text)
        × (read_line text ≡ xs)
  unfolding line_text
  line_text-read xs behind few bytes near short =
      let digits = pointer_size * 2 in
      let (last, c, l) = characters-printed 0 [] xs behind refl in
      let middle = column_text 16 0 xs in
      let front = hex digits buffer_ptr in
      let padded = padded_hex digits offset in
      let tail : List ℕ = 32 ∷ 32 ∷ 124 ∷ (last ++ (124 ∷ [])) in
      let text : List ℕ = front ++ (32 ∷ 40 ∷ (padded ++ (41 ∷ (middle ++ tail)))) in
      let size : length text < hd_buffer_size pointer_size = omega (
        arith,
        short,
        few,
        l,
        length-append front (32 ∷ 40 ∷ (padded ++ (41 ∷ (middle ++ tail)))),
        length-append padded (41 ∷ (middle ++ tail)),
        length-padded digits offset near,
        length-append middle tail,
        length-column_text 16 0 xs,
        length-append last (124 ∷ []),
      ) in
      let unbracketed =
        All-append (λ c. (c == 41) ≡ false) front (32 ∷ 40 ∷ padded)
          (digits_no_bracket front (hex-AllDigits digits buffer_ptr))
          (refl, (refl, digits_no_bracket padded (padded-AllDigits digits offset))) in
      let reads : read_line text ≡ xs =
        ap read_line (sym (append_assoc front (32 ∷ 40 ∷ padded) (41 ∷ (middle ++ tail))))
        ∙ read_line_behind (front ++ (32 ∷ 40 ∷ padded)) (middle ++ tail) unbracketed
        ∙ read-column_text 16 0 xs (last ++ (124 ∷ [])) few bytes in
      (
        text,
        rw
            (
              columns-column_text 16 0 (length xs) [] xs behind refl (omega arith),
              c,
              lt→ltb (length text) (hd_buffer_size pointer_size) size,
            )
            refl,
        reads,
      )
