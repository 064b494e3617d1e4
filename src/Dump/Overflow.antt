-- ===== src/Dump/Overflow.antt =====
-- The room that `log_buffer_hexdump` of lib/cmux/cmux_frame_dump.c has for the text of a line.
use cmux.Base.{ℕ, zero, suc, ◌+◌, ◌-◌, ◌*◌, ◌≤◌, ◌≡◌, refl, ◌∙◌, ap, arith}
use cmux.Base.{ltb, le→not_ltb, ==_ne, Bool-cases, inl, inr}
use cmux.Base.{
  none, some, List, [], ◌∷◌, ◌++◌, length, length-append, length-replicate, replicate, slice,
  copy_in,
}
use cmux.Base.Memory.{slice_past, slice_prefix, split_at, copy_in_over}
use cmux.Dump.{hex, padded_hex, hd_buffer_size, line_text, dump_loop, log_buffer_hexdump}
use cmux.Dump.Lines.{columns-column_text, characters-printed, column_text, length-column_text}

module _ (pointer_size buffer : ℕ) where
  line_text_overflows :
      (buffer_ptr offset : ℕ) (xs behind : List ℕ)
      → length xs ≡ 16
      → pointer_size + 7 ≤ length (hex (pointer_size * 2) buffer_ptr)
      → line_text pointer_size buffer_ptr offset 16 (xs ++ behind) ≡ none
  unfolding line_text
  line_text_overflows buffer_ptr offset xs behind l long =
      let digits = pointer_size * 2 in
      let (last, c, l') = characters-printed 0 [] xs behind refl in
      let c' = rw l at c in
      let middle = column_text 16 0 xs in
      let front = hex digits buffer_ptr in
      let padded = padded_hex digits offset in
      let tail : List ℕ = 32 ∷ 32 ∷ 124 ∷ (last ++ (124 ∷ [])) in
      let text : List ℕ = front ++ (32 ∷ 40 ∷ (padded ++ (41 ∷ (middle ++ tail)))) in
      let eight : 8 ≤ length padded = omega (
        arith,
        length-append (replicate (8 - length (hex digits offset)) 48) (hex digits offset),
        length-replicate {A = ℕ} (8 - length (hex digits offset)) 48,
      ) in
      let size : hd_buffer_size pointer_size ≤ length text = omega (
        arith,
        long,
        l,
        l',
        eight,
        length-append front (32 ∷ 40 ∷ (padded ++ (41 ∷ (middle ++ tail)))),
        length-append padded (41 ∷ (middle ++ tail)),
        length-append middle tail,
        length-column_text 16 0 xs,
        length-append last (124 ∷ []),
      ) in
      rw
        (
          columns-column_text 16 0 16 [] xs behind refl (omega (arith, l)),
          c',
          le→not_ltb (hd_buffer_size pointer_size) (length text) size,
        )
        refl

  first_line_overflows :
      (rounds : ℕ) (block : List ℕ) (start offset n : ℕ) (temp_buffer source ptr_line : List ℕ)
      → 16 ≤ n
      → slice block offset 16 ≡ some source
      → copy_in temp_buffer 0 source ≡ some ptr_line
      → line_text pointer_size (buffer + offset) (offset - start) 16 ptr_line ≡ none
      → dump_loop pointer_size (suc rounds) buffer block start offset n temp_buffer ≡ none
  unfolding dump_loop
  first_line_overflows rounds block start offset n temp_buffer source ptr_line full s c w =
      elim (Bool-cases (ltb 16 n)) [
        | inl longer ↦ rw (longer, s, c, w) refl
        | inr exact ↦ let same : n ≡ 16 = ground (arith, exact, full) in rw (same, s, c, w) refl
      ]

  -- The first line of sixteen octets, from an address with at least seven digits more than a pointer
  -- has octets, is longer than `hd_buffer`: its text is written beyond the end.
  pub log_buffer_hexdump_overflows :
      (before front back temp_buffer : List ℕ) (buff_len : ℕ)
      → length front ≡ 16
      → 16 ≤ buff_len
      → length temp_buffer ≡ 19
      → pointer_size + 7 ≤ length (hex (pointer_size * 2) (buffer + length before))
      → log_buffer_hexdump pointer_size buffer
          (before ++ (front ++ back))
          (length before)
          buff_len
          temp_buffer
        ≡ none
  unfolding log_buffer_hexdump
  log_buffer_hexdump_overflows before front back temp_buffer zero l some_left sized long =
      absurd (omega (arith, some_left))
  log_buffer_hexdump_overflows before front back temp_buffer (suc n) l some_left sized long =
      let (old, kept, split, l', _) = split_at 16 3 temp_buffer sized in
      rw (==_ne (suc n) 0 (λ z. omega (arith, z))) (
        first_line_overflows n (before ++ (front ++ back)) (length before) (length before) (suc n)
          temp_buffer front (front ++ kept) some_left
          (slice_past before (front ++ back) (length before) 0 16 (omega arith)
            ∙ slice_prefix front back 16 (omega (arith, l)))
          (ap (λ m. copy_in m 0 front) split ∙ copy_in_over old front kept (omega (arith, l, l')))
          (line_text_overflows (buffer + length before) (length before - length before) front kept l
            long))
