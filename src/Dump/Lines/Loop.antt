-- ===== src/Dump/Lines/Loop.antt =====
-- The lines of lib/cmux/cmux_frame_dump.c show the octets.
use mathlib.Core.List.{append_assoc, append-nil}
use cmux.Base.{ℕ, zero, suc, ◌+◌, ◌-◌, ◌/◌, ◌≤◌, ◌<◌, ◌≡◌, refl, sym, ap, ◌∙◌, arith}
use cmux.Base.{ltb, Bool-cases, inl, inr}
use cmux.Base.{some, List, [], ◌∷◌, ◌++◌, length, length-append, All-split, IsBytes, slice}
use cmux.Base.Memory.{split_at}
use cmux.Dump.{rounded_up, dump_loop}
use cmux.Dump.Text.{read_line, read_lines}
use cmux.Dump.Lines.Round.{
  HasFewDigits, few_at_zero, Round, line-Round, dump_loop_next, dump_loop_last,
}

module _ (pointer_size buffer : ℕ) where
  -- The lines show the octets.
  unfoldable pub Shown : ℕ → List ℕ → List ℕ → List ℕ → ℕ → List ℕ → Type 0
  Shown rounds before xs behind start temp_buffer =
      (lines : List (List ℕ)) × (dump_loop pointer_size rounds buffer (before ++ (xs ++ behind))
          start (length before) (length xs) temp_buffer
        ≡ some lines)
      × (read_lines lines ≡ xs)
      × (length lines ≡ (length xs + 15) / 16)

  last-Shown :
      (rounds : ℕ) (before xs behind : List ℕ) (start : ℕ) (temp_buffer : List ℕ)
      → 1 ≤ length xs
      → length xs ≤ 16
      → rounded_up (length xs) ≤ length xs + length behind
      → IsBytes xs
      → length temp_buffer ≡ 19
      → length before - start < 65536
      → HasFewDigits pointer_size (buffer + length before) (length xs)
      → Shown (suc rounds) before xs behind start temp_buffer
  unfolding Shown
  last-Shown rounds before xs behind start temp_buffer some_left few readable bytes sized near
        short =
      let (extra, after, split, l, _) =
        split_at (rounded_up (length xs) - length xs)
          (length behind - (rounded_up (length xs) - length xs)) behind (omega (arith, readable)) in
      let one =
        line-Round pointer_size buffer before xs extra after start temp_buffer few
          (omega (arith, l)) bytes sized near
          (few_at_zero pointer_size (buffer + length before) (length xs) short some_left) in
      let source =
        ap (λ t. slice (before ++ (xs ++ t)) (length before) (rounded_up (length xs))) split
        ∙ one.source in
      (
        one.text ∷ [],
        dump_loop_last pointer_size buffer rounds (before ++ (xs ++ behind)) start (length before)
            (length xs) temp_buffer (xs ++ extra) one.ptr_line one.text few source one.copied
            one.written,
        append-nil (read_line one.text) ∙ one.reads,
        omega (arith, some_left, few),
      )

  next-Shown :
      (rounds : ℕ) (before front back behind : List ℕ) (start : ℕ) (temp_buffer : List ℕ)
      → length front ≡ 16
      → 1 ≤ length back
      → (one : Round pointer_size buffer before front [] (back ++ behind) start temp_buffer)
      → ((ptr_line : List ℕ)
          → length ptr_line ≡ 19
          → Shown rounds (before ++ front) back behind start ptr_line)
      → Shown (suc rounds) before (front ++ back) behind start temp_buffer
  unfolding Shown
  next-Shown rounds before front back behind start temp_buffer l some_left one later =
      let (lines, looped, reads, count) = later one.ptr_line one.sized in
      let size : length (front ++ back) ≡ 16 + length back =
        length-append front back ∙ omega (arith, l) in
      let offset : length (before ++ front) ≡ length before + 16 =
        length-append before front ∙ omega (arith, l) in
      let less : length back ≡ length (front ++ back) - 16 = omega (arith, size) in
      let block =
        append_assoc before front (back ++ behind)
        ∙ ap (λ t. before ++ t) (sym (append_assoc front back behind)) in
      let source = rw (← append_assoc front back behind, l, append-nil front) at one.source in
      let copied = rw (append-nil front) at one.copied in
      let written = rw l at one.written in
      let looped' = rw (block, offset, less) at looped in
      (
        one.text ∷ lines,
        dump_loop_next pointer_size buffer rounds (before ++ ((front ++ back) ++ behind)) start
            (length before) (length (front ++ back)) temp_buffer front one.ptr_line one.text lines
            (omega (arith, size, some_left)) source copied written looped',
        rw (one.reads, reads) refl,
        omega (arith, count, size),
      )

  pub dump_loop-Shown :
      (rounds : ℕ) (before xs behind : List ℕ) (start : ℕ) (temp_buffer : List ℕ)
      → 1 ≤ length xs
      → length xs ≤ rounds
      → rounded_up (length xs) ≤ length xs + length behind
      → IsBytes xs
      → length temp_buffer ≡ 19
      → start ≤ length before
      → (length before - start) + length xs ≤ 65536
      → HasFewDigits pointer_size (buffer + length before) (length xs)
      → Shown rounds before xs behind start temp_buffer
  dump_loop-Shown zero before xs behind start temp_buffer some_left enough readable bytes sized
        inside near short =
      absurd (omega (arith, some_left, enough))
  dump_loop-Shown (suc rounds) before xs behind start temp_buffer some_left enough readable bytes
        sized inside near short =
      elim (Bool-cases (ltb 16 (length xs))) [
        | inl longer ↦
            let big : 16 < length xs = ground (arith, longer) in
            let (front, back, split, l, l') =
              split_at 16 (length xs - 16) xs (omega (arith, big)) in
            let (front_bytes, back_bytes) =
              All-split (λ b. b < 256) front back (rw split at bytes) in
            let offset : length (before ++ front) ≡ length before + 16 =
              length-append before front ∙ omega (arith, l) in
            rw split (
              next-Shown rounds before front back behind start temp_buffer l
                (omega (arith, l', big))
                (line-Round pointer_size buffer before front [] (back ++ behind) start temp_buffer
                  (omega (arith, l)) (omega (arith, l)) front_bytes sized
                  (omega (arith, near, some_left))
                  (few_at_zero pointer_size (buffer + length before) (length xs) short some_left))
                λ ptr_line sized'.
                  dump_loop-Shown rounds (before ++ front) back behind start ptr_line
                    (omega (arith, l', big)) (omega (arith, l', enough))
                    (omega (arith, l', readable, big)) back_bytes sized'
                    (omega (arith, offset, inside)) (omega (arith, offset, near, l', inside))
                    λ i h.
                      let there : buffer + length (before ++ front) + i
                          ≡ buffer + length before + (16 + i) =
                        omega (arith, offset) in
                      rw there (short (16 + i) (omega (arith, h, l', big))))
        | inr last ↦
            last-Shown rounds before xs behind start temp_buffer some_left (ground (arith, last))
              readable bytes sized (omega (arith, near, some_left)) short
      ]
