-- ===== src/Dump/Lines/Round.antt =====
-- One round of the loop of lib/cmux/cmux_frame_dump.c.
use mathlib.Core.List.{append_assoc}
use cmux.Base.{ℕ, suc, ◌+◌, ◌-◌, ◌*◌, ◌≤◌, ◌<◌, ◌≡◌, refl, sym, ap, ◌∙◌, arith}
use cmux.Base.{lt→ltb, le→not_ltb, ==_ne, ==_refl}
use cmux.Base.{some, List, [], ◌∷◌, ◌++◌, length, length-append, IsBytes, slice, copy_in}
use cmux.Base.Memory.{slice_past, slice_prefix, split_at, copy_in_over}
use cmux.Dump.{hex, rounded_up, line_text, dump_loop}
use cmux.Dump.Text.{read_line}
use cmux.Dump.Lines.{line_text-read}

-- Every address of the octets has few enough digits for the array of the text.
abbrev pub HasFewDigits : ℕ → ℕ → ℕ → Type 0
HasFewDigits pointer_size address n =
    (i : ℕ) → i < n → length (hex (pointer_size * 2) (address + i)) ≤ pointer_size + 6

pub few_at_zero :
    (pointer_size address n : ℕ)
    → HasFewDigits pointer_size address n
    → 1 ≤ n
    → length (hex (pointer_size * 2) address) ≤ pointer_size + 6
few_at_zero pointer_size address n short some_left =
    let same : address + 0 ≡ address = omega arith in rw same at (short 0 some_left)

module _ (pointer_size buffer : ℕ) where
  -- One round: the octets of a line, the others of the last word, and those behind.
  pub record Round (before xs extra after : List ℕ) (start : ℕ) (temp_buffer : List ℕ)
      : Type 0 where
    pub ptr_line : List ℕ
    pub sized : length ptr_line ≡ 19
    pub text : List ℕ
    pub source :
        slice (before ++ (xs ++ (extra ++ after))) (length before) (rounded_up (length xs))
        ≡ some (xs ++ extra)
    pub copied : copy_in temp_buffer 0 (xs ++ extra) ≡ some ptr_line
    pub written :
        line_text pointer_size (buffer + length before) (length before - start) (length xs) ptr_line
        ≡ some text
    pub reads : read_line text ≡ xs

  pub line-Round :
      (before xs extra after : List ℕ) (start : ℕ) (temp_buffer : List ℕ)
      → length xs ≤ 16
      → rounded_up (length xs) ≡ length xs + length extra
      → IsBytes xs
      → length temp_buffer ≡ 19
      → length before - start < 65536
      → length (hex (pointer_size * 2) (buffer + length before)) ≤ pointer_size + 6
      → Round before xs extra after start temp_buffer
  line-Round before xs extra after start temp_buffer few whole bytes sized near short =
      let both : length (xs ++ extra) ≡ length xs + length extra = length-append xs extra in
      let (old, kept, split, l, l') =
        split_at (length (xs ++ extra)) (19 - length (xs ++ extra)) temp_buffer
          (omega (arith, few, whole, sized, both)) in
      let (text, written, reads) =
        line_text-read pointer_size (buffer + length before) (length before - start) xs
          (extra ++ kept) few bytes near short in
      record {
        ptr_line = xs ++ (extra ++ kept);
        sized = omega (
          arith,
          length-append xs (extra ++ kept),
          length-append extra kept,
          l',
          both,
          whole,
          few,
        );
        text = text;
        source =
            slice_past before (xs ++ (extra ++ after)) (length before) 0 (rounded_up (length xs))
              (omega arith)
            ∙ ap (λ m. slice m 0 (rounded_up (length xs))) (sym (append_assoc xs extra after))
            ∙ slice_prefix (xs ++ extra) after (rounded_up (length xs))
                (omega (arith, whole, both));
        copied =
            ap (λ m. copy_in m 0 (xs ++ extra)) split
            ∙ copy_in_over old (xs ++ extra) kept l
            ∙ ap some (append_assoc xs extra kept);
        written = written;
        reads = reads;
      }

  pub dump_loop_next :
      (rounds : ℕ) (block : List ℕ) (start offset n : ℕ) (temp_buffer source ptr_line text : List ℕ)
      (lines : List (List ℕ))
      → 16 < n
      → slice block offset 16 ≡ some source
      → copy_in temp_buffer 0 source ≡ some ptr_line
      → line_text pointer_size (buffer + offset) (offset - start) 16 ptr_line ≡ some text
      → dump_loop pointer_size rounds buffer block start (offset + 16) (n - 16) ptr_line
        ≡ some lines
      → dump_loop pointer_size (suc rounds) buffer block start offset n temp_buffer
        ≡ some (text ∷ lines)
  unfolding dump_loop
  dump_loop_next rounds block start offset n temp_buffer source ptr_line text lines big s c w l =
      rw (lt→ltb 16 n big, s, c, w, ==_ne (n - 16) 0 (λ z. omega (arith, z, big)), l) refl

  pub dump_loop_last :
      (rounds : ℕ) (block : List ℕ) (start offset n : ℕ) (temp_buffer source ptr_line text : List ℕ)
      → n ≤ 16
      → slice block offset (rounded_up n) ≡ some source
      → copy_in temp_buffer 0 source ≡ some ptr_line
      → line_text pointer_size (buffer + offset) (offset - start) n ptr_line ≡ some text
      → dump_loop pointer_size (suc rounds) buffer block start offset n temp_buffer
        ≡ some (text ∷ [])
  unfolding dump_loop
  dump_loop_last rounds block start offset n temp_buffer source ptr_line text small s c w =
      rw (le→not_ltb n 16 small, s, c, w, ==_refl (n - n) 0 (omega arith)) refl
