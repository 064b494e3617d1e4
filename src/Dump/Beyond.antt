-- ===== src/Dump/Beyond.antt =====
-- lib/cmux/cmux_frame_dump.c copies whole words: `(bytes_cur_line + 3) / 4 * 4` octets of each line.
use cmux.Base.{ℕ, zero, suc, ◌+◌, ◌-◌, ◌%◌, ◌≤◌, ◌<◌, ◌≡◌, refl, arith, ltb}
use cmux.Base.{==_ne, Bool-cases, inl, inr, none, List, length, slice}
use cmux.Base.{copy_in}
use cmux.Base.Memory.{>>=-eq-none}
use cmux.Base.Blocks.{slice_outside}
use cmux.Dump.{rounded_up, bytes_per_line, line_text, dump_loop, log_buffer_hexdump}

module _ (pointer_size buffer : ℕ) (block : List ℕ) (start : ℕ) where
  dump_loop_reads_beyond :
      (rounds offset buff_len : ℕ) (temp_buffer : List ℕ)
      → offset + buff_len ≡ length block
      → 1 ≤ buff_len % 4
      → buff_len ≤ rounds
      → dump_loop pointer_size rounds buffer block start offset buff_len temp_buffer ≡ none
  unfolding dump_loop
  dump_loop_reads_beyond zero offset buff_len temp_buffer e odd enough =
      absurd (omega (arith, odd, enough))
  dump_loop_reads_beyond (suc rounds) offset buff_len temp_buffer e odd enough =
      elim (Bool-cases (ltb bytes_per_line buff_len)) [
        | inl longer ↦
            let big : 16 < buff_len = ground (arith, longer) in
            let later = λ (ptr_line : List ℕ).
              dump_loop_reads_beyond rounds (offset + 16) (buff_len - 16) ptr_line
                (omega (arith, e, big)) (omega (arith, odd, big)) (omega (arith, enough, big)) in
            let not_last = ==_ne (buff_len - 16) 0 (λ z. omega (arith, z, big)) in
            rw longer (
              >>=-eq-none (slice block offset 16) _ λ source.
                >>=-eq-none (copy_in temp_buffer 0 source) _ λ ptr_line.
                  >>=-eq-none
                    (line_text pointer_size (buffer + offset) (offset - start) 16 ptr_line) _
                    λ text. rw (not_last, later ptr_line) refl)
        | inr last ↦
            let outside : length block < offset + rounded_up buff_len = omega (arith, e, odd) in
            rw (last, slice_outside block offset (rounded_up buff_len) outside) refl
      ]

  -- The octets to be dumped are the last of their block, and not a multiple of four many: octets
  -- behind the block are read.
  pub log_buffer_hexdump_reads_beyond :
      (buff_len : ℕ) (temp_buffer : List ℕ)
      → start + buff_len ≡ length block
      → 1 ≤ buff_len % 4
      → log_buffer_hexdump pointer_size buffer block start buff_len temp_buffer ≡ none
  unfolding log_buffer_hexdump
  log_buffer_hexdump_reads_beyond buff_len temp_buffer e odd =
      rw (==_ne buff_len 0 (λ z. omega (arith, z, odd)))
        (dump_loop_reads_beyond buff_len start buff_len temp_buffer e odd (omega arith))
