-- ===== src/Dump/Shows.antt =====
-- What `log_buffer_hexdump` of lib/cmux/cmux_frame_dump.c shows, and what it has room for.
use cmux.Base.{ℕ, ◌+◌, ◌/◌, ◌≤◌, ◌<◌, ◌≡◌, refl, arith}
use cmux.Base.{==_ne}
use cmux.Base.{some, List, [], ◌∷◌, ◌++◌, length, IsBytes}
use cmux.Dump.{rounded_up}
use cmux.Dump.{log_buffer_hexdump}
use cmux.Dump.Text.{read_lines}
use cmux.Dump.Lines.Round.{HasFewDigits}
use cmux.Dump.Lines.Loop.{Shown, dump_loop-Shown}

module _ (pointer_size buffer : ℕ) where
  -- Octets are dumped that can be read up to the end of the last word of four, from addresses with
  -- at most six digits more than a pointer has octets: all accesses are inside their blocks, there is
  -- a line for each sixteen octets, and the columns of the lines show exactly these octets.
  pub log_buffer_hexdump_shows :
      (before xs behind temp_buffer : List ℕ)
      → length xs < 65536
      → rounded_up (length xs) ≤ length xs + length behind
      → IsBytes xs
      → length temp_buffer ≡ 19
      → HasFewDigits pointer_size (buffer + length before) (length xs)
      → (lines : List (List ℕ)) × (log_buffer_hexdump pointer_size buffer
            (before ++ (xs ++ behind))
            (length before)
            (length xs)
            temp_buffer
          ≡ some lines)
        × (read_lines lines ≡ xs)
        × (length lines ≡ (length xs + 15) / 16)
  unfolding log_buffer_hexdump Shown
  log_buffer_hexdump_shows before [] behind temp_buffer fits readable bytes sized short =
      ([], refl, refl, refl)
  log_buffer_hexdump_shows before (x ∷ xs) behind temp_buffer fits readable bytes sized short =
      rw (==_ne (length (x ∷ xs)) 0 (λ z. omega (arith, z))) (
        dump_loop-Shown pointer_size buffer (length (x ∷ xs)) before (x ∷ xs) behind (length before)
          temp_buffer (omega arith) (omega arith) readable bytes sized (omega arith)
          (omega (arith, fits)) short)
