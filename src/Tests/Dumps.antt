-- ===== src/Tests/Dumps.antt =====
-- lib/cmux/cmux_frame_dump.c, run.
use cmux.Base.{ℕ, ◌+◌, ◌≡◌, refl, arith, true, none, some, List, [], ◌∷◌, ◌++◌, length, replicate}
use cmux.Frame.{BuilderFrameInfo}
use cmux.Endpoint.Requests.{data_frame}
use cmux.Dump.{log_buffer_hexdump}
use cmux.Dump.Text.{length-hex, read_lines}
use cmux.Dump.Lines.Round.{HasFewDigits}
use cmux.Dump.Beyond.{log_buffer_hexdump_reads_beyond}
use cmux.Dump.Shows.{log_buffer_hexdump_shows}
use cmux.Dump.Overflow.{log_buffer_hexdump_overflows}
use cmux.Tests.Data.{zeroed, hello}

-- Any address has eight digits at most where a pointer has four octets.
few_digits : (address n : ℕ) → HasFewDigits 4 address n
few_digits address n i h = omega (arith, length-hex 8 (address + i))

-- `hello` in a block of eight octets, and in one of five.
log_buffer_hexdump_shows_example :
    (lines : List (List ℕ)) × (log_buffer_hexdump 4 4096
        ([] ++ (hello ++ (0 ∷ 0 ∷ 0 ∷ [])))
        0
        5
        (zeroed 19)
      ≡ some lines)
    × (read_lines lines ≡ hello)
    × (length lines ≡ 1)
log_buffer_hexdump_shows_example =
    log_buffer_hexdump_shows 4 4096 [] hello (0 ∷ 0 ∷ 0 ∷ []) (zeroed 19) (omega arith)
      (omega arith) (omega arith, (omega arith, (omega arith, (omega arith, (omega arith, tt)))))
      refl (few_digits 4096 5)

log_buffer_hexdump_reads_beyond_example : log_buffer_hexdump 4 4096 hello 0 5 (zeroed 19) ≡ none
log_buffer_hexdump_reads_beyond_example =
    log_buffer_hexdump_reads_beyond 4 4096 hello 0 5 (zeroed 19) refl (omega arith)

-- An address of fifteen digits, where a pointer has eight octets.
far_overflows :
    log_buffer_hexdump 8 0x100000000000000 ([] ++ (replicate 16 65 ++ hello)) 0 21 (zeroed 19)
    ≡ none
far_overflows =
    log_buffer_hexdump_overflows 8 0x100000000000000 [] (replicate 16 65) hello (zeroed 19) 21 refl
      (omega arith) refl (omega arith)

abbrev hi : List ℕ
hi = 104 ∷ 105 ∷ []

abbrev hi_frame : BuilderFrameInfo
hi_frame = data_frame true 1 hi
