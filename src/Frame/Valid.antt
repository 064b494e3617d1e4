-- ===== src/Frame/Valid.antt =====
-- What `check_valid_frame` of lib/cmux/cmux_frame_parser.c accepts: the other two functions of that
-- file, which lib/cmux/cmux_buffer.c calls next, then agree with it.
use cmux.Base.{ℕ, ◌+◌, ◌-◌, ◌≤◌, ◌≡◌, arith, ltb, le→not_ltb, ◌==◌}
use cmux.Base.{some, List, ◌∷◌, length, Bool, false, Bool-cases, inl, inr, u16, ◌>>>◌}
use cmux.Base.Memory.{read_within, slice_within}
use cmux.Crc.{cmux_crc}
use cmux.Frame.{
  frame_flag, is_extended, extended_length, ControlType, is_ui, control_type, without_poll_final,
}
use cmux.Frame.Parser.{read_length, parser_fcs, check_trailer, check_valid_frame}

read_length_total :
    (f0 f1 f2 f3 f4 : ℕ) (rest : List ℕ)
    → (p : ℕ × ℕ) × (read_length (f0 ∷ f1 ∷ f2 ∷ f3 ∷ f4 ∷ rest) ≡ some p) × (3 ≤ p.0) × (p.0 ≤ 4)
unfolding read_length
read_length_total f0 f1 f2 f3 f4 rest = elim (Bool-cases (is_extended f3)) [
  | inl long ↦ ((4, extended_length f3 f4), rw long, omega arith, omega arith)
  | inr short ↦ ((3, f3 >>> 1), rw short, omega arith, omega arith)
]

parser_fcs_total :
    (type : ControlType) (index n : ℕ) (frame : List ℕ)
    → 1 ≤ index
    → index + n ≤ length frame
    → (c : ℕ) × (parser_fcs type index n frame ≡ some c)
unfolding parser_fcs
parser_fcs_total type index n frame from fits = elim (Bool-cases (is_ui type)) [
  | inl u ↦
      let (s, e, _) = slice_within frame 1 (index - 1 + n) (omega arith) in (cmux_crc s, rw (u, e))
  | inr p ↦
      let (s, e, _) = slice_within frame 1 (index - 1) (omega arith) in (cmux_crc s, rw (p, e))
]

check_trailer_total :
    (type : ControlType) (index n : ℕ) (frame : List ℕ)
    → 1 ≤ index
    → index + n + 2 ≤ length frame
    → (b : Bool) × (check_trailer frame type index n ≡ some b)
unfolding check_trailer
check_trailer_total type index n frame from fits =
    let (c, e) = parser_fcs_total type index n frame from (omega arith) in
    let (v, e') = read_within frame (u16 (index + n)) (omega arith) in
    let (w, e'') = read_within frame (u16 (index + n + 1)) (omega arith) in
    elim (Bool-cases (v == c)) [
      | inl same ↦ (w == frame_flag, rw (e, e', same, e''))
      | inr other ↦ (false, rw (e, e', other))
    ]

-- Given at least five octets, and no more than the block has, `check_valid_frame` reads inside the
-- block, whatever stands there.
pub check_valid_frame_total :
    (frame : List ℕ) (len : ℕ)
    → 5 ≤ len
    → len ≤ length frame
    → (b : Bool) × (check_valid_frame frame len ≡ some b)
unfolding check_valid_frame
check_valid_frame_total (f0 ∷ f1 ∷ f2 ∷ f3 ∷ f4 ∷ rest) len five fits =
    let frame : List ℕ = f0 ∷ f1 ∷ f2 ∷ f3 ∷ f4 ∷ rest in
    let (p, e, lo, hi) = read_length_total f0 f1 f2 f3 f4 rest in
    elim (Bool-cases (f0 == frame_flag)) [
      | inl flag ↦ elim (Bool-cases (ltb len (p.0 + 1 + p.1 + 2))) [
        | inl cut ↦ (false, rw (le→not_ltb 1 len (omega arith), flag, e, cut))
        | inr whole ↦
            let (b, t) =
              check_trailer_total (control_type (without_poll_final f2)) (p.0 + 1) p.1 frame
                (omega arith) (ground arith) in
            (b, rw (le→not_ltb 1 len (omega arith), flag, e, whole, t))
      ]
      | inr other ↦ (false, rw (le→not_ltb 1 len (omega arith), other))
    ]
check_valid_frame_total _ len five fits = absurd (omega arith)
