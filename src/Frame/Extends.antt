-- ===== src/Frame/Extends.antt =====
-- `check_valid_frame` of lib/cmux/cmux_frame_parser.c when more octets stand behind the frame.
use cmux.Base.{ℕ, ◌+◌, ◌≤◌, ◌≡◌, refl, arith, le→not_ltb, ==_refl, Bool-cases, inl, inr}
use cmux.Base.{some, true, List, ◌++◌, u16, read}
use cmux.Base.Memory.{>>=-eq-some}
use cmux.Base.Blocks.{read_append, slice_append}
use cmux.Frame.{is_extended, ControlType, is_ui, control_type, without_poll_final}
use cmux.Frame.{is_extended}
use cmux.Frame.Parser.{read_length, parser_fcs, check_trailer, check_valid_frame}
use cmux.Frame.Accepted.{Accepted, check_valid_frame-Accepted}

read_length_append :
    (frame tail : List ℕ) {p : ℕ × ℕ}
    → read_length frame ≡ some p
    → read_length (frame ++ tail) ≡ some p
unfolding read_length
read_length_append frame tail {p} e =
    let (low, r, e') = >>=-eq-some (read frame 3) _ e in
    elim (Bool-cases (is_extended low)) [
      | inl long ↦
          let (high, r', done) = >>=-eq-some (read frame 4) _ (rw long at e') in
          rw (read_append frame tail 3 r, long, read_append frame tail 4 r') done
      | inr short ↦ rw (read_append frame tail 3 r, short) (rw short at e')
    ]

parser_fcs_append :
    (type : ControlType) (index n : ℕ) (frame tail : List ℕ) {c : ℕ}
    → parser_fcs type index n frame ≡ some c
    → parser_fcs type index n (frame ++ tail) ≡ some c
unfolding parser_fcs
parser_fcs_append type index n frame tail {c} e = elim (Bool-cases (is_ui type)) [
  | inl u ↦
      let (octets, s, done) = >>=-eq-some _ _ (rw u at e) in
      rw (u, slice_append frame tail 1 _ s) done
  | inr p ↦
      let (octets, s, done) = >>=-eq-some _ _ (rw p at e) in
      rw (p, slice_append frame tail 1 _ s) done
]

-- Of a frame that went through, whatever stands behind it and however many octets are given.
Accepted-check_valid_frame :
    (frame tail : List ℕ) (len len' : ℕ)
    → Accepted frame len
    → len ≤ len'
    → check_valid_frame (frame ++ tail) len' ≡ some true
unfolding check_valid_frame check_trailer
Accepted-check_valid_frame frame tail len len' a h =
    let t = a.trailer in
    rw
      (
        le→not_ltb 1 len' (omega (arith, a.fits)),
        read_append frame tail 0 a.flag_read,
        read_append frame tail 2 a.control_read,
        read_length_append frame tail a.length_read,
        le→not_ltb (a.last + 1 + a.n + 2) len' (omega (arith, a.fits)),
        parser_fcs_append (control_type (without_poll_final a.control)) (a.last + 1) a.n frame tail
            t.computed,
        read_append frame tail (u16 (a.last + 1 + a.n)) t.fcs_read,
        ==_refl t.calculated t.calculated refl,
        read_append frame tail (u16 (a.last + 1 + a.n + 1)) t.footer_read,
      )
      refl

-- A frame that `check_valid_frame` accepts is accepted as well when more octets stand behind it and
-- more are given: the search of the ring does not need the end of what came in to be the end of the
-- frame.
pub check_valid_frame_append :
    (frame tail : List ℕ) (len len' : ℕ)
    → check_valid_frame frame len ≡ some true
    → len ≤ len'
    → check_valid_frame (frame ++ tail) len' ≡ some true
check_valid_frame_append frame tail len len' valid h =
    Accepted-check_valid_frame frame tail len len' (check_valid_frame-Accepted frame len valid) h
