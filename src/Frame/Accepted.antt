-- ===== src/Frame/Accepted.antt =====
-- What a frame went through that `check_valid_frame` of lib/cmux/cmux_frame_parser.c accepts.
use mathlib.Core.Bool.{false≢true}
use mathlib.Core.Option.{some-injective}
use cmux.Base.{ℕ, ◌+◌, ◌≤◌, ◌≡◌, ap, ◌∙◌, arith, ltb, ◌==◌, ==_iff}
use cmux.Base.{some, List, true, Bool-cases, inl, inr, u16, read}
use cmux.Base.Memory.{>>=-eq-some}
use cmux.Frame.{frame_flag, ControlType, control_type, without_poll_final}
use cmux.Frame.Parser.{read_length, parser_fcs, check_trailer, check_valid_frame}

-- What an accepted frame went through.
pub record Trailer (frame : List ℕ) (type : ControlType) (index n : ℕ) : Type 0 where
  pub calculated : ℕ
  pub computed : parser_fcs type index n frame ≡ some calculated
  pub fcs_read : read frame (u16 (index + n)) ≡ some calculated
  pub footer_read : read frame (u16 (index + n + 1)) ≡ some frame_flag

pub some_eq {ℓ} : {A : Type ℓ} {a b : A} → some a ≡ some b → a ≡ b
some_eq h = some-injective _ _ h

check_trailer-Trailer :
    (frame : List ℕ) (type : ControlType) (index n : ℕ)
    → check_trailer frame type index n ≡ some true
    → Trailer frame type index n
unfolding check_trailer
check_trailer-Trailer frame type index n h =
    let (c, e, h1) = >>=-eq-some (parser_fcs type index n frame) _ h in
    let (v, e', h2) = >>=-eq-some (read frame (u16 (index + n))) _ h1 in
    elim (Bool-cases (v == c)) [
      | inl same ↦
          let (w, e'', h3) = >>=-eq-some (read frame (u16 (index + n + 1))) _ (rw same at h2) in
          record {
            calculated = c;
            computed = e;
            fcs_read = e' ∙ ap some ((==_iff v c).0 same);
            footer_read = e'' ∙ ap some ((==_iff w frame_flag).0 (some_eq h3));
          }
      | inr other ↦ absurd (false≢true (some_eq (rw other at h2)))
    ]

pub record Accepted (frame : List ℕ) (len : ℕ) : Type 0 where
  pub control : ℕ
  pub last : ℕ
  pub n : ℕ
  pub flag_read : read frame 0 ≡ some frame_flag
  pub control_read : read frame 2 ≡ some control
  pub length_read : read_length frame ≡ some (last, n)
  pub fits : last + 1 + n + 2 ≤ len
  pub trailer : Trailer frame (control_type (without_poll_final control)) (last + 1) n

pub check_valid_frame-Accepted :
    (frame : List ℕ) (len : ℕ) → check_valid_frame frame len ≡ some true → Accepted frame len
unfolding check_valid_frame
check_valid_frame-Accepted frame len h = elim (Bool-cases (ltb len 1)) [
  | inl none_given ↦ absurd (false≢true (some_eq (rw none_given at h)))
  | inr given ↦
      let (flag, r, h1) = >>=-eq-some (read frame 0) _ (rw given at h) in
      elim (Bool-cases (flag == frame_flag)) [
        | inr other ↦ absurd (false≢true (some_eq (rw other at h1)))
        | inl same ↦
            let (control, r', h2) = >>=-eq-some (read frame 2) _ (rw same at h1) in
            let ((last, n), r'', h3) = >>=-eq-some (read_length frame) _ h2 in
            elim (Bool-cases (ltb len (last + 1 + n + 2))) [
              | inl cut ↦ absurd (false≢true (some_eq (rw cut at h3)))
              | inr whole ↦ record {
                control = control;
                last = last;
                n = n;
                flag_read = r ∙ ap some ((==_iff flag frame_flag).0 same);
                control_read = r';
                length_read = r'';
                fits = ground arith;
                trailer = check_trailer-Trailer frame _ (last + 1) n (rw whole at h3);
              }
            ]
      ]
]
