-- ===== src/Frame/Accepts.antt =====
-- What `check_valid_frame` of lib/cmux/cmux_frame_parser.c accepts: the other two functions of that
-- file, which lib/cmux/cmux_buffer.c calls next, then agree with it.
use cmux.Base.{ℕ, ◌+◌, ◌≤◌, ◌<◌, ◌≡◌, refl, sym, ◌∙◌, arith, ltb, lt→ltb, le→leb}
use cmux.Base.{
  if◌then◌else◌, some, List, [], ◌∷◌, length, true, Bool-cases, inl, inr, u16, ◌>>>◌, read, ◌>>=◌,
  pos, minus_one, IsBytes,
}
use cmux.Base.Memory.{>>=-eq-some, read-IsBytes}
use cmux.Base.Bits.{bit_or_above}
use cmux.Frame.{frame_flag, is_extended, FrameInfo, control_type, without_poll_final}
use cmux.Frame.Short.{parsed_header, parse_frame_steps}
use cmux.Frame.Parser.{
  read_length, parse_header, parse_length, parse_body, parse_footer, parse_frame, check_valid_frame,
  get_frame_length,
}
use cmux.Frame.Accepted.{Trailer, some_eq, Accepted, check_valid_frame-Accepted}

-- The length that both functions read.
read_length-IsBytes :
    (f0 f1 f2 f3 : ℕ) (rest : List ℕ) (last n : ℕ)
    → IsBytes (f0 ∷ f1 ∷ f2 ∷ f3 ∷ rest)
    → read_length (f0 ∷ f1 ∷ f2 ∷ f3 ∷ rest) ≡ some (last, n)
    → (3 ≤ last) × (last ≤ 4) × (n < 65408)
unfolding read_length
read_length-IsBytes f0 f1 f2 f3 rest last n bytes h = elim (Bool-cases (is_extended f3)) [
  | inr short ↦ let e = some_eq (rw short at h) in ground (arith, e)
  | inl long ↦
      let (f4, r, h') = >>=-eq-some (read rest 0) _ (rw long at h) in
      let e = some_eq h' in ground (arith, e, read-IsBytes rest 0 f4, bit_or_above 8 (f3 >>> 1) f4)
]

get_frame_length-read_length :
    (rest : List ℕ)
    → get_frame_length (frame_flag ∷ rest)
      ≡ (read_length (frame_flag ∷ rest) >>= λ p. some (pos (u16 (p.0 + 1 + p.1) + 2)))
unfolding get_frame_length read_length
get_frame_length-read_length [] = refl
get_frame_length-read_length (a ∷ []) = refl
get_frame_length-read_length (a ∷ b ∷ []) = refl
get_frame_length-read_length (a ∷ b ∷ c ∷ []) = elim (Bool-cases (is_extended c)) [
  | inl long ↦ rw long
  | inr short ↦ rw short
]
get_frame_length-read_length (a ∷ b ∷ c ∷ d ∷ rest) = elim (Bool-cases (is_extended c)) [
  | inl long ↦ rw long
  | inr short ↦ rw short
]

-- The parse of an accepted frame, cut to the length that it says it has.
module _ (f1 f2 f3 last n : ℕ) (rest : List ℕ)
    (length_read : read_length (frame_flag ∷ f1 ∷ f2 ∷ f3 ∷ rest) ≡ some (last, n))
    (from : 3 ≤ last) (to : last ≤ 4) (small : n < 65408)
    (trailer : Trailer
      (frame_flag ∷ f1 ∷ f2 ∷ f3 ∷ rest)
      (control_type (without_poll_final f2))
      (last + 1)
      n) where
  abbrev accepted_frame : List ℕ
  accepted_frame = frame_flag ∷ f1 ∷ f2 ∷ f3 ∷ rest

  abbrev accepted_info : FrameInfo
  accepted_info = record (parsed_header frame_flag f1 f2) {
    length = n;
    frame_data_index = if ltb 0 n then pos (last + 1) else minus_one;
    fcs = trailer.calculated;
    calculated_fcs = trailer.calculated;
  }

  parse_header_accepted :
      (len : ℕ)
      → 3 ≤ len
      → parse_header accepted_frame len ≡ some (2, parsed_header frame_flag f1 f2)
  unfolding parse_header
  parse_header_accepted len h = rw (le→leb 3 len h)

  parse_length_accepted :
      (len : ℕ) (info : FrameInfo)
      → 5 ≤ len
      → parse_length accepted_frame len (2, info) ≡ some (last, record info { length = n })
  unfolding parse_length
  parse_length_accepted len info h = rw (le→leb 5 len h, length_read)

  parse_body_accepted :
      (len : ℕ)
      → last + n < len
      → parse_body accepted_frame len (last, record (parsed_header frame_flag f1 f2) { length = n })
        ≡ some (last + 1 + n, accepted_info)
  unfolding parse_body
  parse_body_accepted len h =
      let e : u16 (last + 1) ≡ last + 1 = omega arith in
      let e' : u16 (last + 1 + n) ≡ last + 1 + n = omega arith in
      rw (lt→ltb (last + n) len h, e, trailer.computed, trailer.fcs_read) (rw e')

  parse_footer_accepted :
      (len : ℕ)
      → last + 1 + n + 1 < len
      → parse_footer accepted_frame len (last + 1 + n, accepted_info)
        ≡ some (record accepted_info { footer = frame_flag })
  unfolding parse_footer
  parse_footer_accepted len h = rw (lt→ltb (last + 1 + n + 1) len h, trailer.footer_read)

  parse_frame_accepted :
      parse_frame accepted_frame (last + 1 + n + 2)
      ≡ some (record accepted_info { footer = frame_flag })
  parse_frame_accepted =
      let len = last + 1 + n + 2 in
      parse_frame_steps accepted_frame len (parse_header_accepted len (omega arith))
        (parse_length_accepted len (parsed_header frame_flag f1 f2) (omega arith))
        (parse_body_accepted len (omega arith)) (parse_footer_accepted len (omega arith))

  get_frame_length_accepted : get_frame_length accepted_frame ≡ some (pos (last + 1 + n + 2))
  get_frame_length_accepted =
      let e : u16 (last + 1 + n) ≡ last + 1 + n = omega arith in
      get_frame_length-read_length (f1 ∷ f2 ∷ f3 ∷ rest) ∙ rw (length_read, e)

-- `get_frame_length` finds a length within `len`, and `parse_frame`, given that length, reads
-- nothing outside, finds both flags, and finds the check sequence that it computes.
pub record Agrees (frame : List ℕ) (len : ℕ) : Type 0 where
  pub n : ℕ
  pub info : FrameInfo
  pub length_found : get_frame_length frame ≡ some (pos n)
  pub within : n ≤ len
  pub parsed : parse_frame frame n ≡ some info
  pub header : info.header ≡ frame_flag
  pub footer : info.footer ≡ frame_flag
  pub fcs : info.fcs ≡ info.calculated_fcs

too_short :
    (frame : List ℕ) (last n : ℕ) → length frame < 4 → read_length frame ≡ some (last, n) → ⊥
unfolding read_length
too_short [] last n h e = cc
too_short (a ∷ []) last n h e = cc
too_short (a ∷ b ∷ []) last n h e = cc
too_short (a ∷ b ∷ c ∷ []) last n h e = cc
too_short (a ∷ b ∷ c ∷ d ∷ rest) last n h e = absurd (omega arith)

Accepted-Agrees : (frame : List ℕ) (len : ℕ) → IsBytes frame → Accepted frame len → Agrees frame len
Accepted-Agrees (f0 ∷ f1 ∷ f2 ∷ f3 ∷ rest) len bytes a =
    let (from, to, small) = read_length-IsBytes f0 f1 f2 f3 rest a.last a.n bytes a.length_read in
    let e : f0 ≡ frame_flag = some_eq a.flag_read in
    let e' : a.control ≡ f2 = sym (some_eq a.control_read) in
    let sized : read_length (frame_flag ∷ f1 ∷ f2 ∷ f3 ∷ rest) ≡ some (a.last, a.n) =
      rw e at a.length_read in
    let trailer : Trailer (frame_flag ∷ f1 ∷ f2 ∷ f3 ∷ rest) (control_type (without_poll_final f2))
        (a.last + 1) a.n =
      rw (e, e') at a.trailer in
    rw e (record {
      n = a.last + 1 + a.n + 2;
      info = record (accepted_info f1 f2 f3 a.last a.n rest sized from to small trailer) {
        footer = frame_flag;
      };
      length_found = get_frame_length_accepted f1 f2 f3 a.last a.n rest sized from to small trailer;
      within = a.fits;
      parsed = parse_frame_accepted f1 f2 f3 a.last a.n rest sized from to small trailer;
      header = refl;
      footer = refl;
      fcs = refl;
    })
Accepted-Agrees [] len bytes a = absurd (too_short [] a.last a.n (omega arith) a.length_read)
Accepted-Agrees (f0 ∷ []) len bytes a = absurd (too_short _ a.last a.n (omega arith) a.length_read)
Accepted-Agrees (f0 ∷ f1 ∷ []) len bytes a =
    absurd (too_short _ a.last a.n (omega arith) a.length_read)
Accepted-Agrees (f0 ∷ f1 ∷ f2 ∷ []) len bytes a =
    absurd (too_short _ a.last a.n (omega arith) a.length_read)

-- Of every run of octets that `check_valid_frame` accepts as `len` octets, `get_frame_length`
-- finds a length of at most `len`, and `parse_frame`, given that length, reads nothing outside the
-- run, finds both flags, and finds the check sequence that it computes.
pub check_valid_frame-Agrees :
    (frame : List ℕ) (len : ℕ)
    → IsBytes frame
    → check_valid_frame frame len ≡ some true
    → Agrees frame len
check_valid_frame-Agrees frame len bytes h =
    Accepted-Agrees frame len bytes (check_valid_frame-Accepted frame len h)
