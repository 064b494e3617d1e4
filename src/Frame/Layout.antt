-- ===== src/Frame/Layout.antt =====
-- What lib/cmux/cmux_frame_builder.c leaves in the block that it is given: the octets of the frame,
-- one after the other, whatever stood there before.
use cmux.Base.{ℕ, zero, suc, ◌+◌, ◌-◌, ◌≡◌, refl, sym, arith, ltb, true, false}
use cmux.Base.{
  if◌then◌else◌, Option, none, some, List, [], ◌∷◌, ◌++◌, length, length-append, Bool-cases, inl,
  inr,
}
use cmux.Base.{◌>>=◌, write}
use cmux.Base.Memory.{slice_prefix, slice_whole, write_past, copy_in_past, copy_in_over, split_at}
use mathlib.Core.List.{append_assoc}
use cmux.Crc.{cmux_crc}
use cmux.Frame.{ControlType, is_ui, frame_flag, BuilderFrameInfo}
use cmux.Frame.Octets.{short_octet, low_octet, high_octet}
use cmux.Frame.Builder.{
  address_octet, control_octet, builder_frame_length, write_length, builder_fcs,
}
use cmux.Frame.Builder.{write_body, cmux_frame_builder}

abbrev pub length_octets : ℕ → List ℕ
length_octets n = if ltb 127 n then low_octet n ∷ high_octet n ∷ [] else short_octet n ∷ []

-- The octets between the opening flag and the body.
abbrev pub header_octets : BuilderFrameInfo → List ℕ
header_octets info = address_octet info ∷ control_octet info ∷ length_octets info.length

-- A frame with the given body and check sequence.
abbrev pub frame_octets : BuilderFrameInfo → List ℕ → ℕ → List ℕ
frame_octets info body fcs = frame_flag ∷ (header_octets info ++ (body ++ (fcs ∷ frame_flag ∷ [])))

-- The body that a caller hands over has the length that it says: NULL goes with length 0.
abbrev pub Bodied : Option (List ℕ) → ℕ → List ℕ → Type 0
Bodied none n body = (n ≡ 0) × (body ≡ [])
Bodied (some octets) n body = (octets ≡ body) × (length body ≡ n)

pub Bodied-length :
    (b : Option (List ℕ)) (n : ℕ) (body : List ℕ) → Bodied b n body → length body ≡ n
Bodied-length none n body h = rw h.1 (sym h.0)
Bodied-length (some octets) n body h = h.1

-- A frame is as long as `cmux_frame_builder_get_frame_length` says.
pub length-frame_octets :
    (info : BuilderFrameInfo) (body : List ℕ) (fcs : ℕ)
    → length body ≡ info.length
    → length (frame_octets info body fcs) ≡ builder_frame_length info.length
unfolding builder_frame_length
length-frame_octets info body fcs e = elim (Bool-cases (ltb 127 info.length)) [
  | inl long ↦ rw long (omega (arith, length-append {0} body (fcs ∷ frame_flag ∷ [])))
  | inr short ↦ rw short (omega (arith, length-append {0} body (fcs ∷ frame_flag ∷ [])))
]

write_body_lem :
    (b : Option (List ℕ)) (n : ℕ) (body front old back : List ℕ) (index : ℕ)
    → Bodied b n body
    → length old ≡ n
    → index ≡ length front
    → write_body b index n (front ++ (old ++ back)) ≡ some (front ++ (body ++ back))
unfolding write_body
write_body_lem none n body front [] back index h o i = rw h.1
write_body_lem none n body front (x ∷ old) back index h o i = absurd (omega arith)
write_body_lem (some octets) zero [] front [] back index h o i = refl
write_body_lem (some octets) zero (x ∷ body) front old back index h o i = absurd (omega arith)
write_body_lem (some octets) zero [] front (x ∷ old) back index h o i = absurd (omega arith)
write_body_lem (some octets) (suc n) body front old back index h o i = ground (
  arith,
  slice_whole body (suc n),
  copy_in_past front (old ++ back) body index 0,
  copy_in_over old body back,
)

-- The two octets behind the body.
write_trailer :
    (front body : List ℕ) (y z fcs : ℕ) (index n : ℕ)
    → index ≡ length front
    → n ≡ length body
    → (write (front ++ (body ++ (y ∷ z ∷ []))) (index + n) fcs >>= λ frame.
        write frame (index + n + 1) frame_flag)
      ≡ some (front ++ (body ++ (fcs ∷ frame_flag ∷ [])))
write_trailer front body y z fcs index n i e = rw (
  write_past front (body ++ (y ∷ z ∷ [])) (index + n) n fcs (omega arith),
  write_past body (y ∷ z ∷ []) n 0 fcs (omega arith),
  write_past front (body ++ (fcs ∷ z ∷ [])) (index + n + 1) (n + 1) frame_flag (omega arith),
  write_past body (fcs ∷ z ∷ []) (n + 1) 1 frame_flag (omega arith),
)

-- The octets that the check sequence covers: those of the header, and of a UI frame also what the
-- block holds at the body's place when the sequence is computed.
abbrev pub checked_octets : ControlType → List ℕ → List ℕ → List ℕ
checked_octets type header place = if is_ui type then header ++ place else header

builder_fcs_lem :
    (type : ControlType) (n index : ℕ) (header place back : List ℕ)
    → length place ≡ n
    → index ≡ suc (length header)
    → builder_fcs type index n (frame_flag ∷ (header ++ (place ++ back)))
      ≡ some (cmux_crc (checked_octets type header place))
unfolding builder_fcs
builder_fcs_lem type n index header place back e i = elim (Bool-cases (is_ui type)) [
  | inl u ↦ rw (
    u,
    ← append_assoc header place back,
    slice_prefix (header ++ place) back (index - 1 + n)
        (omega (arith, length-append {0} header place)),
  )
  | inr p ↦ rw (p, slice_prefix header (place ++ back) (index - 1) (omega arith))
]

-- The steps behind the length, once the header stands in the block.
module _ (info : BuilderFrameInfo) (body : List ℕ)
    (bodied : Bodied info.frame_data_body info.length body) where
  finish :
      (header place : List ℕ) (y z index : ℕ)
      → length place ≡ info.length
      → index ≡ suc (length header)
      → let frame = frame_flag ∷ (header ++ (place ++ (y ∷ z ∷ []))) in
        (builder_fcs info.type index info.length frame >>= λ fcs.
        write_body info.frame_data_body index info.length frame >>= λ frame.
        write frame (index + info.length) fcs >>= λ frame.
        write frame (index + info.length + 1) frame_flag)
        ≡ some (
            frame_flag
            ∷ (header
                ++ (body ++ (cmux_crc (checked_octets info.type header place) ∷ frame_flag ∷ []))))
  finish header place y z index o i =
      rw
        (
          builder_fcs_lem info.type info.length index header place (y ∷ z ∷ []) o i,
          write_body_lem info.frame_data_body info.length body (frame_flag ∷ header) place
              (y ∷ z ∷ []) index bodied o i,
        )
        (write_trailer (frame_flag ∷ header) body y z
          (cmux_crc (checked_octets info.type header place)) index info.length i
          (sym (Bodied-length info.frame_data_body info.length body bodied)))

  builder_short :
      (first place last : List ℕ)
      → ltb 127 info.length ≡ false
      → length first ≡ 4
      → length place ≡ info.length
      → length last ≡ 2
      → cmux_frame_builder info (first ++ (place ++ last))
        ≡ some (
            frame_octets info body (cmux_crc (checked_octets info.type (header_octets info) place)))
  unfolding cmux_frame_builder
  builder_short (x0 ∷ x1 ∷ x2 ∷ x3 ∷ []) place (y ∷ z ∷ []) s f o l =
      rw (s, write_length)
        (finish (address_octet info ∷ control_octet info ∷ short_octet info.length ∷ []) place y z 4
          o refl)
  builder_short _ place _ s f o l = absurd (omega arith)

  builder_long :
      (first place last : List ℕ)
      → ltb 127 info.length ≡ true
      → length first ≡ 5
      → length place ≡ info.length
      → length last ≡ 2
      → cmux_frame_builder info (first ++ (place ++ last))
        ≡ some (
            frame_octets info body (cmux_crc (checked_octets info.type (header_octets info) place)))
  unfolding cmux_frame_builder
  builder_long (x0 ∷ x1 ∷ x2 ∷ x3 ∷ x4 ∷ []) place (y ∷ z ∷ []) s f o l =
      rw (s, write_length)
        (finish
          (address_octet info
            ∷ control_octet info
            ∷ low_octet info.length
            ∷ high_octet info.length
            ∷ [])
          place y z 5 o refl)
  builder_long _ place _ s f o l = absurd (omega arith)

-- Given a block of the length that `cmux_frame_builder_get_frame_length` computes, taken apart
-- where the body goes, the builder stays inside the block and leaves exactly the frame: the flag,
-- the address, control and length octets, the body, the check sequence and the flag. The check
-- sequence is that of the header, and in a UI frame that of the header and of what the block held
-- at the body's place.
pub cmux_frame_builder_layout :
    (info : BuilderFrameInfo) (body first place last : List ℕ)
    → Bodied info.frame_data_body info.length body
    → length first ≡ suc (length (header_octets info))
    → length place ≡ info.length
    → length last ≡ 2
    → (cmux_frame_builder info (first ++ (place ++ last))
        ≡ some (
            frame_octets info body
              (cmux_crc (checked_octets info.type (header_octets info) place))))
      × (length (first ++ (place ++ last)) ≡ builder_frame_length info.length)
unfolding builder_frame_length
cmux_frame_builder_layout info body first place last b f p l =
    elim (Bool-cases (ltb 127 info.length)) [
      | inl long ↦
          let f' : length first ≡ 5 = ground (arith, f) in
          (
            builder_long info body b first place last long f' p l,
            rw long (
                ground
                  (arith, length-append {0} first (place ++ last), length-append {0} place last)),
          )
      | inr short ↦
          let f' : length first ≡ 4 = ground (arith, f) in
          (
            builder_short info body b first place last short f' p l,
            rw short (
                ground
                  (arith, length-append {0} first (place ++ last), length-append {0} place last)),
          )
    ]

-- The frame of any type but UI depends on nothing that the block held.
pub cmux_frame_builder_plain :
    (info : BuilderFrameInfo) (body block : List ℕ)
    → is_ui info.type ≡ false
    → Bodied info.frame_data_body info.length body
    → length block ≡ builder_frame_length info.length
    → cmux_frame_builder info block ≡ some (frame_octets info body (cmux_crc (header_octets info)))
unfolding builder_frame_length
cmux_frame_builder_plain info body block plain b l =
    let (first, rest, e, f, r) =
      split_at (suc (length (header_octets info))) (info.length + 2) block (ground arith) in
    let (place, last, e', p, t) = split_at info.length 2 rest r in
    rw (e, e', (cmux_frame_builder_layout info body first place last b f p t).0, plain)
