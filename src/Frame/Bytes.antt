-- ===== src/Frame/Bytes.antt =====
-- lib/cmux/cmux_frame_builder.c makes octets of octets.
use cmux.Base.{
  ℕ, ◌<◌, arith, ltb, Option, none, some, List, IsBytes, zero, suc, ◌≡◌, false, replicate,
  length-replicate,
}
use cmux.Base.Gives.{
  Gives, some-Gives, then-Gives, any-Gives, if-Gives, write-Gives, slice-Gives, copy_in-Gives,
}
use cmux.Crc.{cmux_crc}
use cmux.Frame.{ControlType, is_ui, BuilderFrameInfo}
use cmux.Frame.Layout.{Bodied, header_octets, frame_octets, cmux_frame_builder_plain}
use cmux.Frame.Builder.{
  builder_frame_length, write_length, builder_fcs, write_body, cmux_frame_builder,
}

-- A pointer to octets, or NULL.
abbrev pub AreBytes : Option (List ℕ) → Type 0
AreBytes none = Unit
AreBytes (some octets) = IsBytes octets

cmux_crc_octet : (message : List ℕ) → cmux_crc message < 256
unfolding cmux_crc
cmux_crc_octet message = omega arith

write_length-Gives :
    (n : ℕ) (frame : List ℕ) → IsBytes frame → Gives (λ p. IsBytes p.1) (write_length n frame)
unfolding write_length
write_length-Gives n frame h =
    if-Gives (ltb 127 n)
      (then-Gives (write-Gives frame 3 _ h (omega arith))
        λ low h1. then-Gives (write-Gives low 4 _ h1 (omega arith)) λ high h2. some-Gives h2)
      (then-Gives (write-Gives frame 3 _ h (omega arith)) λ low h1. some-Gives h1)

builder_fcs-Gives :
    (type : ControlType) (index n : ℕ) (frame : List ℕ)
    → Gives (λ fcs. fcs < 256) (builder_fcs type index n frame)
unfolding builder_fcs
builder_fcs-Gives type index n frame = any-Gives _ λ octets. some-Gives (cmux_crc_octet octets)

write_body-Gives :
    (body : Option (List ℕ)) (index n : ℕ) (frame : List ℕ)
    → AreBytes body
    → IsBytes frame
    → Gives IsBytes (write_body body index n frame)
unfolding write_body
write_body-Gives none index n frame b h = some-Gives h
write_body-Gives (some body) index n frame b h =
    if-Gives (ltb 0 n)
      (then-Gives (slice-Gives body 0 n b) λ octets o. copy_in-Gives frame index octets h o)
      (some-Gives h)

pub cmux_frame_builder-Gives :
    (info : BuilderFrameInfo) (frame : List ℕ)
    → AreBytes info.frame_data_body
    → IsBytes frame
    → Gives IsBytes (cmux_frame_builder info frame)
unfolding cmux_frame_builder
cmux_frame_builder-Gives info frame b h =
    then-Gives (write-Gives frame 0 _ h (omega arith)) λ frame0 h0.
      then-Gives (write-Gives frame0 1 _ h0 (omega arith)) λ frame1 h1.
        then-Gives (write-Gives frame1 2 _ h1 (omega arith)) λ frame2 h2.
          then-Gives (write_length-Gives info.length frame2 h2) λ sized h3.
            then-Gives (builder_fcs-Gives info.type sized.0 info.length sized.1) λ fcs f.
              then-Gives (write_body-Gives info.frame_data_body sized.0 info.length sized.1 b h3)
                λ frame4 h4.
                  then-Gives (write-Gives frame4 _ fcs h4 f)
                    λ frame5 h5. write-Gives frame5 _ _ h5 (omega arith)

zeros-IsBytes : (n : ℕ) → IsBytes (replicate n 0)
zeros-IsBytes zero = tt
zeros-IsBytes (suc n) = (omega arith, zeros-IsBytes n)

Bodied-AreBytes :
    (given : Option (List ℕ)) (n : ℕ) (body : List ℕ)
    → Bodied given n body
    → IsBytes body
    → AreBytes given
Bodied-AreBytes none n body b h = tt
Bodied-AreBytes (some octets) n body b h = rw b.0 h

-- The frame that the builder makes, of any type but UI, of a body that is octets is octets.
pub frame_octets-IsBytes :
    (info : BuilderFrameInfo) (body : List ℕ)
    → is_ui info.type ≡ false
    → Bodied info.frame_data_body info.length body
    → IsBytes body
    → IsBytes (frame_octets info body (cmux_crc (header_octets info)))
frame_octets-IsBytes info body plain b h =
    let n = builder_frame_length info.length in
    (cmux_frame_builder-Gives info (replicate n 0)
        (Bodied-AreBytes info.frame_data_body info.length body b h) (zeros-IsBytes n)).given
      _ (cmux_frame_builder_plain info body (replicate n 0) plain b (length-replicate n 0))
