-- ===== src/Buffer/Ingest.antt =====
-- lib/cmux/cmux_buffer.c: a frame that comes in, with octets in front of it that are no flag.
pub mod Found
pub mod Drain
pub mod Wrapped
use cmux.Base.{
  ℕ, zero, suc, ◌+◌, ◌-◌, ◌≤◌, ◌<◌, ◌≡◌, refl, sym, ap, ◌∙◌, arith, ltb, le→not_ltb, lt→ltb,
  Bool-cases, inl, inr,
}
use cmux.Base.{
  if◌then◌else◌, true, false, Option, none, some, List, [], ◌∷◌, ◌++◌, length, length-append, take,
  drop, All,
}
use cmux.Base.{copy_in, ◌>>=◌, ◌==◌, pos, minus_one}
use cmux.Base.Memory.{copy_in_over}
use mathlib.Core.List.{append-nil}
use mathlib.Core.Option.{some-injective}
use cmux.Crc.{cmux_crc}
use cmux.Frame.{frame_flag, BuilderFrameInfo}
use cmux.Frame.Builder.{cmux_frame_builder, builder_frame_length}
use cmux.Frame.Parser.{parse_frame, check_valid_frame}
use cmux.Frame.Layout.{header_octets, frame_octets, cmux_frame_builder_plain, length-frame_octets}
use cmux.Frame.RoundTrip.{IsPlain, parsed_info, parse_frame-cmux_frame_builder, frame-short_frame}
use cmux.Frame.RoundTrip.{sized_body}
use cmux.Buffer.{Message, process_ingress_frame, octets_from, scan}
use cmux.Buffer.Ring.{RingBuffer, IsRingBuffer}

-- The frame that the builder makes of a plain frame's `info` and `body`.
abbrev pub built_frame : BuilderFrameInfo → List ℕ → List ℕ
built_frame info body = frame_octets info body (cmux_crc (header_octets info))

-- The call of `on_control_message` for it: behind the data stand the last two octets of the frame.
abbrev pub delivered : BuilderFrameInfo → List ℕ → Message
delivered info body = record {
  info = parsed_info info;
  octets =
      if ltb 0 info.length then body ++ (cmux_crc (header_octets info) ∷ frame_flag ∷ []) else [];
  size = info.length;
}

module _ (info : BuilderFrameInfo) (body : List ℕ) (plain : IsPlain info body) where
  pub built_valid :
      (check_valid_frame (built_frame info body) (length (built_frame info body)) ≡ some true)
      × (parse_frame (built_frame info body) (builder_frame_length info.length)
          ≡ some (parsed_info info))
  built_valid =
      let size =
        length-frame_octets info body (cmux_crc (header_octets info))
          (sized_body info body plain) in
      let (frame, e, l, _, v, p, _) =
        parse_frame-cmux_frame_builder info body (built_frame info body) plain size in
      let q : built_frame info body ≡ frame = some-injective _ _ (
        sym (
          cmux_frame_builder_plain info body (built_frame info body) plain.not_ui plain.bodied size)
        ∙ e) in
      (rw (size, q) v, rw q p)

  -- What `process_ingress_frame` makes of it.
  pub process_ingress_frame-built :
      process_ingress_frame (built_frame info body) (builder_frame_length info.length)
      ≡ some (delivered info body)
  unfolding process_ingress_frame
  process_ingress_frame-built = elim (Bool-cases (ltb 0 info.length)) [
    | inl some_data ↦ rw (built_valid.1, some_data, frame-short_frame info body plain)
    | inr no_data ↦ rw (built_valid.1, no_data)
  ]
