-- ===== src/Endpoint/Sending.antt =====
-- How an endpoint of lib/cmux/cmux_client.c and lib/cmux/cmux_server.c sends a frame.
use cmux.Base.{ℕ, ◌<◌, ◌≡◌, refl, ap, ◌∙◌, arith, ltb, lt→ltb, le→not_ltb, Bool-cases, inl, inr}
use cmux.Base.{false, none, some, List, [], ◌∷◌, length, read, write}
use cmux.Base.Memory.{>>=-eq-some, write_within, write_outside}
use mathlib.Core.Option.{some-injective}
use cmux.Frame.{is_ui, BuilderFrameInfo}
use cmux.Frame.Builder.{builder_frame_length, cmux_frame_builder}
use cmux.Frame.Layout.{Bodied, cmux_frame_builder_plain}
use cmux.Buffer.Ingest.{built_frame}
use cmux.Endpoint.{Endpoint, Call, sent_to_interface, send_frame}
use cmux.Endpoint.State.{IsWellFormed, write-length}

module _ (malloc : ℕ → List ℕ) where
  pub send_frame_beyond :
      (endpoint : Endpoint) (info : BuilderFrameInfo)
      → endpoint.options.maximum_dlci < info.dlci
      → send_frame malloc endpoint info ≡ some (endpoint, [])
  unfolding send_frame
  send_frame_beyond endpoint info h = rw (lt→ltb endpoint.options.maximum_dlci info.dlci h)

  -- At the maximum itself the test lets the frame pass, and the array of the last frames is written
  -- behind its end.
  pub send_frame_at_maximum :
      (endpoint : Endpoint) (info : BuilderFrameInfo)
      → IsWellFormed endpoint
      → info.dlci ≡ endpoint.options.maximum_dlci
      → send_frame malloc endpoint info ≡ none
  unfolding send_frame
  send_frame_at_maximum endpoint info w e = rw (
    le→not_ltb info.dlci endpoint.options.maximum_dlci (omega arith),
    write_outside endpoint.terminal_statuses info.dlci info (omega (arith, w.statuses_sized)),
  )

  module _ (fresh : (n : ℕ) → length (malloc n) ≡ n) where
    -- Below the maximum, a frame of any type but UI is built and handed over, and it is the last
    -- frame of its DLCI from then on.
    pub send_frame_within :
        (endpoint : Endpoint) (info : BuilderFrameInfo) (body : List ℕ)
        → IsWellFormed endpoint
        → info.dlci < endpoint.options.maximum_dlci
        → is_ui info.type ≡ false
        → Bodied info.frame_data_body info.length body
        → (statuses : List BuilderFrameInfo) × (send_frame malloc endpoint info
            ≡ some (
              record endpoint { terminal_statuses = statuses },
              sent_to_interface (built_frame info body) ∷ [],
            ))
          × (read statuses info.dlci ≡ some info)
          × IsWellFormed (record endpoint { terminal_statuses = statuses })
    unfolding send_frame
    send_frame_within endpoint info body w h plain bodied =
        let (statuses, e, l, r) =
          write_within endpoint.terminal_statuses info.dlci info
            (omega (arith, w.statuses_sized)) in
        (
          statuses,
          rw (
            le→not_ltb info.dlci endpoint.options.maximum_dlci (omega arith),
            e,
            cmux_frame_builder_plain info body (malloc (builder_frame_length info.length)) plain
                bodied (fresh _),
          ),
          r,
          record {
            positive = w.positive;
            options_sized = w.options_sized;
            statuses_sized = l ∙ w.statuses_sized;
          },
        )

  pub send_frame-IsWellFormed :
      (endpoint : Endpoint) (info : BuilderFrameInfo) (after : Endpoint) (calls : List Call)
      → IsWellFormed endpoint
      → send_frame malloc endpoint info ≡ some (after, calls)
      → IsWellFormed after × (after.options ≡ endpoint.options)
  unfolding send_frame
  send_frame-IsWellFormed endpoint info after calls w e =
      elim (Bool-cases (ltb endpoint.options.maximum_dlci info.dlci)) [
        | inl beyond ↦
            let q : endpoint ≡ after = ap (λ p. p.0) (some-injective _ _ (rw beyond at e)) in
            rw (← q) (w, refl)
        | inr within ↦
            let (statuses, s, rest) =
              >>=-eq-some (write endpoint.terminal_statuses info.dlci info) _ (rw within at e) in
            let (frame, _, last) =
              >>=-eq-some (cmux_frame_builder info (malloc (builder_frame_length info.length))) _
                rest in
            let q : record endpoint { terminal_statuses = statuses } ≡ after =
              ap (λ p. p.0) (some-injective _ _ last) in
            rw (← q) (
              record {
                positive = w.positive;
                options_sized = w.options_sized;
                statuses_sized =
                    write-length endpoint.terminal_statuses info.dlci info statuses s
                    ∙ w.statuses_sized;
              },
              refl,
            )
      ]
