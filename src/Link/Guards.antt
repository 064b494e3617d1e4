-- ===== src/Link/Guards.antt =====
-- The guards of lib/cmux/cmux_client.c and lib/cmux/cmux_server.c on the DLCI, on both sides.
use cmux.Base.{
  ℕ, ◌<◌, ◌^◌, ◌≡◌, refl, arith, ltb, ltb→lt, lt→ltb, le→not_ltb, Bool-cases, inl, inr, Bool, true,
  false,
}
use cmux.Base.{Option, none, some, List, [], ◌∷◌, length, read}
use cmux.Frame.{sabm, disc, ControlType, is_ui, BuilderFrameInfo}
use cmux.Buffer.Ingest.{built_frame}
use cmux.Endpoint.{TerminalOptions, Endpoint, Outcome, sent_to_interface, send_request, send_data}
use cmux.Endpoint.State.{IsWellFormed, update_within, update_outside}
use cmux.Endpoint.Sending.{send_frame_beyond, send_frame_at_maximum}
use cmux.Endpoint.Requests.{command, data_frame, command-Sends, data-Sends}
use cmux.Client.{cmux_client_terminal_open, cmux_client_terminal_send, cmux_client_terminal_close}
use cmux.Server.{cmux_server_terminal_send, cmux_server_terminal_close}

-- What the guard `dlci > maximum_dlci` comes to for an operation that sends one frame. Below the maximum
-- the frame is sent, and is the last one of its DLCI from then on; at the maximum an array is accessed
-- behind its end; beyond it nothing is changed and nothing called.
pub data Guarded (endpoint : Endpoint) (info : BuilderFrameInfo) (body : List ℕ) (outcome : Outcome)
    : Type 0 where
  within :
      (next : Endpoint)
      → info.dlci < endpoint.options.maximum_dlci
      → outcome ≡ some (next, sent_to_interface (built_frame info body) ∷ [])
      → read next.terminal_statuses info.dlci ≡ some info
      → Guarded endpoint info body outcome
  at_end :
      info.dlci ≡ endpoint.options.maximum_dlci
      → outcome ≡ none
      → Guarded endpoint info body outcome
  beyond :
      endpoint.options.maximum_dlci < info.dlci
      → outcome ≡ some (endpoint, [])
      → Guarded endpoint info body outcome

three_cases-Guarded :
    (endpoint : Endpoint) (info : BuilderFrameInfo) (body : List ℕ) (outcome : Outcome)
    → (info.dlci < endpoint.options.maximum_dlci
        → (next : Endpoint) × (outcome
            ≡ some (next, sent_to_interface (built_frame info body) ∷ []))
          × (read next.terminal_statuses info.dlci ≡ some info))
    → (info.dlci ≡ endpoint.options.maximum_dlci → outcome ≡ none)
    → (endpoint.options.maximum_dlci < info.dlci → outcome ≡ some (endpoint, []))
    → Guarded endpoint info body outcome
three_cases-Guarded endpoint info body outcome w a b =
    let m = endpoint.options.maximum_dlci in
    elim (Bool-cases (ltb info.dlci m)) [
      | inl below ↦
          let h = ltb→lt info.dlci m below in
          let (next, sends, remembers) = w h in within next h sends remembers
      | inr not_below ↦ elim (Bool-cases (ltb m info.dlci)) [
        | inl above ↦ let h = ltb→lt m info.dlci above in beyond h (b h)
        | inr not_above ↦
            let e : info.dlci ≡ m = ground (arith, not_below, not_above) in at_end e (a e)
      ]
    ]

module _ (malloc : ℕ → List ℕ) (fresh : (n : ℕ) → length (malloc n) ≡ n) (endpoint : Endpoint)
    (w : IsWellFormed endpoint) (dlci : ℕ) where
  command-Guarded :
      (poll_final : Bool) (type : ControlType)
      → is_ui type ≡ false
      → Guarded endpoint
          (command type poll_final dlci)
          []
          (send_request malloc endpoint poll_final dlci type none)
  unfolding send_request
  command-Guarded poll_final type plain =
      three_cases-Guarded endpoint (command type poll_final dlci) [] _
        (λ h.
          let s = command-Sends malloc fresh endpoint w poll_final dlci type h plain in
          (record endpoint { terminal_statuses = s.statuses }, s.sends, s.remembers))
        (send_frame_at_maximum malloc endpoint _ w) (send_frame_beyond malloc endpoint _)

  data-Guarded :
      (cr : Bool) (octets : List ℕ)
      → length octets < 2 ^ 16
      → Guarded endpoint
          (data_frame cr dlci octets)
          octets
          (send_data malloc endpoint cr dlci octets (length octets))
  unfolding send_data
  data-Guarded cr octets small =
      three_cases-Guarded endpoint (data_frame cr dlci octets) octets _
        (λ h.
          let s = data-Sends malloc fresh endpoint w cr dlci octets h small in
          (record endpoint { terminal_statuses = s.statuses }, s.sends, s.remembers))
        (send_frame_at_maximum malloc endpoint _ w) (send_frame_beyond malloc endpoint _)

  open-Guarded :
      (given : Option TerminalOptions)
      → Guarded endpoint
          (command sabm true dlci)
          []
          (cmux_client_terminal_open malloc endpoint dlci given)
  unfolding cmux_client_terminal_open
  open-Guarded given =
      let m = endpoint.options.maximum_dlci in
      three_cases-Guarded endpoint (command sabm true dlci) [] _
        (λ h.
          let (updated, u, _, w') = update_within endpoint dlci given w h in
          let opened = record endpoint { terminal_options = updated } in
          let s = command-Sends malloc fresh opened w' true dlci sabm h refl in
          (
            record opened { terminal_statuses = s.statuses },
            rw (le→not_ltb dlci m (omega (arith, h)), u) s.sends,
            s.remembers,
          ))
        (λ e.
          rw
            (
              le→not_ltb dlci m (omega (arith, e)),
              update_outside endpoint dlci given w (omega (arith, e)),
            )
            refl)
        (λ h. rw (lt→ltb m dlci h) refl)

  -- For every DLCI, to open a terminal of a well-formed client, to close one or to send less than 64 KiB
  -- on it, of a client or of a server: below the maximum, just the frame for that DLCI is sent, and is
  -- the last one of it from then on; at the maximum, an array is accessed behind its end; and beyond it
  -- nothing is sent, called or changed.
  pub operations-Guarded :
      (given : Option TerminalOptions) (octets : List ℕ)
      → length octets < 2 ^ 16
      → Guarded endpoint
          (command sabm true dlci)
          []
          (cmux_client_terminal_open malloc endpoint dlci given)
        × Guarded endpoint
            (command disc true dlci)
            []
            (cmux_client_terminal_close malloc endpoint dlci)
        × Guarded endpoint
            (data_frame true dlci octets)
            octets
            (cmux_client_terminal_send malloc endpoint dlci octets (length octets))
        × Guarded endpoint
            (command disc false dlci)
            []
            (cmux_server_terminal_close malloc endpoint dlci)
        × Guarded endpoint
            (data_frame false dlci octets)
            octets
            (cmux_server_terminal_send malloc endpoint dlci octets (length octets))
  operations-Guarded given octets small = (
    open-Guarded given,
    command-Guarded true disc refl,
    data-Guarded true octets small,
    command-Guarded false disc refl,
    data-Guarded false octets small,
  )
