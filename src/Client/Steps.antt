-- ===== src/Client/Steps.antt =====
-- lib/cmux/cmux_client.c as a machine: its operations, and the states that they can reach.
use cmux.Base.{ℕ, ◌≡◌, refl, ap, ◌∙◌, ltb, Bool-cases, inl, inr, ◌==◌}
use cmux.Base.{true, Option, none, some, List, read}
use cmux.Base.Memory.{>>=-eq-some}
use mathlib.Core.Option.{some-injective}
use cmux.Frame.{ControlType, sabm, uih, disc}
use cmux.Request.{ServicesRequest}
use cmux.Buffer.{Message}
use cmux.Endpoint.{Options, TerminalOptions, Endpoint, Call, Outcome, update_terminal_options}
use cmux.Endpoint.State.{IsWellFormed, init-IsWellFormed, update-IsWellFormed}
use cmux.Endpoint.Requests.{send_request-IsWellFormed, send_data-IsWellFormed}
use cmux.Client.{cmux_client_init, incoming_request}
use cmux.Client.{cmux_client_on_control_message, cmux_client_request, cmux_client_terminal_open}
use cmux.Client.{cmux_client_start, cmux_client_stop, cmux_client_terminal_send}
use cmux.Client.{cmux_client_terminal_close}

-- The calls of the interface, and a frame that comes in.
pub data Operation : Type 0 where
  start stop : Operation
  request : ℕ → ControlType → Option ServicesRequest → Operation
  terminal_open : ℕ → Option TerminalOptions → Operation
  terminal_send : ℕ → List ℕ → ℕ → Operation
  terminal_close : ℕ → Operation
  control_message : Message → Operation

module _ (malloc : ℕ → List ℕ) where
  abbrev pub run : Endpoint → Operation → Outcome
  run client start = cmux_client_start malloc client
  run client stop = cmux_client_stop malloc client
  run client (request dlci type content) = cmux_client_request malloc client dlci type content
  run client (terminal_open dlci options) = cmux_client_terminal_open malloc client dlci options
  run client (terminal_send dlci octets len) =
      cmux_client_terminal_send malloc client dlci octets len
  run client (terminal_close dlci) = cmux_client_terminal_close malloc client dlci
  run client (control_message message) = cmux_client_on_control_message client message

  pub data Reachable (options : Options) : Endpoint → Type 0 where
    created :
        {client : Endpoint} → cmux_client_init options ≡ some client → Reachable options client
    stepped :
        {client after : Endpoint} {calls : List Call} (operation : Operation)
        → Reachable options client
        → run client operation ≡ some (after, calls)
        → Reachable options after

  unchanged :
      {client after : Endpoint} {calls calls' : List Call}
      → IsWellFormed client
      → ◌≡◌ {A = Outcome} (some (client, calls)) (some (after, calls'))
      → IsWellFormed after × (after.options ≡ client.options)
  unchanged {client = client} {after = after} w e =
      let q : client ≡ after = ap (λ p. p.0) (some-injective _ _ e) in rw (← q) (w, refl)

  terminal_open-IsWellFormed :
      (client : Endpoint) (dlci : ℕ) (given : Option TerminalOptions) (after : Endpoint)
      (calls : List Call)
      → IsWellFormed client
      → cmux_client_terminal_open malloc client dlci given ≡ some (after, calls)
      → IsWellFormed after × (after.options ≡ client.options)
  unfolding cmux_client_terminal_open
  terminal_open-IsWellFormed client dlci given after calls w e =
      elim (Bool-cases (ltb client.options.maximum_dlci dlci)) [
        | inl beyond ↦ unchanged w (rw beyond at e)
        | inr within ↦
            let (updated, u, rest) =
              >>=-eq-some (update_terminal_options client dlci given) _ (rw within at e) in
            let (w', same) = update-IsWellFormed client dlci given updated w u in
            let (w'', same') =
              send_request-IsWellFormed malloc updated true dlci sabm none after calls w' rest in
            (w'', same' ∙ same)
      ]

  control_message-IsWellFormed :
      (client : Endpoint) (message : Message) (after : Endpoint) (calls : List Call)
      → IsWellFormed client
      → cmux_client_on_control_message client message ≡ some (after, calls)
      → IsWellFormed after × (after.options ≡ client.options)
  unfolding cmux_client_on_control_message
  control_message-IsWellFormed client message after calls w e =
      elim (Bool-cases (ltb client.options.maximum_dlci message.info.dlci)) [
        | inl beyond ↦ unchanged w (rw beyond at e)
        | inr within ↦
            let (last, _, rest) =
              >>=-eq-some (read client.terminal_statuses message.info.dlci) _ (rw within at e) in
            elim (Bool-cases (message.info.dlci == 0)) [
              | inl control ↦
                  let (content, _, done) =
                    >>=-eq-some (incoming_request message) _ (rw control at rest) in
                  unchanged w done
              | inr terminal ↦
                  let (options, _, done) =
                    >>=-eq-some (read client.terminal_options message.info.dlci) _
                      (rw terminal at rest) in
                  unchanged w done
            ]
      ]

  run-IsWellFormed :
      (client : Endpoint) (operation : Operation) (after : Endpoint) (calls : List Call)
      → IsWellFormed client
      → run client operation ≡ some (after, calls)
      → IsWellFormed after × (after.options ≡ client.options)
  unfolding cmux_client_start cmux_client_stop
  run-IsWellFormed client start after calls w e =
      terminal_open-IsWellFormed client 0 none after calls w e
  run-IsWellFormed client stop after calls w e =
      send_request-IsWellFormed malloc client true 0 uih _ after calls w e
  run-IsWellFormed client (request dlci type content) after calls w e =
      send_request-IsWellFormed malloc client true dlci type content after calls w e
  run-IsWellFormed client (terminal_open dlci given) after calls w e =
      terminal_open-IsWellFormed client dlci given after calls w e
  run-IsWellFormed client (terminal_send dlci octets len) after calls w e =
      send_data-IsWellFormed malloc client true dlci octets len after calls w e
  run-IsWellFormed client (terminal_close dlci) after calls w e =
      send_request-IsWellFormed malloc client true dlci disc none after calls w e
  run-IsWellFormed client (control_message message) after calls w e =
      control_message-IsWellFormed client message after calls w e

  -- In every state that a client can reach, the options are those that it was made with, and its
  -- two arrays have exactly `maximum_dlci` entries.
  reached_client-IsWellFormed :
      (options : Options) (client : Endpoint)
      → Reachable options client
      → IsWellFormed client × (client.options ≡ options)
  reached_client-IsWellFormed options client (created e) = init-IsWellFormed options client e
  reached_client-IsWellFormed options after
        (stepped {client = client} {calls = calls} operation r e) =
      let (w, same) = reached_client-IsWellFormed options client r in
      let (w', same') = run-IsWellFormed client operation after calls w e in (w', same' ∙ same)
