-- ===== src/Server/Steps.antt =====
-- lib/cmux/cmux_server.c as a machine: its operations, and the states that they can reach.
use cmux.Base.{ℕ, ◌≡◌, refl, ap, ◌∙◌, ltb, ◌==◌, ◌&&◌, Bool-cases, inl, inr}
use cmux.Base.{Bool, true, false, Option, none, some, List, [], read, ◌>>=◌, if◌then◌else◌}
use cmux.Base.Memory.{>>=-eq-some}
use mathlib.Core.Option.{some-injective}
use cmux.Frame.{ControlType, sabm, ua, uih, disc, BuilderFrameInfo}
use cmux.Request.{ServicesRequest, cmux_service_request_decode}
use cmux.Buffer.{Message}
use cmux.Endpoint.{Options, TerminalOptions, Endpoint, Call, Outcome, no_port, has_type}
use cmux.Endpoint.{update_terminal_options, send_request}
use cmux.Endpoint.State.{IsWellFormed, init-IsWellFormed, update-IsWellFormed}
use cmux.Endpoint.Requests.{send_request-IsWellFormed, send_data-IsWellFormed}
use cmux.Server.{cmux_server_init, cmux_server_register_terminal, is_close_down}
use cmux.Endpoint.{after}
use cmux.Server.{cmux_server_reply, cmux_server_request, cmux_server_stop}
use cmux.Server.{cmux_server_on_incoming_request, cmux_server_on_control_message}
use cmux.Server.{cmux_server_terminal_send, cmux_server_terminal_close}

-- The calls of the interface, and a frame that comes in.
pub data Operation : Type 0 where
  stop : Operation
  register_terminal : ℕ → Option TerminalOptions → Operation
  reply request : ℕ → ControlType → Option ServicesRequest → Operation
  terminal_send : ℕ → List ℕ → ℕ → Operation
  terminal_close : ℕ → Operation
  control_message : Message → Operation

-- An outcome that, where there is one, is a state of the same options with arrays that fit.
abbrev Keeps : Endpoint → Outcome → Type 0
Keeps server outcome =
    (next : Endpoint) (calls : List Call)
    → outcome ≡ some (next, calls)
    → IsWellFormed next × (next.options ≡ server.options)

unchanged-Keeps :
    (server : Endpoint) (calls : List Call)
    → IsWellFormed server
    → Keeps server (some (server, calls))
unchanged-Keeps server calls w next calls' e =
    let q : server ≡ next = ap (λ p. p.0) (some-injective _ _ e) in rw (← q) (w, refl)

after-Keeps :
    (server : Endpoint) (calls : List Call) (outcome : Outcome)
    → Keeps server outcome
    → Keeps server (after calls outcome)
after-Keeps server calls none k next calls' e = cc
after-Keeps server calls (some (next, more)) k next' calls' e =
    let q : next ≡ next' = ap (λ p. p.0) (some-injective _ _ e) in rw (← q) (k next more refl)

if-Keeps :
    (server : Endpoint) (b : Bool) (o o' : Outcome)
    → Keeps server o
    → Keeps server o'
    → Keeps server (if b then o else o')
if-Keeps server true o o' k k' = k
if-Keeps server false o o' k k' = k'

bind-Keeps :
    (server : Endpoint) {A : Type 0} (m : Option A) (f : A → Outcome)
    → ((a : A) → Keeps server (f a))
    → Keeps server (m >>= f)
bind-Keeps server none f k next calls e = cc
bind-Keeps server (some a) f k next calls e = k a next calls e

module _ (malloc : ℕ → List ℕ) where
  abbrev pub run : Endpoint → Operation → Outcome
  run server stop = cmux_server_stop malloc server
  run server (register_terminal dlci given) = do
    updated ← cmux_server_register_terminal server dlci given
    some (updated, [])
  run server (reply dlci type content) = cmux_server_reply malloc server dlci type content
  run server (request dlci type content) = cmux_server_request malloc server dlci type content
  run server (terminal_send dlci octets len) =
      cmux_server_terminal_send malloc server dlci octets len
  run server (terminal_close dlci) = cmux_server_terminal_close malloc server dlci
  run server (control_message message) = cmux_server_on_control_message malloc server message

  pub data Reachable (options : Options) : Endpoint → Type 0 where
    created :
        {server : Endpoint} → cmux_server_init options ≡ some server → Reachable options server
    stepped :
        {server next : Endpoint} {calls : List Call} (operation : Operation)
        → Reachable options server
        → run server operation ≡ some (next, calls)
        → Reachable options next

  request-Keeps :
      (server : Endpoint) (poll_final : Bool) (dlci : ℕ) (type : ControlType)
      (content : Option ServicesRequest)
      → IsWellFormed server
      → Keeps server (send_request malloc server poll_final dlci type content)
  request-Keeps server poll_final dlci type content w next calls e =
      send_request-IsWellFormed malloc server poll_final dlci type content next calls w e

  incoming-Keeps :
      (server : Endpoint) (message : Message) (content : Option ServicesRequest)
      (last : BuilderFrameInfo)
      → IsWellFormed server
      → Keeps server (cmux_server_on_incoming_request malloc server message content last)
  unfolding cmux_server_on_incoming_request
  incoming-Keeps server message content last w =
      let dlci = message.info.dlci in
      let still = λ (calls : List Call). unchanged-Keeps server calls w in
      let acknowledged = request-Keeps server true dlci ua none w in
      bind-Keeps server (read server.terminal_options dlci) _ λ terminal. after-Keeps server _ _ (
        if-Keeps server (has_type message.info.type sabm) _ _ (after-Keeps server _ _ acknowledged)
          (if-Keeps server (has_type message.info.type disc) _ _
            (if-Keeps server (dlci == 0) _ _ (still []) (after-Keeps server _ _ acknowledged))
            (if-Keeps server (has_type message.info.type uih) _ _
              (if-Keeps server (is_close_down content) _ _
                (if-Keeps server (dlci == 0) _ _
                  (after-Keeps server _ _ (request-Keeps server true dlci uih _ w)) (still []))
                (still _))
              (still []))))

  control_message-Keeps :
      (server : Endpoint) (message : Message)
      → IsWellFormed server
      → Keeps server (cmux_server_on_control_message malloc server message)
  unfolding cmux_server_on_control_message
  control_message-Keeps server message w =
      if-Keeps server (ltb server.options.maximum_dlci message.info.dlci) _ _
        (unchanged-Keeps server [] w)
        (bind-Keeps server (read server.terminal_statuses message.info.dlci) _ λ last.
          if-Keeps server (ltb 0 message.info.length && message.info.dlci == 0) _ _
            (bind-Keeps server
              (cmux_service_request_decode no_port (some message.octets) message.size) _
              λ content. incoming-Keeps server message (some content) last w)
            (incoming-Keeps server message none last w))

  register-Keeps :
      (server : Endpoint) (dlci : ℕ) (given : Option TerminalOptions)
      → IsWellFormed server
      → Keeps server (run server (register_terminal dlci given))
  unfolding cmux_server_register_terminal
  register-Keeps server dlci given w next calls e =
      elim (Bool-cases (ltb server.options.maximum_dlci dlci)) [
        | inl beyond ↦ unchanged-Keeps server [] w next calls (rw beyond at e)
        | inr within ↦
            let (updated, u, done) =
              >>=-eq-some (update_terminal_options server dlci given) _ (rw within at e) in
            let q : updated ≡ next = ap (λ p. p.0) (some-injective _ _ done) in
            rw (← q) (update-IsWellFormed server dlci given updated w u)
      ]

  run-IsWellFormed :
      (server : Endpoint) (operation : Operation)
      → IsWellFormed server
      → Keeps server (run server operation)
  unfolding cmux_server_stop
  run-IsWellFormed server stop w = request-Keeps server false 0 uih _ w
  run-IsWellFormed server (register_terminal dlci given) w = register-Keeps server dlci given w
  run-IsWellFormed server (reply dlci type content) w =
      request-Keeps server true dlci type content w
  run-IsWellFormed server (request dlci type content) w =
      request-Keeps server false dlci type content w
  run-IsWellFormed server (terminal_send dlci octets len) w =
      λ next calls e. send_data-IsWellFormed malloc server false dlci octets len next calls w e
  run-IsWellFormed server (terminal_close dlci) w = request-Keeps server false dlci disc none w
  run-IsWellFormed server (control_message message) w = control_message-Keeps server message w

  -- In every state that a server can reach, the options are those that it was made with, and its
  -- two arrays have exactly `maximum_dlci` entries.
  reached_server-IsWellFormed :
      (options : Options) (server : Endpoint)
      → Reachable options server
      → IsWellFormed server × (server.options ≡ options)
  reached_server-IsWellFormed options server (created e) = init-IsWellFormed options server e
  reached_server-IsWellFormed options next
        (stepped {server = server} {calls = calls} operation r e) =
      let (w, same) = reached_server-IsWellFormed options server r in
      let (w', same') = run-IsWellFormed server operation w next calls e in (w', same' ∙ same)
