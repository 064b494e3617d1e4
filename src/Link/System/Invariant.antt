-- ===== src/Link/System/Invariant.antt =====
-- The link of lib/cmux/cmux_client.c and lib/cmux/cmux_server.c: its invariant.
use mathlib.Core.Option.{some-injective}
use cmux.Base.{
  ℕ, suc, ◌≤◌, ◌+◌, ◌*◌, ◌≡◌, sym, ap, ◌∙◌, arith, some, List, length, All, All-append,
  length-append,
}
use cmux.Endpoint.{Options, Endpoint, Call, Outcome, init}
use cmux.Endpoint.State.{init-IsWellFormed}
use cmux.Link.Frames.{frames_of, IsSent, IsEndpoint, Runs}
use cmux.Link.Acts.OfClient.{client_act-Runs}
use cmux.Link.Acts.OfServer.{server_act-Runs}
use cmux.Link.Handles.{sent_arrives, client_handle-Runs, server_handle-Runs}
use cmux.Client.Steps as ClientSteps
use cmux.Server.Steps as ServerSteps
use cmux.Link.Callbacks.{ClientAsks, ServerAsks, Goes, client_runs-Goes, server_runs-Goes}
use cmux.Link.Callbacks.Handles.{client_handle-Goes, server_handle-Goes}
use cmux.Link.System.{
  System, client_takes, server_takes, Receives, client_receives, server_receives, Acts, client_acts,
  server_acts, Reached, begun, acted, received, answered, Answers, client_answers, server_answers,
  client_answers_frame, server_answers_frame,
}

-- Both ends are those of a link with DLCIs below `m`, and every frame on a wire belongs on it.
pub record IsLink (m : ℕ) (system : System) : Type 0 where
  pub client : IsEndpoint m system.client
  pub server : IsEndpoint m system.server
  pub to_server : All (IsSent m) system.to_server
  pub to_client : All (IsSent m) system.to_client

-- How many frames can still be handed on: one that comes to the server may be answered.
abbrev pub frames_left : System → ℕ
frames_left system = 2 * length system.to_server + length system.to_client

-- What an operation that returns does, where it does return.
pub record Did (m n : ℕ) (next : Endpoint) (calls : List Call) : Type 0 where
  pub endpoint : IsEndpoint m next
  pub sent : All (IsSent m) (frames_of calls)
  pub few : length (frames_of calls) ≤ n

pub run-Did :
    (m n : ℕ) (outcome : Outcome) (next : Endpoint) (calls : List Call)
    → Runs m n outcome
    → outcome ≡ some (next, calls)
    → Did m n next calls
run-Did m n outcome next calls r e =
    let q : ◌≡◌ {A = Endpoint × List Call} (r.next, r.calls) (next, calls) =
      some-injective _ _ (sym r.returns ∙ e) in
    let a : r.next ≡ next = ap (λ p. p.0) q in
    let b : r.calls ≡ calls = ap (λ p. p.1) q in
    record { endpoint = rw (← a) r.endpoint; sent = rw (← b) r.sent; few = rw (← b) r.few }

initial-IsEndpoint :
    (m : ℕ) (options : Options) (endpoint : Endpoint)
    → options.maximum_dlci ≡ m
    → init options ≡ some endpoint
    → IsEndpoint m endpoint
initial-IsEndpoint m options endpoint h e =
    let (w, same) = init-IsWellFormed options endpoint e in
    record { well_formed = w; maximum = ap (λ o. o.maximum_dlci) same ∙ h }

module _ (malloc : ℕ → List ℕ) (fresh : (n : ℕ) → length (malloc n) ≡ n) (m : ℕ)
    (few : m ≤ 64) where
  pub client_takes-Runs :
      (client : Endpoint) (frame : List ℕ)
      → IsEndpoint m client
      → IsSent m frame
      → Runs m 0 (client_takes client frame)
  client_takes-Runs client frame e s =
      rw (sent_arrives m frame s) (client_handle-Runs m frame s client e)

  pub server_takes-Runs :
      (server : Endpoint) (frame : List ℕ)
      → IsEndpoint m server
      → IsSent m frame
      → Runs m 1 (server_takes malloc server frame)
  server_takes-Runs server frame e s =
      rw (sent_arrives m frame s) (server_handle-Runs malloc fresh m few server e frame s)

  -- To hand a frame on keeps the link, and there are fewer frames left.
  pub handed_on-IsLink :
      (system next : System)
      → IsLink m system
      → Receives malloc system next
      → IsLink m next × (suc (frames_left next) ≤ frames_left system)
  handed_on-IsLink _ _ l
        (client_receives {client = client} {server = server} {next = next} {to_server = to_server}
          {frames = frames} {frame = frame} {calls = calls} e) =
      let did =
        run-Did m 0 _ next calls (client_takes-Runs client frame l.client l.to_client.0) e in
      (
        record {
          client = did.endpoint;
          server = l.server;
          to_server = All-append (IsSent m) to_server (frames_of calls) l.to_server did.sent;
          to_client = l.to_client.1;
        },
        omega (arith, did.few, length-append {0} to_server (frames_of calls)),
      )
  handed_on-IsLink _ _ l
        (server_receives {client = client} {server = server} {next = next} {to_client = to_client}
          {frames = frames} {frame = frame} {calls = calls} e) =
      let did =
        run-Did m 1 _ next calls (server_takes-Runs server frame l.server l.to_server.0) e in
      (
        record {
          client = l.client;
          server = did.endpoint;
          to_server = l.to_server.1;
          to_client = All-append (IsSent m) to_client (frames_of calls) l.to_client did.sent;
        },
        omega (arith, did.few, length-append {0} to_client (frames_of calls)),
      )

  pub client_answers-Goes :
      (asks : Call → Endpoint → List ClientSteps.Operation) (client : Endpoint) (frame : List ℕ)
      → ClientAsks m asks
      → IsEndpoint m client
      → IsSent m frame
      → Goes m (client_answers_frame malloc asks client frame)
  client_answers-Goes asks client frame may e s = rw (sent_arrives m frame s) (
      client_handle-Goes m _
        (λ call endpoint.
          client_runs-Goes malloc fresh m few (asks call endpoint) endpoint (may call endpoint))
        frame s client e)

  pub server_answers-Goes :
      (asks : Call → Endpoint → List ServerSteps.Operation) (server : Endpoint) (frame : List ℕ)
      → ServerAsks m asks
      → IsEndpoint m server
      → IsSent m frame
      → Goes m (server_answers_frame malloc asks server frame)
  server_answers-Goes asks server frame may e s = rw (sent_arrives m frame s) (
      server_handle-Goes malloc fresh m few _
        (λ call endpoint.
          server_runs-Goes malloc fresh m few (asks call endpoint) endpoint (may call endpoint))
        frame s server e)

  asked_for-IsLink :
      (system next : System) → IsLink m system → Acts malloc m system next → IsLink m next
  asked_for-IsLink _ _ l
        (client_acts {client = client} {next = next} {to_server = to_server} {calls = calls}
          operation may e) =
      let did =
        run-Did m 1 _ next calls (client_act-Runs malloc fresh m few client l.client operation may)
          e in
      record {
        client = did.endpoint;
        server = l.server;
        to_server = All-append (IsSent m) to_server (frames_of calls) l.to_server did.sent;
        to_client = l.to_client;
      }
  asked_for-IsLink _ _ l
        (server_acts {server = server} {next = next} {to_client = to_client} {calls = calls}
          operation may e) =
      let did =
        run-Did m 1 _ next calls (server_act-Runs malloc fresh m few server l.server operation may)
          e in
      record {
        client = l.client;
        server = did.endpoint;
        to_server = l.to_server;
        to_client = All-append (IsSent m) to_client (frames_of calls) l.to_client did.sent;
      }

  answered-IsLink :
      (system next : System) → IsLink m system → Answers malloc m system next → IsLink m next
  answered-IsLink _ _ l
        (client_answers {client = client} {next = next} {to_server = to_server} {frame = frame}
          {calls = calls} asks may e) =
      let g = client_answers-Goes asks client frame may l.client l.to_client.0 in
      let did = run-Did m g.bound _ next calls g.runs e in
      record {
        client = did.endpoint;
        server = l.server;
        to_server = All-append (IsSent m) to_server (frames_of calls) l.to_server did.sent;
        to_client = l.to_client.1;
      }
  answered-IsLink _ _ l
        (server_answers {server = server} {next = next} {to_client = to_client} {frame = frame}
          {calls = calls} asks may e) =
      let g = server_answers-Goes asks server frame may l.server l.to_server.0 in
      let did = run-Did m g.bound _ next calls g.runs e in
      record {
        client = l.client;
        server = did.endpoint;
        to_server = l.to_server.1;
        to_client = All-append (IsSent m) to_client (frames_of calls) l.to_client did.sent;
      }

  pub reached_system-IsLink : (system : System) → Reached malloc m system → IsLink m system
  reached_system-IsLink _ (begun options options' {client = client} {server = server} h h' c s) =
      record {
        client = initial-IsEndpoint m options client h c;
        server = initial-IsEndpoint m options' server h' s;
        to_server = tt;
        to_client = tt;
      }
  reached_system-IsLink next (acted {system = system} r a) =
      asked_for-IsLink system next (reached_system-IsLink system r) a
  reached_system-IsLink next (received {system = system} r a) =
      (handed_on-IsLink system next (reached_system-IsLink system r) a).0
  reached_system-IsLink next (answered {system = system} r a) =
      answered-IsLink system next (reached_system-IsLink system r) a
