-- ===== src/Link/System/Progress.antt =====
-- The link of lib/cmux/cmux_client.c and lib/cmux/cmux_server.c: what can always be done next, and
-- that the wires run dry.
use cmux.Base.{
  ℕ, zero, suc, ◌≤◌, ◌+◌, ◌*◌, ◌≡◌, refl, arith, some, List, [], ◌∷◌, length, All, leb, leb→le,
  Bool-cases, inl, inr,
}
use cmux.Link.Frames.{IsSent, IsEndpoint}
use cmux.Endpoint.{Endpoint, Call}
use cmux.Client.Steps as ClientSteps
use cmux.Server.Steps as ServerSteps
use cmux.Link.Acts.OfClient.{ClientMay, client_act-Runs}
use cmux.Link.Acts.OfServer.{ServerMay, server_act-Runs}
use cmux.Link.System.{
  System, client_takes, server_takes, Receives, client_receives, server_receives, ReceivesMany,
  done, more, Reached, received, client_answers_frame, server_answers_frame,
}
use cmux.Link.Callbacks.{ClientAsks, ServerAsks}
use cmux.Link.System.Invariant.{
  client_answers-Goes, server_answers-Goes, IsLink, frames_left, client_takes-Runs,
  server_takes-Runs, handed_on-IsLink, reached_system-IsLink,
}

-- The link is well formed, and nothing is stuck: whatever a user may ask of an end returns, and so
-- does the handling of the frame at the head of each wire, with callbacks that ask for nothing and
-- with callbacks that ask for what they may.
pub record IsLive (malloc : ℕ → List ℕ) (m : ℕ) (system : System) : Type 0 where
  pub link : IsLink m system
  pub client_asked :
      (operation : ClientSteps.Operation)
      → ClientMay m operation
      → (next : Endpoint) × (calls : List Call) × (ClientSteps.run malloc system.client operation
          ≡ some (next, calls))
  pub server_asked :
      (operation : ServerSteps.Operation)
      → ServerMay m operation
      → (next : Endpoint) × (calls : List Call) × (ServerSteps.run malloc system.server operation
          ≡ some (next, calls))
  pub client_head :
      (frame : List ℕ) (frames : List (List ℕ))
      → system.to_client ≡ frame ∷ frames
      → (next : Endpoint) × (calls : List Call) × (client_takes system.client frame
          ≡ some (next, calls))
  pub server_head :
      (frame : List ℕ) (frames : List (List ℕ))
      → system.to_server ≡ frame ∷ frames
      → (next : Endpoint) × (calls : List Call) × (server_takes malloc system.server frame
          ≡ some (next, calls))
  pub client_head_answered :
      (frame : List ℕ) (frames : List (List ℕ))
      (asks : Call → Endpoint → List ClientSteps.Operation)
      → system.to_client ≡ frame ∷ frames
      → ClientAsks m asks
      → (next : Endpoint) × (calls : List Call) × (client_answers_frame malloc asks system.client
            frame
          ≡ some (next, calls))
  pub server_head_answered :
      (frame : List ℕ) (frames : List (List ℕ))
      (asks : Call → Endpoint → List ServerSteps.Operation)
      → system.to_server ≡ frame ∷ frames
      → ServerAsks m asks
      → (next : Endpoint) × (calls : List Call) × (server_answers_frame malloc asks system.server
            frame
          ≡ some (next, calls))

no_frames : (wire : List (List ℕ)) → length wire ≡ 0 → wire ≡ []
no_frames [] h = refl
no_frames (frame ∷ frames) h = absurd (omega (arith, h))

module _ (malloc : ℕ → List ℕ) (fresh : (n : ℕ) → length (malloc n) ≡ n) (m : ℕ)
    (few : m ≤ 64) where
  -- Whatever the users of the two ends of a link with at most 64 DLCIs do that they may, and in
  -- whatever order the frames come: both ends keep their arrays and their maximum, on the wires are
  -- only frames that the builder made of plain frames, for DLCIs below the maximum, every operation
  -- that a user may ask of an end returns, and the frame at the head of each wire is handed to the
  -- handler of the other end, which returns, also where its callbacks ask for any such operations. What
  -- may be asked for: to start and to stop; to open, to register and to close a terminal below the
  -- maximum; data of fewer than 128 octets on a DLCI from 1 to below the maximum; and, below the maximum,
  -- commands and requests of a named type but UI, a request with parameters that belong to its service
  -- and lie in their ranges, and of fewer than 128 octets. The frame is parsed and handed on, but not
  -- logged.
  pub reached_system-IsLive : (system : System) → Reached malloc m system → IsLive malloc m system
  reached_system-IsLive system r =
      let l = reached_system-IsLink malloc fresh m few system r in
      record {
        link = l;
        client_asked = λ operation may.
            let runs = client_act-Runs malloc fresh m few system.client l.client operation may in
            (runs.next, runs.calls, runs.returns);
        server_asked = λ operation may.
            let runs = server_act-Runs malloc fresh m few system.server l.server operation may in
            (runs.next, runs.calls, runs.returns);
        client_head = λ frame frames e.
            let runs =
              client_takes-Runs malloc fresh m few system.client frame l.client
                (rw e at l.to_client).0 in
            (runs.next, runs.calls, runs.returns);
        server_head = λ frame frames e.
            let runs =
              server_takes-Runs malloc fresh m few system.server frame l.server
                (rw e at l.to_server).0 in
            (runs.next, runs.calls, runs.returns);
        client_head_answered = λ frame frames asks e may.
            let goes =
              client_answers-Goes malloc fresh m few asks system.client frame may l.client
                (rw e at l.to_client).0 in
            (goes.runs.next, goes.runs.calls, goes.runs.returns);
        server_head_answered = λ frame frames asks e may.
            let goes =
              server_answers-Goes malloc fresh m few asks system.server frame may l.server
                (rw e at l.to_server).0 in
            (goes.runs.next, goes.runs.calls, goes.runs.returns);
      }

  reached_by_many :
      (n : ℕ) (system last : System)
      → Reached malloc m system
      → ReceivesMany malloc n system last
      → Reached malloc m last
  reached_by_many zero system _ r done = r
  reached_by_many (suc n) system last r (more {next = next} step steps) =
      reached_by_many n next last (received r step) steps

  receives_at_most :
      (n : ℕ) (system last : System)
      → Reached malloc m system
      → ReceivesMany malloc n system last
      → n + frames_left last ≤ frames_left system
  receives_at_most zero system _ r done = omega arith
  receives_at_most (suc n) system last r (more {next = next} step steps) =
      let (_, fewer) =
        handed_on-IsLink malloc fresh m few system next
          (reached_system-IsLink malloc fresh m few system r) step in
      let rest = receives_at_most n next last (received r step) steps in omega (arith, fewer, rest)

  a_frame_is_taken :
      (client server : Endpoint) (to_server to_client : List (List ℕ))
      → IsEndpoint m client
      → IsEndpoint m server
      → All (IsSent m) to_server
      → All (IsSent m) to_client
      → 1 ≤ 2 * length to_server + length to_client
      → (next : System) × Receives malloc
          (record {
            client = client;
            server = server;
            to_server = to_server;
            to_client = to_client;
          })
          next
  a_frame_is_taken client server [] [] c s w w' left = absurd (omega (arith, left))
  a_frame_is_taken client server [] (frame ∷ frames) c s w w' left =
      (_, client_receives (client_takes-Runs malloc fresh m few client frame c w'.0).returns)
  a_frame_is_taken client server (frame ∷ frames) to_client c s w w' left =
      (_, server_receives (server_takes-Runs malloc fresh m few server frame s w.0).returns)

  drains_within :
      (left : ℕ) (system : System)
      → Reached malloc m system
      → frames_left system ≤ left
      → (n : ℕ) × (last : System) × ReceivesMany malloc n system last × (frames_left last ≡ 0)
  drains_within zero system r h = (zero, system, done, omega (arith, h))
  drains_within (suc left) system r h = elim (Bool-cases (leb 1 (frames_left system))) [
    | inl some_left ↦
        let l = reached_system-IsLink malloc fresh m few system r in
        let (next, step) =
          a_frame_is_taken system.client system.server system.to_server system.to_client l.client
            l.server l.to_server l.to_client (leb→le _ _ some_left) in
        let (_, fewer) = handed_on-IsLink malloc fresh m few system next l step in
        let (n, last, steps, empty) =
          drains_within left next (received r step) (omega (arith, h, fewer)) in
        (suc n, last, more step steps, empty)
    | inr none_left ↦ (zero, system, done, ground (arith, none_left))
  ]

  -- However the wires of a link with at most 64 DLCIs are emptied, it ends: in a state that the link can
  -- reach by the operations that may be asked for and by frames that are taken, whatever frames have been
  -- handed on since, without being logged, the others can be, until both wires are empty, and
  -- all in all they are at most one for each frame that was on the way to the client and two for each
  -- that was on the way to the server.
  pub reached_system_drains :
      (system next : System) (n : ℕ)
      → Reached malloc m system
      → ReceivesMany malloc n system next
      → (k : ℕ) × (last : System) × ReceivesMany malloc k next last
        × (last.to_server ≡ [])
        × (last.to_client ≡ [])
        × (n + k ≤ frames_left system)
  reached_system_drains system next n r begun =
      let r' = reached_by_many n system next r begun in
      let (k, last, steps, empty) = drains_within (frames_left next) next r' (omega arith) in
      (
        k,
        last,
        steps,
        no_frames last.to_server (omega (arith, empty)),
        no_frames last.to_client (omega (arith, empty)),
        omega
            (arith, receives_at_most n system next r begun, receives_at_most k next last r' steps),
      )
