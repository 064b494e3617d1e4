-- ===== src/Link/System.antt =====
-- A client of lib/cmux/cmux_client.c and a server of lib/cmux/cmux_server.c with a wire each way: the
-- frames that an end hands to its interface come to the other end whole and in their order, each at
-- any time.
pub mod Invariant
pub mod Progress
use cmux.Base.{ℕ, zero, suc, ◌≡◌, ◌>>=◌, some, List, [], ◌∷◌, ◌++◌, length}
use cmux.Buffer.{process_ingress_frame}
use cmux.Endpoint.{Options, Endpoint, Call, Outcome}
use cmux.Client.{cmux_client_init, cmux_client_on_control_message}
use cmux.Server.{cmux_server_init, cmux_server_on_control_message}
use cmux.Client.Steps as ClientSteps
use cmux.Server.Steps as ServerSteps
use cmux.Link.Frames.{frames_of}
use cmux.Link.Acts.OfClient.{ClientMay}
use cmux.Link.Acts.OfServer.{ServerMay}
use cmux.Client.Callbacks.{cmux_client_on_control_message_with}
use cmux.Server.Callbacks.{cmux_server_on_control_message_with}
use cmux.Link.Callbacks.{ClientAsks, ServerAsks, client_runs, server_runs}

-- The two ends, and the frames on their way to each.
pub record System : Type 0 where
  pub client : Endpoint
  pub server : Endpoint
  pub to_server : List (List ℕ)
  pub to_client : List (List ℕ)

-- A frame comes to a client.
abbrev pub client_takes : Endpoint → List ℕ → Outcome
client_takes client frame = do
  message ← process_ingress_frame frame (length frame)
  cmux_client_on_control_message client message

module _ (malloc : ℕ → List ℕ) where
  -- And to a server.
  abbrev pub server_takes : Endpoint → List ℕ → Outcome
  server_takes server frame = do
    message ← process_ingress_frame frame (length frame)
    cmux_server_on_control_message malloc server message

  -- The same with callbacks that ask for operations.
  abbrev pub client_answers_frame :
      (Call → Endpoint → List ClientSteps.Operation) → Endpoint → List ℕ → Outcome
  client_answers_frame asks client frame = do
    message ← process_ingress_frame frame (length frame)
    cmux_client_on_control_message_with
        (λ call endpoint. client_runs malloc (asks call endpoint) endpoint) client message

  abbrev pub server_answers_frame :
      (Call → Endpoint → List ServerSteps.Operation) → Endpoint → List ℕ → Outcome
  server_answers_frame asks server frame = do
    message ← process_ingress_frame frame (length frame)
    cmux_server_on_control_message_with malloc
        (λ call endpoint. server_runs malloc (asks call endpoint) endpoint) server message

  -- The frame at the head of a wire is handed on.
  pub data Receives : System → System → Type 0 where
    client_receives :
        {client server next : Endpoint} {to_server frames : List (List ℕ)} {frame : List ℕ}
        {calls : List Call}
        → client_takes client frame ≡ some (next, calls)
        → Receives
            (record {
              client = client;
              server = server;
              to_server = to_server;
              to_client = frame ∷ frames;
            })
            (record {
              client = next;
              server = server;
              to_server = to_server ++ frames_of calls;
              to_client = frames;
            })
    server_receives :
        {client server next : Endpoint} {to_client frames : List (List ℕ)} {frame : List ℕ}
        {calls : List Call}
        → server_takes server frame ≡ some (next, calls)
        → Receives
            (record {
              client = client;
              server = server;
              to_server = frame ∷ frames;
              to_client = to_client;
            })
            (record {
              client = client;
              server = next;
              to_server = frames;
              to_client = to_client ++ frames_of calls;
            })

  -- So many frames, one after the other.
  pub data ReceivesMany : ℕ → System → System → Type 0 where
    done : {system : System} → ReceivesMany zero system system
    more :
        {n : ℕ} {system next last : System}
        → Receives system next
        → ReceivesMany n next last
        → ReceivesMany (suc n) system last

  module _ (m : ℕ) where
    -- The user of an end does what may be asked of it, on a link with DLCIs below `m`.
    pub data Acts : System → System → Type 0 where
      client_acts :
          {client server next : Endpoint} {to_server to_client : List (List ℕ)} {calls : List Call}
          (operation : ClientSteps.Operation)
          → ClientMay m operation
          → ClientSteps.run malloc client operation ≡ some (next, calls)
          → Acts
              (record {
                client = client;
                server = server;
                to_server = to_server;
                to_client = to_client;
              })
              (record {
                client = next;
                server = server;
                to_server = to_server ++ frames_of calls;
                to_client = to_client;
              })
      server_acts :
          {client server next : Endpoint} {to_server to_client : List (List ℕ)} {calls : List Call}
          (operation : ServerSteps.Operation)
          → ServerMay m operation
          → ServerSteps.run malloc server operation ≡ some (next, calls)
          → Acts
              (record {
                client = client;
                server = server;
                to_server = to_server;
                to_client = to_client;
              })
              (record {
                client = client;
                server = next;
                to_server = to_server;
                to_client = to_client ++ frames_of calls;
              })

    -- The frame at the head of a wire is handed on, and the callbacks ask for what they may.
    pub data Answers : System → System → Type 0 where
      client_answers :
          {client server next : Endpoint} {to_server frames : List (List ℕ)} {frame : List ℕ}
          {calls : List Call} (asks : Call → Endpoint → List ClientSteps.Operation)
          → ClientAsks m asks
          → client_answers_frame asks client frame ≡ some (next, calls)
          → Answers
              (record {
                client = client;
                server = server;
                to_server = to_server;
                to_client = frame ∷ frames;
              })
              (record {
                client = next;
                server = server;
                to_server = to_server ++ frames_of calls;
                to_client = frames;
              })
      server_answers :
          {client server next : Endpoint} {to_client frames : List (List ℕ)} {frame : List ℕ}
          {calls : List Call} (asks : Call → Endpoint → List ServerSteps.Operation)
          → ServerAsks m asks
          → server_answers_frame asks server frame ≡ some (next, calls)
          → Answers
              (record {
                client = client;
                server = server;
                to_server = frame ∷ frames;
                to_client = to_client;
              })
              (record {
                client = client;
                server = next;
                to_server = frames;
                to_client = to_client ++ frames_of calls;
              })

    pub data Reached : System → Type 0 where
      begun :
          (options options' : Options) {client server : Endpoint}
          → options.maximum_dlci ≡ m
          → options'.maximum_dlci ≡ m
          → cmux_client_init options ≡ some client
          → cmux_server_init options' ≡ some server
          → Reached (record { client = client; server = server; to_server = []; to_client = [] })
      acted : {system next : System} → Reached system → Acts system next → Reached next
      received : {system next : System} → Reached system → Receives system next → Reached next
      answered : {system next : System} → Reached system → Answers system next → Reached next
