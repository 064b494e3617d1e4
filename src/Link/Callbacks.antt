-- ===== src/Link/Callbacks.antt =====
-- The two ends of a link, lib/cmux/cmux_client.c and lib/cmux/cmux_server.c, with callbacks that call
-- the library: the operations that a callback asks for are done in turn, in the middle of a handler.
pub mod Handles
pub mod Registers
use cmux.Base.{
  ℕ, ◌+◌, ◌≤◌, ◌≡◌, refl, ap, ◌∙◌, arith, Bool, true, false, if◌then◌else◌, some, List, [], ◌∷◌,
}
use cmux.Base.{◌++◌, length, length-append, All, All-append, Option, none}
use cmux.Endpoint.{Endpoint, Call, Outcome, after}
use cmux.Endpoint.Callbacks.{User, in_turn, notify}
use cmux.Client.Steps as ClientSteps
use cmux.Server.Steps as ServerSteps
use cmux.Link.Frames.{frames_of, frames_of-append, IsSent, IsEndpoint, Runs}
use cmux.Link.Acts.OfClient.{ClientMay, client_act-Runs}
use cmux.Link.Acts.OfServer.{ServerMay, server_act-Runs}

-- The operation returns and sends frames that belong on the link, however many.
pub record Goes (m : ℕ) (outcome : Outcome) : Type 0 where
  pub bound : ℕ
  pub runs : Runs m bound outcome

pub Runs-Goes : (m n : ℕ) (outcome : Outcome) → Runs m n outcome → Goes m outcome
Runs-Goes m n outcome r = record { bound = n; runs = r }

pub in_turn-Goes :
    (m : ℕ) (outcome : Outcome) (next : Endpoint → Outcome)
    → Goes m outcome
    → ((endpoint : Endpoint) → IsEndpoint m endpoint → Goes m (next endpoint))
    → Goes m (in_turn outcome next)
in_turn-Goes m outcome next g later =
    let r = g.runs in
    let s = (later r.next r.endpoint).runs in
    let both = frames_of-append r.calls s.calls in
    record {
      bound = g.bound + (later r.next r.endpoint).bound;
      runs = record {
        next = s.next;
        calls = r.calls ++ s.calls;
        returns = ap (λ o. in_turn o next) r.returns ∙ ap (after r.calls) s.returns;
        sent =
            rw both (All-append (IsSent m) (frames_of r.calls) (frames_of s.calls) r.sent s.sent);
        few =
            rw both
              (omega (arith, r.few, s.few, length-append (frames_of r.calls) (frames_of s.calls)));
        endpoint = s.endpoint;
      };
    }

pub if-Goes :
    (m : ℕ) (b : Bool) (o o' : Outcome) → Goes m o → Goes m o' → Goes m (if b then o else o')
if-Goes m true o o' g g' = g
if-Goes m false o o' g g' = g'

pub still-Goes :
    (m : ℕ) (endpoint : Endpoint) → IsEndpoint m endpoint → Goes m (some (endpoint, []))
still-Goes m endpoint e = record {
  bound = 0;
  runs = record {
    next = endpoint;
    calls = [];
    returns = refl;
    sent = tt;
    few = omega arith;
    endpoint = e;
  };
}

-- Callbacks that return, and send what belongs on the link.
abbrev pub IsUser : ℕ → User → Type 0
IsUser m user =
    (call : Call) (endpoint : Endpoint) → IsEndpoint m endpoint → Goes m (user call endpoint)

pub notify-Goes :
    (m : ℕ) (user : User) (given : Bool) (call : Call) (endpoint : Endpoint)
    → IsUser m user
    → frames_of (call ∷ []) ≡ []
    → IsEndpoint m endpoint
    → Goes m (notify user given call endpoint)
notify-Goes m user false call endpoint u silent e = still-Goes m endpoint e
notify-Goes m user true call endpoint u silent e =
    let g = u call endpoint e in
    let r = g.runs in
    let both = frames_of-append (call ∷ []) r.calls in
    record {
      bound = g.bound;
      runs = record {
        next = r.next;
        calls = call ∷ r.calls;
        returns = ap (after (call ∷ [])) r.returns;
        sent = rw (both, silent) r.sent;
        few = rw (both, silent) r.few;
        endpoint = r.endpoint;
      };
    }

-- What the callbacks ask for, by the call and by the endpoint at that time.
module _ (malloc : ℕ → List ℕ) where
  abbrev pub client_runs : List ClientSteps.Operation → Endpoint → Outcome
  client_runs [] client = some (client, [])
  client_runs (operation ∷ operations) client =
      in_turn (ClientSteps.run malloc client operation) (client_runs operations)

  abbrev pub server_runs : List ServerSteps.Operation → Endpoint → Outcome
  server_runs [] server = some (server, [])
  server_runs (operation ∷ operations) server =
      in_turn (ServerSteps.run malloc server operation) (server_runs operations)

abbrev pub ClientAsks : ℕ → (Call → Endpoint → List ClientSteps.Operation) → Type 0
ClientAsks m asks = (call : Call) (endpoint : Endpoint) → All (ClientMay m) (asks call endpoint)

abbrev pub ServerAsks : ℕ → (Call → Endpoint → List ServerSteps.Operation) → Type 0
ServerAsks m asks = (call : Call) (endpoint : Endpoint) → All (ServerMay m) (asks call endpoint)

module _ (malloc : ℕ → List ℕ) (fresh : (n : ℕ) → length (malloc n) ≡ n) (m : ℕ)
    (few : m ≤ 64) where
  pub client_runs-Goes :
      (operations : List ClientSteps.Operation) (client : Endpoint)
      → All (ClientMay m) operations
      → IsEndpoint m client
      → Goes m (client_runs malloc operations client)
  client_runs-Goes [] client may e = still-Goes m client e
  client_runs-Goes (operation ∷ operations) client may e =
      in_turn-Goes m (ClientSteps.run malloc client operation) (client_runs malloc operations)
        (Runs-Goes m 1 _ (client_act-Runs malloc fresh m few client e operation may.0))
        λ next e'. client_runs-Goes operations next may.1 e'

  pub server_runs-Goes :
      (operations : List ServerSteps.Operation) (server : Endpoint)
      → All (ServerMay m) operations
      → IsEndpoint m server
      → Goes m (server_runs malloc operations server)
  server_runs-Goes [] server may e = still-Goes m server e
  server_runs-Goes (operation ∷ operations) server may e =
      in_turn-Goes m (ServerSteps.run malloc server operation) (server_runs malloc operations)
        (Runs-Goes m 1 _ (server_act-Runs malloc fresh m few server e operation may.0))
        λ next e'. server_runs-Goes operations next may.1 e'
