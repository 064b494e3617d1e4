-- ===== src/Endpoint/Callbacks.antt =====
-- The callbacks of lib/cmux/cmux_client.c and lib/cmux/cmux_server.c that call the library themselves:
-- a callback runs in the middle of a handler, on the endpoint as it then is.
use cmux.Base.{◌≡◌, refl, Bool, true, false, if◌then◌else◌, none, some, [], ◌∷◌}
use cmux.Endpoint.{Endpoint, Call, Outcome, call_if, after}

-- What a callback does with the endpoint.
abbrev pub User : Type 0
User = Call → Endpoint → Outcome

-- One after the other.
abbrev pub in_turn : Outcome → (Endpoint → Outcome) → Outcome
in_turn none next = none
in_turn (some (endpoint, calls)) next = after calls (next endpoint)

-- `if (f != NULL) f(...)`, with what the callback does
abbrev pub notify : User → Bool → Call → Endpoint → Outcome
notify user given call endpoint =
    if given then after (call ∷ []) (user call endpoint) else some (endpoint, [])

-- Callbacks that do nothing with the endpoint.
abbrev pub quiet : User
quiet call endpoint = some (endpoint, [])

pub notify-quiet :
    (given : Bool) (call : Call) (endpoint : Endpoint)
    → notify quiet given call endpoint ≡ some (endpoint, call_if given call)
notify-quiet true call endpoint = refl
notify-quiet false call endpoint = refl

-- A callback that does nothing is only listed.
pub notify_nothing :
    (user : User) (given : Bool) (call : Call) (endpoint : Endpoint) (next : Endpoint → Outcome)
    → user call endpoint ≡ some (endpoint, [])
    → in_turn (notify user given call endpoint) next ≡ after (call_if given call) (next endpoint)
notify_nothing user true call endpoint next e = rw e refl
notify_nothing user false call endpoint next e = refl
