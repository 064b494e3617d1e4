-- ===== src/Tests/Data.antt =====
-- Blocks, frames and endpoints of lib/cmux that the runs share.
use cmux.Base.{ℕ, ◌≡◌, true, some, List, [], ◌∷◌, length, replicate}
use cmux.Base.{length-replicate, refl, arith}
use cmux.Frame.{BuilderFrameInfo}
use cmux.Frame.RoundTrip.{IsPlain}
use cmux.Endpoint.{Options, TerminalOptions, Endpoint, no_terminal_options, no_frame, init}
use cmux.Client.{cmux_client_init}
use cmux.Server.{cmux_server_init}
use cmux.Endpoint.State.{IsWellFormed}
use cmux.Endpoint.Requests.{data_frame}

-- `malloc` on memory that is zero
abbrev pub zeroed : ℕ → List ℕ
zeroed n = replicate n 0

pub length-zeroed : (n : ℕ) → length (zeroed n) ≡ n
length-zeroed n = length-replicate n 0

abbrev pub hello : List ℕ
hello = 104 ∷ 101 ∷ 108 ∷ 108 ∷ 111 ∷ []

abbrev pub hello_frame : BuilderFrameInfo
hello_frame = data_frame true 1 hello

pub hello_frame-IsPlain : IsPlain hello_frame hello
hello_frame-IsPlain = record {
  dlci_fits = omega arith;
  named = tt;
  not_ui = refl;
  short = omega arith;
  bodied = (refl, refl);
}

abbrev pub two_dlcis : Options
two_dlcis = record { on_event = true; on_start = true; on_stop = true; maximum_dlci = 2 }

abbrev pub listening : TerminalOptions
listening = record { on_terminal_data = true; on_terminal_open = true; on_terminal_close = true }

abbrev pub endpoint : Endpoint
endpoint = record {
  options = two_dlcis;
  terminal_options = no_terminal_options ∷ listening ∷ [];
  terminal_statuses = no_frame ∷ no_frame ∷ [];
}

pub endpoint-IsWellFormed : IsWellFormed endpoint
endpoint-IsWellFormed = record {
  positive = omega arith;
  options_sized = refl;
  statuses_sized = refl;
}

-- An endpoint as it is made.
abbrev pub made : Endpoint
made = record {
  options = two_dlcis;
  terminal_options = no_terminal_options ∷ no_terminal_options ∷ [];
  terminal_statuses = no_frame ∷ no_frame ∷ [];
}

pub made_client : cmux_client_init two_dlcis ≡ some made
unfolding init
made_client = refl

pub made_server : cmux_server_init two_dlcis ≡ some made
unfolding init
made_server = refl
