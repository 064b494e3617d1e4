-- ===== src/Tests/Multiplexed.antt =====
-- Two terminals of one link of lib/cmux, run.
use cmux.Base.{refl, arith, true, false, List, [], ◌∷◌}
use cmux.Endpoint.{Endpoint, Options, no_terminal_options, no_frame}
use cmux.Client.{cmux_client_terminal_send, cmux_client_on_control_message}
use cmux.Server.{cmux_server_terminal_send, cmux_server_on_control_message}
use cmux.Link.Frames.{IsEndpoint}
use cmux.Link.Multiplex.{Piece, Multiplexes}
use cmux.Link.Multiplex.Delivers.{link-Multiplexes}
use cmux.Link.Multiplex.Ring.{Passes, piece_octets, link-Passes}
use cmux.Client.{cmux_client_ingest}
use cmux.Server.{cmux_server_ingest}
use cmux.Tests.Ring.{list_ring, list_ring-IsRingBuffer, list_straight, empty_ring}
use cmux.Tests.Data.{zeroed, length-zeroed, hello, listening}

abbrev three_dlcis : Options
three_dlcis = record { on_event = true; on_start = true; on_stop = true; maximum_dlci = 3 }

abbrev both_listen : Endpoint
both_listen = record {
  options = three_dlcis;
  terminal_options = no_terminal_options ∷ listening ∷ listening ∷ [];
  terminal_statuses = no_frame ∷ no_frame ∷ no_frame ∷ [];
}

both_listen-IsEndpoint : IsEndpoint 3 both_listen
both_listen-IsEndpoint = record {
  well_formed = record { positive = omega arith; options_sized = refl; statuses_sized = refl };
  maximum = refl;
}

-- Three pieces on two terminals, and one the other way.
abbrev pieces : List Piece
pieces = (1, hello) ∷ (2, 104 ∷ 105 ∷ []) ∷ (1, 33 ∷ []) ∷ []

abbrev answers : List Piece
answers = (2, hello) ∷ []

link-Multiplexes_example :
    Multiplexes
      (cmux_client_terminal_send zeroed)
      (cmux_server_on_control_message zeroed)
      both_listen
      both_listen
      pieces
    × Multiplexes
        (cmux_server_terminal_send zeroed)
        cmux_client_on_control_message
        both_listen
        both_listen
        answers
link-Multiplexes_example =
    link-Multiplexes zeroed length-zeroed 3 (omega arith) both_listen both_listen pieces answers
      both_listen-IsEndpoint both_listen-IsEndpoint
      (
        (omega arith, omega arith, omega arith, omega arith),
        (
          (omega arith, omega arith, omega arith, omega arith),
          ((omega arith, omega arith, omega arith, omega arith), tt),
        ),
      )
      ((omega arith, omega arith, omega arith, omega arith), tt)
      ((listening, refl, refl), ((listening, refl, refl), ((listening, refl, refl), tt)))
      ((listening, refl, refl), tt)

link-Passes_example :
    Passes list_ring list_ring-IsRingBuffer
      (cmux_client_terminal_send zeroed)
      (cmux_server_ingest zeroed list_ring)
      both_listen
      both_listen
      empty_ring
      (piece_octets true pieces)
      (1, hello)
      ((2, 104 ∷ 105 ∷ []) ∷ (1, 33 ∷ []) ∷ [])
    × Passes list_ring list_ring-IsRingBuffer
        (cmux_server_terminal_send zeroed)
        (cmux_client_ingest zeroed list_ring)
        both_listen
        both_listen
        empty_ring
        (piece_octets false answers)
        (2, hello)
        []
link-Passes_example =
    link-Passes list_ring list_ring-IsRingBuffer list_straight zeroed length-zeroed 3 (omega arith)
      both_listen both_listen empty_ring empty_ring (1, hello) (2, hello)
      ((2, 104 ∷ 105 ∷ []) ∷ (1, 33 ∷ []) ∷ []) [] both_listen-IsEndpoint both_listen-IsEndpoint
      (
        (omega arith, omega arith, omega arith, omega arith),
        (
          (omega arith, omega arith, omega arith, omega arith),
          ((omega arith, omega arith, omega arith, omega arith), tt),
        ),
      )
      ((omega arith, omega arith, omega arith, omega arith), tt)
      ((listening, refl, refl), ((listening, refl, refl), ((listening, refl, refl), tt)))
      ((listening, refl, refl), tt) refl refl (omega arith) (omega arith) tt tt
