-- ===== src/Tests/Systems.antt =====
-- A link of lib/cmux/cmux_client.c and lib/cmux/cmux_server.c, run.
use cmux.Base.{ℕ, ◌+◌, ◌≡◌, ◌≤◌, refl, arith, true, none, some, List, [], ◌∷◌}
use cmux.Frame.{control_type}
use cmux.Frame.Builder.{
  cmux_frame_builder, write_body, builder_fcs, builder_frame_length, write_length,
}
use cmux.Frame.Parser.{
  parse_frame, parse_header, parse_length, read_length, parse_body, parser_fcs, parse_footer,
}
use cmux.Crc.{cmux_crc, crc_loop, crc_step}
use cmux.Buffer.{process_ingress_frame}
use cmux.Endpoint.{
  Endpoint, no_frame, event, started, sent_to_interface, send_frame, send_request,
  update_terminal_options,
}
use cmux.Endpoint.Requests.{command}
use cmux.Frame.{sabm, ua}
use cmux.Client.{cmux_client_start, cmux_client_terminal_open}
use cmux.Client.Steps.{start}
use cmux.Server.{cmux_server_on_control_message, cmux_server_on_incoming_request, on_sabm}
use cmux.Link.System.{
  System, server_takes, server_receives, ReceivesMany, done, more, Reached, begun, acted,
  client_acts,
}
use cmux.Link.System.Invariant.{frames_left}
use cmux.Link.System.Progress.{IsLive, reached_system-IsLive, reached_system_drains}
use cmux.Tests.Data.{zeroed, length-zeroed, two_dlcis, made, made_client, made_server}
use cmux.Buffer.Ingest.{delivered}

-- The ends when the client has asked to open the link, and the server has answered.
abbrev asking : Endpoint
asking = record made { terminal_statuses = command sabm true 0 ∷ no_frame ∷ [] }

abbrev answering : Endpoint
answering = record made { terminal_statuses = command ua true 0 ∷ no_frame ∷ [] }

abbrev opening : List ℕ
opening = 249 ∷ 3 ∷ 63 ∷ 1 ∷ 28 ∷ 249 ∷ []

abbrev answer : List ℕ
answer = 249 ∷ 3 ∷ 115 ∷ 1 ∷ 215 ∷ 249 ∷ []

client_asks : cmux_client_start zeroed made ≡ some (asking, sent_to_interface opening ∷ [])
unfolding cmux_client_start cmux_client_terminal_open update_terminal_options send_request
    send_frame cmux_frame_builder write_body builder_fcs builder_frame_length write_length cmux_crc
    crc_loop crc_step
client_asks = refl

server_answers :
    server_takes zeroed made opening
    ≡ some (
      answering,
      event (delivered (command sabm true 0) []).info none no_frame
          ∷ started
          ∷ sent_to_interface answer
          ∷ [],
    )
unfolding cmux_server_on_control_message cmux_server_on_incoming_request on_sabm send_request
    send_frame cmux_frame_builder write_body builder_fcs builder_frame_length write_length cmux_crc
    crc_loop crc_step process_ingress_frame parse_frame parse_header parse_length read_length
    parse_body parser_fcs parse_footer control_type
server_answers = refl

abbrev asked : System
asked = record { client = asking; server = made; to_server = opening ∷ []; to_client = [] }

abbrev answered : System
answered = record { client = asking; server = answering; to_server = []; to_client = answer ∷ [] }

asked_reached : Reached zeroed 2 asked
asked_reached =
    acted (begun two_dlcis two_dlcis refl refl made_client made_server)
      (client_acts start tt client_asks)

one_handed_on : ReceivesMany zeroed 1 asked answered
one_handed_on = more (server_receives server_answers) done

reached_system-IsLive_example : IsLive zeroed 2 asked
reached_system-IsLive_example =
    reached_system-IsLive zeroed length-zeroed 2 (omega arith) asked asked_reached

reached_system_drains_example :
    (k : ℕ) × (last : System) × ReceivesMany zeroed k answered last
    × (last.to_server ≡ [])
    × (last.to_client ≡ [])
    × (1 + k ≤ frames_left asked)
reached_system_drains_example =
    reached_system_drains zeroed length-zeroed 2 (omega arith) asked answered 1 asked_reached
      one_handed_on
