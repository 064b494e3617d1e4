-- ===== src/Endpoint.antt =====
-- What lib/cmux/cmux_client.h, cmux_client.c and lib/cmux/cmux_server.h, cmux_server.c have in
-- common, word for word: the state of an endpoint of the link, and how it sends a frame. A read or
-- a write outside a block of memory is `none`.
pub mod State
pub mod Sending
pub mod Requests
pub mod Callbacks
use cmux.Base.{ℕ, u16, Bool, true, false, ltb, ◌==◌, if◌then◌else◌, Option, none, some, List, []}
use cmux.Base.{◌∷◌, ◌++◌, ◌>>=◌, read, write, replicate, pos}
use cmux.Frame.{ControlType, other, control_code, FrameInfo, BuilderFrameInfo}
use cmux.Frame.Builder.{builder_frame_length, cmux_frame_builder}
use cmux.Service.{Service, service_code}
use cmux.Services.PortNegotiation.{PortParameters, Setting, Flow, FlowControl, odd_parity}
use cmux.Request.{ServicesRequest, cmux_service_request_get_length, cmux_service_request_encode}

-- `struct cmux_client_terminal_options_t`: of each callback, whether it is there.
pub record TerminalOptions : Type 0 where
  pub on_terminal_data : Bool
  pub on_terminal_open : Bool
  pub on_terminal_close : Bool

-- `struct cmux_client_options_t`. The callback that sends is called without a test.
pub record Options : Type 0 where
  pub on_event : Bool
  pub on_start : Bool
  pub on_stop : Bool
  pub maximum_dlci : ℕ

-- `struct _cmux_client_instance`, but for the ring buffer, which is a state of its own: the two
-- arrays hold the options and the last frame that was sent, for each DLCI.
pub record Endpoint : Type 0 where
  pub options : Options
  pub terminal_options : List TerminalOptions
  pub terminal_statuses : List BuilderFrameInfo

-- The callbacks as they are called, with their arguments. What they do is not part of the code.
pub data Call : Type 0 where
  sent_to_interface : List ℕ → Call
  event : FrameInfo → Option ServicesRequest → BuilderFrameInfo → Call
  started stopped : Call
  terminal_opened terminal_closed : ℕ → Call
  terminal_received : ℕ → List ℕ → ℕ → Call

-- An operation: the endpoint behind it and the calls that it makes, in their order.
abbrev pub Outcome : Type 0
Outcome = Option (Endpoint × List Call)

-- The calls of an operation, with others made before it.
abbrev pub after : List Call → Outcome → Outcome
after calls none = none
after calls (some (endpoint, more)) = some (endpoint, calls ++ more)

-- `if (f != NULL) f(...)`
abbrev pub call_if : Bool → Call → List Call
call_if given call = if given then call ∷ [] else []

-- `type == ...` and `service == ...`, on the values of the enums
abbrev pub has_type : ControlType → ControlType → Bool
has_type t expected = control_code t == control_code expected

abbrev pub has_service : Service → Service → Bool
has_service s expected = service_code s == service_code expected

-- What `memset` and `{0}` leave.
abbrev pub no_terminal_options : TerminalOptions
no_terminal_options = record {
  on_terminal_data = false;
  on_terminal_open = false;
  on_terminal_close = false;
}

abbrev pub no_frame : BuilderFrameInfo
no_frame = record {
  ea = false;
  cr = false;
  dlci = 0;
  type = other 0;
  poll_final = false;
  length = 0;
  frame_data_body = none;
}

abbrev pub unset : Setting ℕ
unset = record { value = 0; is_set = false }

abbrev pub no_flow : Flow
no_flow =
    let off : Setting Bool = record { value = false; is_set = false } in
    record { xon_xoff = off; rtr = off; rtc = off }

-- The union of a zeroed request, read as port parameters.
abbrev pub no_port : PortParameters
no_port = record {
  dlci = 0;
  speed = unset;
  data_bits = unset;
  stop_bits = unset;
  parity = record { value = odd_parity; is_set = false };
  flow_control = record { xon = unset; xoff = unset; input = no_flow; output = no_flow };
}

-- `cmux_client_init` and `cmux_server_init`; none for NULL.
unfoldable pub init : Options → Option Endpoint
init options =
    if ltb options.maximum_dlci 1
    then none
    else some (record {
      options = options;
      terminal_options = replicate options.maximum_dlci no_terminal_options;
      terminal_statuses = replicate options.maximum_dlci no_frame;
    })

-- `update_terminal_options`, with `none` for NULL
unfoldable pub update_terminal_options : Endpoint → ℕ → Option TerminalOptions → Option Endpoint
update_terminal_options endpoint dlci none = do
  updated ← write endpoint.terminal_options dlci no_terminal_options
  some (record endpoint { terminal_options = updated })
update_terminal_options endpoint dlci (some given) = do
  updated ← write endpoint.terminal_options dlci given
  some (record endpoint { terminal_options = updated })

module _ (malloc : ℕ → List ℕ) where
  unfoldable pub send_frame : Endpoint → BuilderFrameInfo → Outcome
  send_frame endpoint info =
      if ltb endpoint.options.maximum_dlci info.dlci then some (endpoint, []) else (do
        statuses ← write endpoint.terminal_statuses info.dlci info
        frame ← cmux_frame_builder info (malloc (builder_frame_length info.length))
        some (record endpoint { terminal_statuses = statuses }, sent_to_interface frame ∷ []))

  -- `cmux_client_request` with 1 for the poll/final bit, and `cmux_server_send`; none for NULL. The
  -- length goes into a uint16_t. The frame that is remembered keeps its pointer to the octets of the
  -- request, which the C code frees behind the call; nothing in the library reads through it.
  unfoldable pub send_request : Endpoint → Bool → ℕ → ControlType → Option ServicesRequest → Outcome
  send_request endpoint poll_final dlci type none = send_frame endpoint (record {
    ea = true;
    cr = true;
    dlci = dlci;
    type = type;
    poll_final = poll_final;
    length = 0;
    frame_data_body = none;
  })
  send_request endpoint poll_final dlci type (some request) = do
    request_length ← cmux_service_request_get_length request
    request_octets ← cmux_service_request_encode malloc (malloc request_length) request
    send_frame endpoint (record {
      ea = true;
      cr = true;
      dlci = dlci;
      type = type;
      poll_final = poll_final;
      length = u16 request_length;
      frame_data_body = some request_octets;
    })

  -- `cmux_client_terminal_send` and `cmux_server_terminal_send`, which differ in the bit `cr`: the
  -- octets behind the pointer, and the length, which goes into a uint16_t.
  unfoldable pub send_data : Endpoint → Bool → ℕ → List ℕ → ℕ → Outcome
  send_data endpoint cr dlci data_octets len = send_frame endpoint (record {
    ea = true;
    cr = cr;
    dlci = dlci;
    type = ControlType.uih;
    poll_final = false;
    length = u16 len;
    frame_data_body = some data_octets;
  })
