-- ===== src/Lifetime.antt =====
-- The blocks that lib/cmux allocates and frees: cmux_buffer.c, cmux_client.c, cmux_server.c and
-- cmux_service_request_codec.c. What the blocks hold is in the other files.
pub mod Blocks
pub mod Balance
pub mod Five
pub mod Life
use cmux.Base.{
  ℕ, zero, suc, ltb, ◌==◌, ◌||◌, if◌then◌else◌, Bool, true, false, Option, none, some, List, [],
  ◌∷◌, ◌>>=◌,
}
use cmux.Service.{
  Service, parameter_negotiation, power_saving, multiplexer_close_down, test, flow_control_on,
  flow_control_off, modem_status, unsupported, remote_port_negotiation, remote_line_status,
  service_negotiation, other,
}
use cmux.Request.{ServicesRequest}
use cmux.Endpoint.{Options}
use cmux.Lifetime.Blocks.{Heap, null, allocate, free, with_block}

-- `struct _cmux_buffer_instance`, its address and the pointer to the memory of the ring.
pub record BufferInstance : Type 0 where
  pub address : ℕ
  pub ingress_buffer : ℕ

-- `struct _cmux_client_instance` and `struct _cmux_server_instance`, the address and the pointers.
pub record Instance : Type 0 where
  pub address : ℕ
  pub cmux_instance : BufferInstance
  pub terminal_options : ℕ
  pub terminal_statuses : ℕ

-- `cmux_buffer_init`
unfoldable pub allocate_buffer : Heap → BufferInstance × Heap
allocate_buffer heap =
    let (address, heap') = allocate heap in
    let (ingress_buffer, heap'') = allocate heap' in
    (record { address = address; ingress_buffer = ingress_buffer }, heap'')

unfoldable pub cmux_buffer_free : Heap → BufferInstance → Option Heap
cmux_buffer_free heap buffer = do heap' ← free heap buffer.ingress_buffer; free heap' buffer.address

-- `cmux_client_init` and `cmux_server_init`
unfoldable pub allocate_instance : Options → Heap → Option (Instance × Heap)
allocate_instance options heap =
    if ltb options.maximum_dlci 1
    then none
    else (let (address, with_instance) = allocate heap in
        let (terminal_options, with_options) = allocate with_instance in
        let (terminal_statuses, with_statuses) = allocate with_options in
        let (cmux_instance, with_buffer) = allocate_buffer with_statuses in
        some (
          record {
            address = address;
            cmux_instance = cmux_instance;
            terminal_options = terminal_options;
            terminal_statuses = terminal_statuses;
          },
          with_buffer,
        ))

-- `if (p != NULL) free(p)`
abbrev pub free_if : Heap → ℕ → Option Heap
free_if heap p = if p == null then some heap else free heap p

unfoldable pub cmux_client_free : Heap → Instance → Option Heap
cmux_client_free heap client = do
  without_buffer ← cmux_buffer_free heap client.cmux_instance
  without_options ← free_if without_buffer client.terminal_options
  without_statuses ← free_if without_options client.terminal_statuses
  free without_statuses client.address

unfoldable pub cmux_server_free : Heap → Instance → Option Heap
cmux_server_free heap server = do
  without_buffer ← cmux_buffer_free heap server.cmux_instance
  without_options ← free_if without_buffer server.terminal_options
  without_statuses ← free_if without_options server.terminal_statuses
  free without_statuses server.address

-- What the operations allocate while they run. `send_frame`: the frame, for the builder and the
-- interface.
unfoldable pub send_frame_blocks : ℕ → ℕ → Heap → Option Heap
send_frame_blocks maximum_dlci dlci heap =
    if ltb maximum_dlci dlci then some heap else with_block some heap

-- The services with data.
abbrev pub has_service_data : Service → Bool
has_service_data parameter_negotiation = true
has_service_data test = true
has_service_data modem_status = true
has_service_data remote_port_negotiation = true
has_service_data remote_line_status = true
has_service_data service_negotiation = true
has_service_data power_saving = false
has_service_data multiplexer_close_down = false
has_service_data flow_control_on = false
has_service_data flow_control_off = false
has_service_data unsupported = false
has_service_data (other n) = false

-- `cmux_service_request_encode`: the data of the service.
unfoldable pub encode_blocks : ServicesRequest → Heap → Option Heap
encode_blocks request heap =
    if has_service_data request.service then with_block some heap else some heap

-- `cmux_client_request` and `cmux_server_request`: the octets of the request, `none` for NULL.
unfoldable pub send_request_blocks : ℕ → ℕ → Option ServicesRequest → Heap → Option Heap
send_request_blocks maximum_dlci dlci none heap = send_frame_blocks maximum_dlci dlci heap
send_request_blocks maximum_dlci dlci (some request) heap =
    with_block (λ octets. encode_blocks request octets >>= send_frame_blocks maximum_dlci dlci) heap

-- `scan_ingress_buffer_for_valid_frame`: a copy at each flag that it comes to.
unfoldable pub scan_blocks : ℕ → Heap → Option Heap
scan_blocks zero heap = some heap
scan_blocks (suc flags) heap = with_block some heap >>= scan_blocks flags

unfoldable pub all_requests_blocks : ℕ → List (ℕ × Option ServicesRequest) → Heap → Option Heap
all_requests_blocks maximum_dlci [] heap = some heap
all_requests_blocks maximum_dlci ((dlci, request) ∷ requests) heap =
    send_request_blocks maximum_dlci dlci request heap >>= all_requests_blocks maximum_dlci requests

-- `process_ingress`, with so many flags that the search comes to and, where a frame is found, the
-- requests that are sent while it is handled.
unfoldable pub process_ingress_blocks :
    ℕ → ℕ → Option (List (ℕ × Option ServicesRequest)) → Heap → Option Heap
process_ingress_blocks maximum_dlci flags none heap = scan_blocks flags heap
process_ingress_blocks maximum_dlci flags (some requests) heap =
    scan_blocks flags heap >>= with_block (all_requests_blocks maximum_dlci requests)

-- What an endpoint is used for: data on a DLCI, a request on one, and octets that come in.
pub data Use : Type 0 where
  sends_data : ℕ → Use
  sends_request : ℕ → Option ServicesRequest → Use
  takes_octets : ℕ → Option (List (ℕ × Option ServicesRequest)) → Use

unfoldable pub use_blocks : ℕ → Use → Heap → Option Heap
use_blocks maximum_dlci (sends_data dlci) heap = send_frame_blocks maximum_dlci dlci heap
use_blocks maximum_dlci (sends_request dlci request) heap =
    send_request_blocks maximum_dlci dlci request heap
use_blocks maximum_dlci (takes_octets flags requests) heap =
    process_ingress_blocks maximum_dlci flags requests heap

abbrev pub all_uses_blocks : ℕ → List Use → Heap → Option Heap
all_uses_blocks maximum_dlci [] heap = some heap
all_uses_blocks maximum_dlci (some_use ∷ uses) heap =
    use_blocks maximum_dlci some_use heap >>= all_uses_blocks maximum_dlci uses
