-- ===== src/Link/Acts.antt =====
-- What a user may ask of the two ends of a link, lib/cmux/cmux_client.c and lib/cmux/cmux_server.c:
-- each operation returns, and sends frames that belong on the link.
pub mod OfClient
pub mod OfServer
use cmux.Base.{ℕ, ◌≤◌, ◌<◌, ◌≡◌, refl, arith, u16, ◌%◌, ◌^◌}
use cmux.Base.{Bool, false, Option, some, List, length}
use cmux.Frame.{ControlType, is_ui}
use cmux.Frame.Octets.{IsNamed}
use cmux.Request.{ServicesRequest, nothing, cmux_service_request_get_length, data_length}
use cmux.Service.{multiplexer_close_down, cmux_service_encode_get_length}
use cmux.Endpoint.{Endpoint, send_data}
use cmux.Endpoint.Requests.{data_frame, data-Sends}
use cmux.Link.Frames.{IsEndpoint, Runs, IsShort, Sends-Runs}

-- Data for a terminal, in a frame with one length octet.
abbrev pub IsData : ℕ → ℕ → List ℕ → ℕ → Type 0
IsData m dlci octets len = (1 ≤ dlci) × (dlci < m) × (len ≡ length octets) × (len < 128)

-- A command or a request of one of the named types but UI.
abbrev pub IsAsked : ℕ → ℕ → ControlType → Option ServicesRequest → Type 0
IsAsked m dlci type content = (dlci < m) × IsNamed type × (is_ui type ≡ false) × IsShort content

-- The request to close down is short.
pub close_down-IsShort :
    (cr : Bool)
    → IsShort (some (record { service = multiplexer_close_down; cr = cr; service_data = nothing }))
unfolding cmux_service_request_get_length data_length cmux_service_encode_get_length
close_down-IsShort cr = (tt, (2, refl, omega arith))

pub data-Runs :
    (malloc : ℕ → List ℕ) (fresh : (n : ℕ) → length (malloc n) ≡ n) (m : ℕ) (endpoint : Endpoint)
    (cr : Bool) (dlci : ℕ) (octets : List ℕ) (len : ℕ)
    → m ≤ 64
    → IsEndpoint m endpoint
    → IsData m dlci octets len
    → Runs m 1 (send_data malloc endpoint cr dlci octets len)
data-Runs malloc fresh m endpoint cr dlci octets len few e (positive, h, same, small) = rw same (
    Sends-Runs m endpoint (data_frame cr dlci octets) octets _ e
      (record {
        dlci_fits = omega arith;
        named = tt;
        not_ui = refl;
        short = omega arith;
        bodied = (refl, refl);
      })
      h (λ behind zero_dlci some_data. absurd (omega arith))
      (data-Sends malloc fresh endpoint e.well_formed cr dlci octets (omega (arith, e.maximum))
        (omega arith)))
