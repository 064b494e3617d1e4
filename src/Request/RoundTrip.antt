-- ===== src/Request/RoundTrip.antt =====
-- lib/cmux/cmux_service_request_codec.c: a request that is encoded and decoded again.
use cmux.Base.{◌++◌, ap}
use cmux.Base.{ℕ, ◌<◌, ◌≡◌, refl, sym, ◌∙◌, arith, some, List, length}
use mathlib.Core.Option.{some-injective}
use cmux.Service.{cmux_service_encode_get_length}
use cmux.Service.RoundTrip.{cmux_service_decode-encode}
use cmux.Services.PortNegotiation.{PortParameters}
use cmux.Request.{ServicesRequest, cmux_service_request_decode}
use cmux.Request.{cmux_service_request_get_length, cmux_service_request_encode}
use cmux.Request.Bodies.{IsSendable, received, followed, sendable-Body}

module _ (malloc : ℕ → List ℕ) (fresh : (n : ℕ) → length (malloc n) ≡ n)
    (before : PortParameters) where
  -- A request with parameters that belong to its service and lie in their ranges goes through:
  -- encoded into a block of the length that `cmux_service_request_get_length` computes, and with
  -- anything behind it, it is decoded with the same service, the same command bit, and the parameters
  -- that `received` says; the octets of a test go on with what stands behind them.
  pub request_decode-encode :
      (request : ServicesRequest) (block : List ℕ) (size : ℕ)
      → IsSendable request.service request.service_data
      → cmux_service_request_get_length request ≡ some size
      → length block ≡ size
      → (octets : List ℕ) × (cmux_service_request_encode malloc block request ≡ some octets)
        × (length octets ≡ size)
        × ((behind : List ℕ)
            → cmux_service_request_decode before (some (octets ++ behind)) size
              ≡ some (record request {
                service_data = followed behind (received before request.service_data);
              }))
  unfolding cmux_service_request_get_length cmux_service_request_encode cmux_service_request_decode
  request_decode-encode request block size h g l =
      let b = sendable-Body malloc fresh before request.service request.service_data h in
      let e : cmux_service_encode_get_length b.n ≡ size = some-injective _ _ (rw b.measured at g) in
      let (octets, w, s, d) =
        cmux_service_decode-encode request.service request.cr b.octets block b.n b.named b.sized
          b.short (l ∙ sym e) in
      (
        octets,
        rw (b.measured, b.encoded) w,
        s ∙ e,
        λ behind.
            ap (λ k. cmux_service_request_decode before (some (octets ++ behind)) k) (sym e ∙ sym s)
            ∙ rw (d behind, b.decoded behind) refl,
      )

  -- A request that can be sent has a length, which fits the two octets of a frame's length.
  pub sendable_length :
      (request : ServicesRequest)
      → IsSendable request.service request.service_data
      → (size : ℕ) × (cmux_service_request_get_length request ≡ some size) × (size < 131)
  unfolding cmux_service_request_get_length
  sendable_length request h =
      let b = sendable-Body malloc fresh before request.service request.service_data h in
      (
        cmux_service_encode_get_length b.n,
        rw b.measured,
        unfold cmux_service_encode_get_length in ground (arith, b.short),
      )
