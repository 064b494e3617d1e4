-- ===== src/Request/Bodies.antt =====
-- lib/cmux/cmux_service_request_codec.c: the parameters of a request, encoded and decoded again.
use cmux.Base.{◌++◌}
use cmux.Base.{ℕ, ◌*◌, ◌/◌, ◌<◌, ◌≡◌, refl, sym, arith, some, List, [], length}
use cmux.Base.Memory.{slice_whole, copy_in_over}
use mathlib.Core.List.{append-nil}
use cmux.Service.{Service}
use cmux.Service.RoundTrip.{IsNamed}
use cmux.Services.Steady.{
  modem_status_decode-IsSteady, line_status_decode-IsSteady, service_negotiation_decode-IsSteady,
  parameter_negotiation_decode-IsSteady, port_negotiation_decode-IsSteady,
}
use cmux.Services.ModemStatus.{modem_status_decode-encode, modem_status_encode_length}
use cmux.Services.LineStatus.{line_status_decode-encode, line_status_encode_length}
use cmux.Services.ServiceNegotiation.{IsValue, sent, service_negotiation_decode-encode}
use cmux.Services.ServiceNegotiation.{service_negotiation_encode_length}
use cmux.Services.ParameterNegotiation.{IsInRange, parameter_negotiation_decode-encode}
use cmux.Services.ParameterNegotiation.{parameter_negotiation_encode_length}
use cmux.Services.PortNegotiation.{PortParameters}
use cmux.Services.PortNegotiation.Encode.{port_negotiation_encode_length}
use cmux.Services.PortNegotiation.RoundTrip.{received_port, port_negotiation_decode-encode}
use cmux.Request.{ServiceData, nothing, parameters, modem, port, line, negotiation, test_data}
use cmux.Request.{decode_body, data_length}
use cmux.Request.{encode_body}

-- The parameters belong to the service, and lie in the ranges that their codes have room for.
abbrev pub IsSendable : Service → ServiceData → Type 0
IsSendable Service.parameter_negotiation (parameters p) = IsInRange p
IsSendable Service.test (test_data t) = (length t.octets ≡ t.length) × (t.length < 128)
IsSendable Service.modem_status (modem status) = status.dlci < 64
IsSendable Service.remote_port_negotiation (port p) = p.dlci < 64
IsSendable Service.remote_line_status (line status) = (status.dlci < 64) × (status.status < 16)
IsSendable Service.service_negotiation (negotiation p) =
    (p.dlci < 64) × IsValue p.service × IsValue p.voice_codec
IsSendable Service.power_saving nothing = Unit
IsSendable Service.multiplexer_close_down nothing = Unit
IsSendable Service.flow_control_on nothing = Unit
IsSendable Service.flow_control_off nothing = Unit
IsSendable Service.unsupported nothing = Unit
IsSendable _ _ = ⊥

-- What the peer makes of the parameters.
abbrev pub received : PortParameters → ServiceData → ServiceData
received before (parameters p) =
    parameters (record p { ack_timer_msec = p.ack_timer_msec / 100 * 100 })
received before (port p) = port (received_port p before)
received before (negotiation p) = negotiation (sent p)
received before content = content

-- The octets of a test, from the pointer on, with what stands behind them.
abbrev pub followed : List ℕ → ServiceData → ServiceData
followed behind (test_data t) = test_data (record t { octets = t.octets ++ behind })
followed behind content = content

module _ (malloc : ℕ → List ℕ) (fresh : (n : ℕ) → length (malloc n) ≡ n)
    (before : PortParameters) where
  -- The octets of the parameters and what is read from them.
  pub record Body (service : Service) (content : ServiceData) : Type 0 where
    pub octets : List ℕ
    pub n : ℕ
    pub measured : data_length service content ≡ some n
    pub encoded : encode_body malloc service content ≡ some octets
    pub sized : length octets ≡ n
    pub short : n < 128
    pub named : IsNamed service
    pub decoded :
        (behind : List ℕ)
        → decode_body before service (octets ++ behind) n
          ≡ some (followed behind (received before content))

  bare-Body :
      (service : Service)
      → IsNamed service
      → data_length service nothing ≡ some 0
      → encode_body malloc service nothing ≡ some []
      → ((behind : List ℕ) → decode_body before service behind 0 ≡ some nothing)
      → Body service nothing
  bare-Body service named measured encoded decoded = record {
    octets = [];
    n = 0;
    measured = measured;
    encoded = encoded;
    sized = refl;
    short = omega arith;
    named = named;
    decoded = decoded;
  }

  pub sendable-Body :
      (service : Service) (content : ServiceData)
      → IsSendable service content
      → Body service content
  unfolding data_length encode_body decode_body
  sendable-Body Service.modem_status (modem status) h =
      let (octets, e, l, d) =
        modem_status_decode-encode status (malloc (modem_status_encode_length status)) h
          (fresh _) in
      record {
        octets = octets;
        n = modem_status_encode_length status;
        measured = refl;
        encoded = e;
        sized = l;
        short = unfold modem_status_encode_length in omega arith;
        named = tt;
        decoded = λ behind. rw (modem_status_decode-IsSteady octets behind _ d) refl;
      }
  sendable-Body Service.remote_line_status (line status) h =
      let (octets, e, l, d) =
        line_status_decode-encode status (malloc (line_status_encode_length status)) h.0 h.1
          (fresh _) in
      record {
        octets = octets;
        n = line_status_encode_length status;
        measured = refl;
        encoded = e;
        sized = l;
        short = unfold line_status_encode_length in omega arith;
        named = tt;
        decoded = λ behind. rw (line_status_decode-IsSteady octets behind _ d) refl;
      }
  sendable-Body Service.parameter_negotiation (parameters p) h =
      let (octets, e, l, d) =
        parameter_negotiation_decode-encode p (malloc (parameter_negotiation_encode_length p)) h
          (fresh _) in
      record {
        octets = octets;
        n = parameter_negotiation_encode_length p;
        measured = refl;
        encoded = e;
        sized = l;
        short = unfold parameter_negotiation_encode_length in omega arith;
        named = tt;
        decoded = λ behind. rw (parameter_negotiation_decode-IsSteady octets behind _ d) refl;
      }
  sendable-Body Service.service_negotiation (negotiation p) h =
      let (octets, e, l, d) =
        service_negotiation_decode-encode p (malloc (service_negotiation_encode_length p)) h.0 h.1
          h.2 (fresh _) in
      record {
        octets = octets;
        n = service_negotiation_encode_length p;
        measured = refl;
        encoded = e;
        sized = l;
        short = unfold service_negotiation_encode_length in ground arith;
        named = tt;
        decoded = λ behind. rw (service_negotiation_decode-IsSteady octets behind _ d) refl;
      }
  sendable-Body Service.remote_port_negotiation (port p) h =
      let (octets, e, l, d) =
        port_negotiation_decode-encode p before (malloc (port_negotiation_encode_length p)) h
          (fresh _) in
      record {
        octets = octets;
        n = port_negotiation_encode_length p;
        measured = refl;
        encoded = e;
        sized = l;
        short = unfold port_negotiation_encode_length in ground arith;
        named = tt;
        decoded = λ behind. rw (port_negotiation_decode-IsSteady before octets behind _ d) refl;
      }
  sendable-Body Service.test (test_data t) h = record {
    octets = t.octets;
    n = t.length;
    measured = refl;
    encoded = rw (
      slice_whole t.octets t.length (sym h.0),
      ← append-nil (malloc t.length),
      copy_in_over (malloc t.length) t.octets [] (omega (arith, fresh t.length)),
      append-nil t.octets,
    );
    sized = h.0;
    short = h.1;
    named = tt;
    decoded = λ behind. refl;
  }
  sendable-Body Service.power_saving nothing h =
      bare-Body Service.power_saving tt refl refl λ behind. refl
  sendable-Body Service.multiplexer_close_down nothing h =
      bare-Body Service.multiplexer_close_down tt refl refl λ behind. refl
  sendable-Body Service.flow_control_on nothing h =
      bare-Body Service.flow_control_on tt refl refl λ behind. refl
  sendable-Body Service.flow_control_off nothing h =
      bare-Body Service.flow_control_off tt refl refl λ behind. refl
  sendable-Body Service.unsupported nothing h =
      bare-Body Service.unsupported tt refl refl λ behind. refl
  sendable-Body _ _ h = absurd h
