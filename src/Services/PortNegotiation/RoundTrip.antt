-- ===== src/Services/PortNegotiation/RoundTrip.antt =====
-- The remote port negotiation of lib/cmux/services/remote_parameter_negotiation.c read back.
use cmux.Base.{ℕ, ◌<◌, ◌≡◌, arith, ◌>>>◌, Bool, true, false, if◌then◌else◌, some, List, [], ◌∷◌}
use cmux.Base.{length, Bool-cases, inl, inr}
use cmux.Services.Address.{dlci_octet, dlci_octet_shifted}
use cmux.Services.PortNegotiation.{Setting, PortParameters, decode_settings}
use cmux.Services.PortNegotiation.{port_negotiation_decode}
use cmux.Services.PortNegotiation.Encode.{port_negotiation_has_changes, port_negotiation_encode}
use cmux.Services.PortNegotiation.Encode.{port_negotiation_encode_length}
use cmux.Services.PortNegotiation.Stages.{
  settings_octets, encode_settings_lem, bits_octet, char_octet,
}
use cmux.Services.PortNegotiation.Bits.{sent_speed, sent_bits, sent_stop, sent_parity, mark_speed}
use cmux.Services.PortNegotiation.Bits.{mark_bits, mark_stop, mark_parity_set, mark_xon, mark_xoff}
use cmux.Services.PortNegotiation.Bits.{
  flow_mark_1, flow_mark_2, flow_mark_3, flow_mark_4, flow_mark_5,
}
use cmux.Services.PortNegotiation.Bits.{
  flow_mark_6, speed_read, bits_read, format_bits, format_stop,
}
use cmux.Services.PortNegotiation.Bits.{format_parity, bits_octet-IsTwoBits}
use cmux.Services.PortNegotiation.Signals.{
  sent_signal, signals_octet_sum, signal_read_1, signal_read_2,
}
use cmux.Services.PortNegotiation.Signals.{
  signal_read_3, signal_read_4, signal_read_5, signal_read_6,
}

abbrev pub sent_flag : Setting Bool → Setting Bool
sent_flag s = record { value = sent_signal s; is_set = s.is_set }

-- What a peer reads of parameters in which something is set: what is not set, or has no code,
-- comes as the default.
abbrev pub sent_port : PortParameters → PortParameters
sent_port p =
    let flow = p.flow_control in
    record {
      dlci = p.dlci;
      speed = record { value = sent_speed p.speed; is_set = p.speed.is_set };
      data_bits = record { value = sent_bits p.data_bits; is_set = p.data_bits.is_set };
      stop_bits = record { value = sent_stop p.stop_bits; is_set = p.stop_bits.is_set };
      parity = record { value = sent_parity p.parity; is_set = p.parity.is_set };
      flow_control = record {
        xon = record { value = char_octet 0x11 flow.xon; is_set = flow.xon.is_set };
        xoff = record { value = char_octet 0x13 flow.xoff; is_set = flow.xoff.is_set };
        input = record {
          xon_xoff = sent_flag flow.input.xon_xoff;
          rtr = sent_flag flow.input.rtr;
          rtc = sent_flag flow.input.rtc;
        };
        output = record {
          xon_xoff = sent_flag flow.output.xon_xoff;
          rtr = sent_flag flow.output.rtr;
          rtc = sent_flag flow.output.rtc;
        };
      };
    }

decode_settings_lem :
    (p before : PortParameters) (o0 o1 : ℕ)
    → before.dlci ≡ p.dlci
    → decode_settings (o0 ∷ o1 ∷ settings_octets p) before ≡ some (sent_port p)
unfolding decode_settings
decode_settings_lem p before o0 o1 e = rw (
  speed_read p.speed before.speed.value,
  format_bits p.stop_bits p.parity (bits_octet p.data_bits 0) (bits_octet-IsTwoBits p.data_bits),
  format_stop p.stop_bits p.parity (bits_octet p.data_bits 0) (bits_octet-IsTwoBits p.data_bits),
  format_parity p.stop_bits p.parity (bits_octet p.data_bits 0) (bits_octet-IsTwoBits p.data_bits)
      before.parity.value,
  bits_read p.data_bits before.data_bits.value,
  mark_speed,
  mark_bits,
  mark_stop,
  mark_parity_set,
  mark_xon,
  mark_xoff,
  flow_mark_1,
  flow_mark_2,
  flow_mark_3,
  flow_mark_4,
  flow_mark_5,
  flow_mark_6,
  signals_octet_sum p,
  signal_read_1,
  signal_read_2,
  signal_read_3,
  signal_read_4,
  signal_read_5,
  signal_read_6,
  e,
)

-- What the decoder makes of it: all of the parameters, or the DLCI alone where nothing is set.
abbrev pub received_port : PortParameters → PortParameters → PortParameters
received_port p before =
    if port_negotiation_has_changes p then sent_port p else record before { dlci = p.dlci }

encode_changed :
    (p before : PortParameters) (block : List ℕ)
    → p.dlci < 64
    → port_negotiation_has_changes p ≡ true
    → length block ≡ 9
    → (port_negotiation_encode block p ≡ some (8 ∷ dlci_octet p.dlci ∷ settings_octets p))
      × (port_negotiation_decode (8 ∷ dlci_octet p.dlci ∷ settings_octets p) before
          ≡ some (sent_port p))
unfolding port_negotiation_encode port_negotiation_decode
encode_changed p before (a ∷ b ∷ c ∷ d ∷ e ∷ f ∷ g ∷ h ∷ i ∷ []) fits set l = (
  rw (set, encode_settings_lem p),
  decode_settings_lem p (record before { dlci = dlci_octet p.dlci >>> 2 }) 8 (dlci_octet p.dlci)
      (dlci_octet_shifted p.dlci fits),
)
encode_changed p before _ fits set l = absurd (omega arith)

encode_unchanged :
    (p before : PortParameters) (block : List ℕ)
    → p.dlci < 64
    → port_negotiation_has_changes p ≡ false
    → length block ≡ 2
    → (port_negotiation_encode block p ≡ some (1 ∷ dlci_octet p.dlci ∷ []))
      × (port_negotiation_decode (1 ∷ dlci_octet p.dlci ∷ []) before
          ≡ some (record before { dlci = p.dlci }))
unfolding port_negotiation_encode port_negotiation_decode
encode_unchanged p before (a ∷ b ∷ []) fits unset l =
    (rw unset, rw (dlci_octet_shifted p.dlci fits))
encode_unchanged p before _ fits unset l = absurd (omega arith)

-- What is encoded into any block of the length that the code computes is decoded, whatever the
-- decoder's parameters were before, as `received_port` says: where anything is set, every mark is
-- found again, and every value that is set and has a code, the others as their defaults; where
-- nothing is set, the DLCI alone changes. The encoder does not leave the block.
pub port_negotiation_decode-encode :
    (p before : PortParameters) (block : List ℕ)
    → p.dlci < 64
    → length block ≡ port_negotiation_encode_length p
    → (octets : List ℕ) × (port_negotiation_encode block p ≡ some octets)
      × (length octets ≡ port_negotiation_encode_length p)
      × (port_negotiation_decode octets before ≡ some (received_port p before))
unfolding port_negotiation_encode_length
port_negotiation_decode-encode p before block fits l =
    elim (Bool-cases (port_negotiation_has_changes p)) [
      | inl set ↦
          let (e, d) = encode_changed p before block fits set (rw set at l) in
          (8 ∷ dlci_octet p.dlci ∷ settings_octets p, e, rw set, rw set d)
      | inr unset ↦
          let (e, d) = encode_unchanged p before block fits unset (rw unset at l) in
          (1 ∷ dlci_octet p.dlci ∷ [], e, rw unset, rw unset d)
    ]
