-- ===== src/Services/Steady.antt =====
-- The decoders of lib/cmux/services on octets with others behind them, as they stand in a frame.
use cmux.Base.{◌==◌}
use cmux.Base.Steady.{IsSteady, some-IsSteady, read-IsSteady, if-IsSteady}
use cmux.Services.ModemStatus.{modem_status_decode}
use cmux.Services.LineStatus.{line_status_decode}
use cmux.Services.ServiceNegotiation.{service_negotiation_decode}
use cmux.Services.ParameterNegotiation.{parameter_negotiation_decode}
use cmux.Services.PortNegotiation.{PortParameters, decode_settings, port_negotiation_decode}

pub modem_status_decode-IsSteady : IsSteady modem_status_decode
unfolding modem_status_decode
modem_status_decode-IsSteady =
    read-IsSteady 0 _ λ address. read-IsSteady 1 _ λ signals. some-IsSteady _

pub line_status_decode-IsSteady : IsSteady line_status_decode
unfolding line_status_decode
line_status_decode-IsSteady = read-IsSteady 0 _ λ address. read-IsSteady 1 _ λ line. some-IsSteady _

pub service_negotiation_decode-IsSteady : IsSteady service_negotiation_decode
unfolding service_negotiation_decode
service_negotiation_decode-IsSteady = read-IsSteady 0 _ λ size. read-IsSteady 1 _ λ address.
    if-IsSteady (size == 3) _ _
      (read-IsSteady 2 _ λ service. read-IsSteady 3 _ λ codec. some-IsSteady _) (some-IsSteady _)

pub parameter_negotiation_decode-IsSteady : IsSteady parameter_negotiation_decode
unfolding parameter_negotiation_decode
parameter_negotiation_decode-IsSteady = read-IsSteady 0 _ λ o0. read-IsSteady 1 _ λ o1.
    read-IsSteady 2 _ λ o2. read-IsSteady 3 _ λ o3.
      read-IsSteady 4 _ λ o4.
        read-IsSteady 5 _ λ o5. read-IsSteady 6 _ λ o6. read-IsSteady 7 _ λ o7. some-IsSteady _

decode_settings-IsSteady :
    (before : PortParameters) → IsSteady (λ octets. decode_settings octets before)
unfolding decode_settings
decode_settings-IsSteady before = read-IsSteady 2 _ λ rate. read-IsSteady 3 _ λ format.
    read-IsSteady 4 _ λ signals. read-IsSteady 5 _ λ xon_char.
      read-IsSteady 6 _
        λ xoff_char. read-IsSteady 7 _ λ pm1. read-IsSteady 8 _ λ pm2. some-IsSteady _

pub port_negotiation_decode-IsSteady :
    (before : PortParameters) → IsSteady (λ octets. port_negotiation_decode octets before)
unfolding port_negotiation_decode
port_negotiation_decode-IsSteady before = read-IsSteady 0 _ λ size.
    read-IsSteady 1 _
      λ address. if-IsSteady (size == 8) _ _ (decode_settings-IsSteady _) (some-IsSteady _)
