-- ===== src/Services/Statuses.antt =====
-- The two services of lib/cmux/services that carry a status of one octet.
use cmux.Base.{ℕ, ◌<◌, ◌≡◌, some, List, length}
use cmux.Services.ModemStatus.{ModemStatus, modem_status_encode, modem_status_decode}
use cmux.Services.ModemStatus.{modem_status_encode_length, modem_status_decode-encode}
use cmux.Services.LineStatus.{LineStatusParameters, line_status_encode, line_status_decode}
use cmux.Services.LineStatus.{line_status_encode_length, line_status_decode-encode}

-- A modem status and a line status, with a DLCI of six bits each and a line status of four, that are
-- encoded into any blocks of the lengths that the code computes, are decoded again: every signal, the
-- status, and the DLCIs. The encoders do not leave the blocks.
pub statuses_decode-encode :
    (modem : ModemStatus) (line : LineStatusParameters) (block block' : List ℕ)
    → modem.dlci < 64
    → line.dlci < 64
    → line.status < 16
    → length block ≡ modem_status_encode_length modem
    → length block' ≡ line_status_encode_length line
    → ((octets : List ℕ) × (modem_status_encode block modem ≡ some octets)
        × (length octets ≡ modem_status_encode_length modem)
        × (modem_status_decode octets ≡ some modem))
      × ((octets : List ℕ) × (line_status_encode block' line ≡ some octets)
          × (length octets ≡ line_status_encode_length line)
          × (line_status_decode octets ≡ some line))
statuses_decode-encode modem line block block' h h' s l l' =
    (modem_status_decode-encode modem block h l, line_status_decode-encode line block' h' s l')
