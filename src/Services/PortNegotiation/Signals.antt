-- ===== src/Services/PortNegotiation/Signals.antt =====
-- The octet of the signals in the remote port negotiation of
-- lib/cmux/services/remote_parameter_negotiation.c.
use cmux.Base.{ℕ, ◌+◌, ◌≡◌, arith, bit_and, Bool, false, ◌&&◌}
use cmux.Base.{if◌then◌else◌}
use cmux.Frame.{has_bits}
use cmux.Services.PortNegotiation.{Setting, PortParameters}
use cmux.Services.PortNegotiation.Stages.{signal_octet, signals_octet}

-- The signals: a step that sets or clears a bit which is not set yet.
abbrev pub sent_signal : Setting Bool → Bool
sent_signal s = s.is_set && s.value

pub signals_sum : Bool → Bool → Bool → Bool → Bool → Bool → ℕ
signals_sum a b c d e f =
    (if a then 1 else 0)
    + (if b then 2 else 0)
    + (if c then 4 else 0)
    + (if d then 8 else 0)
    + (if e then 16 else 0)
    + (if f then 32 else 0)

signal_6 :
    (a b c d e : Bool) (s : Setting Bool)
    → signal_octet 0b00100000 s (signals_sum a b c d e false)
      ≡ signals_sum a b c d e (sent_signal s)
unfolding signals_sum
signal_6 a b c d e s = ground arith

signal_5 :
    (a b c d : Bool) (s : Setting Bool)
    → signal_octet 0b00010000 s (signals_sum a b c d false false)
      ≡ signals_sum a b c d (sent_signal s) false
unfolding signals_sum
signal_5 a b c d s = ground arith

signal_4 :
    (a b c : Bool) (s : Setting Bool)
    → signal_octet 0b00001000 s (signals_sum a b c false false false)
      ≡ signals_sum a b c (sent_signal s) false false
unfolding signals_sum
signal_4 a b c s = ground arith

signal_3 :
    (a b : Bool) (s : Setting Bool)
    → signal_octet 0b00000100 s (signals_sum a b false false false false)
      ≡ signals_sum a b (sent_signal s) false false false
unfolding signals_sum
signal_3 a b s = ground arith

signal_2 :
    (a : Bool) (s : Setting Bool)
    → signal_octet 0b00000010 s (signals_sum a false false false false false)
      ≡ signals_sum a (sent_signal s) false false false false
unfolding signals_sum
signal_2 a s = ground arith

signal_1 :
    (s : Setting Bool)
    → signal_octet 0b00000001 s 0 ≡ signals_sum (sent_signal s) false false false false false
unfolding signals_sum
signal_1 s = ground arith

pub signals_octet_sum :
    (p : PortParameters)
    → signals_octet p
      ≡ signals_sum
          (sent_signal p.flow_control.input.xon_xoff)
          (sent_signal p.flow_control.output.xon_xoff)
          (sent_signal p.flow_control.input.rtr)
          (sent_signal p.flow_control.output.rtr)
          (sent_signal p.flow_control.input.rtc)
          (sent_signal p.flow_control.output.rtc)
signals_octet_sum p = rw (signal_1, signal_2, signal_3, signal_4, signal_5, signal_6)

module _ (a b c d e f : Bool) where
  abbrev pub masked : ℕ
  masked = bit_and (signals_sum a b c d e f) 0b00111111

  pub signal_read_1 : has_bits masked 0b00000001 ≡ a
  unfolding signals_sum
  signal_read_1 = ground arith

  pub signal_read_2 : has_bits masked 0b00000010 ≡ b
  unfolding signals_sum
  signal_read_2 = ground arith

  pub signal_read_3 : has_bits masked 0b00000100 ≡ c
  unfolding signals_sum
  signal_read_3 = ground arith

  pub signal_read_4 : has_bits masked 0b00001000 ≡ d
  unfolding signals_sum
  signal_read_4 = ground arith

  pub signal_read_5 : has_bits masked 0b00010000 ≡ e
  unfolding signals_sum
  signal_read_5 = ground arith

  pub signal_read_6 : has_bits masked 0b00100000 ≡ f
  unfolding signals_sum
  signal_read_6 = ground arith
