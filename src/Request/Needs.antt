-- ===== src/Request/Needs.antt =====
-- How many octets the decoders of lib/cmux/services read, as lib/cmux/cmux_service_request_codec.c calls
-- them.
use cmux.Base.{ℕ, ◌≤◌, ◌<◌, ◌≡◌, refl, arith, ◌==◌, Bool-cases, inl, inr, if◌then◌else◌}
use cmux.Base.{Option, none, some, List, [], ◌∷◌, length, get_or, ◌>>=◌, read, suc, Option-cases}
use cmux.Base.Memory.{read_within, read_outside}
use cmux.Service.{
  Service, parameter_negotiation, power_saving, multiplexer_close_down, test, flow_control_on,
  flow_control_off, modem_status, unsupported, remote_port_negotiation, remote_line_status,
  service_negotiation, other,
}
use cmux.Services.ParameterNegotiation.{parameter_negotiation_decode}
use cmux.Services.ModemStatus.{modem_status_decode}
use cmux.Services.LineStatus.{line_status_decode}
use cmux.Services.ServiceNegotiation.{service_negotiation_decode}
use cmux.Services.PortNegotiation.{PortParameters, decode_settings, port_negotiation_decode}
use cmux.Request.{decode_body}

-- The number of octets that there have to be for the parameters of a service. Two decoders look at the
-- first octet for it.
abbrev pub needed : Service → List ℕ → ℕ
needed parameter_negotiation body = 8
needed modem_status body = 2
needed remote_port_negotiation body = if get_or body 0 0 == 8 then 9 else 2
needed remote_line_status body = 2
needed service_negotiation body = if get_or body 0 0 == 3 then 4 else 2
needed _ body = 0

-- With fewer octets than `n` it faults, with `n` it does not.
pub record ReadsJust {A : Type 0} (n : ℕ) (octets : List ℕ) (outcome : Option A) : Type 0 where
  pub outside : length octets < n → outcome ≡ none
  pub inside : n ≤ length octets → (a : A) × (outcome ≡ some a)

-- Whatever is made of the result.
then-ReadsJust :
    {A B : Type 0} (n : ℕ) (octets : List ℕ) (outcome : Option A) (f : A → B)
    → ReadsJust n octets outcome
    → ReadsJust n octets (outcome >>= λ a. some (f a))
then-ReadsJust n octets none f r = record {
  outside = λ h. refl;
  inside = λ h. let (a, e) = r.inside h in cc;
}
then-ReadsJust n octets (some a) f r = record {
  outside = λ h. let e = r.outside h in cc;
  inside = λ h. (f a, refl);
}

module _ {A : Type 0} (n : ℕ) (octets : List ℕ) (i : ℕ) where
  -- Another octet is read, and then more.
  read-ReadsJust :
      (f : ℕ → Option A)
      → i < n
      → ((v : ℕ) → ReadsJust n octets (f v))
      → ReadsJust n octets (read octets i >>= f)
  read-ReadsJust f h r = elim (Option-cases (read octets i)) [
    | inl e ↦ record {
      outside = λ few. rw e refl;
      inside = λ enough. let (v, e') = read_within octets i (omega (arith, h, enough)) in cc;
    }
    | inr (v, e) ↦ rw e (r v)
  ]

  -- The last octet is read.
  last-ReadsJust : (f : ℕ → A) → suc i ≡ n → ReadsJust n octets (read octets i >>= λ v. some (f v))
  last-ReadsJust f h = record {
    outside = λ few. rw (read_outside octets i (omega (arith, h, few))) refl;
    inside =
        λ enough. let (v, e) = read_within octets i (omega (arith, h, enough)) in (f v, rw e refl);
  }

parameters-ReadsJust : (octets : List ℕ) → ReadsJust 8 octets (parameter_negotiation_decode octets)
unfolding parameter_negotiation_decode
parameters-ReadsJust octets = read-ReadsJust 8 octets 0 _ (omega arith) λ o0.
    read-ReadsJust 8 octets 1 _ (omega arith) λ o1. read-ReadsJust 8 octets 2 _ (omega arith) λ o2.
      read-ReadsJust 8 octets 3 _ (omega arith) λ o3.
        read-ReadsJust 8 octets 4 _ (omega arith) λ o4.
          read-ReadsJust 8 octets 5 _ (omega arith) λ o5.
            read-ReadsJust 8 octets 6 _ (omega arith)
              λ o6. last-ReadsJust 8 octets 7 _ (omega arith)

modem-ReadsJust : (octets : List ℕ) → ReadsJust 2 octets (modem_status_decode octets)
unfolding modem_status_decode
modem-ReadsJust octets =
    read-ReadsJust 2 octets 0 _ (omega arith) λ address. last-ReadsJust 2 octets 1 _ (omega arith)

line-ReadsJust : (octets : List ℕ) → ReadsJust 2 octets (line_status_decode octets)
unfolding line_status_decode
line-ReadsJust octets =
    read-ReadsJust 2 octets 0 _ (omega arith) λ address. last-ReadsJust 2 octets 1 _ (omega arith)

settings-ReadsJust :
    (octets : List ℕ) (before : PortParameters) → ReadsJust 9 octets (decode_settings octets before)
unfolding decode_settings
settings-ReadsJust octets before = read-ReadsJust 9 octets 2 _ (omega arith) λ rate.
    read-ReadsJust 9 octets 3 _ (omega arith) λ format.
      read-ReadsJust 9 octets 4 _ (omega arith) λ signals.
        read-ReadsJust 9 octets 5 _ (omega arith) λ xon_char.
          read-ReadsJust 9 octets 6 _ (omega arith) λ xoff_char.
            read-ReadsJust 9 octets 7 _ (omega arith)
              λ pm1. last-ReadsJust 9 octets 8 _ (omega arith)

port-ReadsJust :
    (octets : List ℕ) (before : PortParameters)
    → ReadsJust
        (needed remote_port_negotiation octets)
        octets
        (port_negotiation_decode octets before)
unfolding port_negotiation_decode
port-ReadsJust [] before = record { outside = λ h. refl; inside = λ h. absurd (omega arith) }
port-ReadsJust (size ∷ octets) before = elim (Bool-cases (size == 8)) [
  | inl whole ↦ rw whole (
      read-ReadsJust 9 (size ∷ octets) 1 _ (omega arith)
        λ address. settings-ReadsJust (size ∷ octets) _)
  | inr short ↦ rw short (last-ReadsJust 2 (size ∷ octets) 1 _ (omega arith))
]

negotiation-ReadsJust :
    (octets : List ℕ)
    → ReadsJust (needed service_negotiation octets) octets (service_negotiation_decode octets)
unfolding service_negotiation_decode
negotiation-ReadsJust [] = record { outside = λ h. refl; inside = λ h. absurd (omega arith) }
negotiation-ReadsJust (size ∷ octets) = elim (Bool-cases (size == 3)) [
  | inl whole ↦ rw whole (
      read-ReadsJust 4 (size ∷ octets) 1 _ (omega arith) λ address.
        read-ReadsJust 4 (size ∷ octets) 2 _ (omega arith)
          λ service. last-ReadsJust 4 (size ∷ octets) 3 _ (omega arith))
  | inr short ↦ rw short (last-ReadsJust 2 (size ∷ octets) 1 _ (omega arith))
]

nothing-ReadsJust : {A : Type 0} (octets : List ℕ) (a : A) → ReadsJust 0 octets (some a)
nothing-ReadsJust octets a = record { outside = λ h. absurd (omega arith); inside = λ h. (a, refl) }

-- The decoder of the parameters of any service reads inside the octets behind the length just where
-- there are as many as that service needs.
pub decode_body-ReadsJust :
    (before : PortParameters) (service : Service) (body : List ℕ) (n : ℕ)
    → ReadsJust (needed service body) body (decode_body before service body n)
unfolding decode_body
decode_body-ReadsJust before parameter_negotiation body n =
    then-ReadsJust 8 body _ _ (parameters-ReadsJust body)
decode_body-ReadsJust before modem_status body n = then-ReadsJust 2 body _ _ (modem-ReadsJust body)
decode_body-ReadsJust before remote_port_negotiation body n =
    then-ReadsJust _ body _ _ (port-ReadsJust body before)
decode_body-ReadsJust before remote_line_status body n =
    then-ReadsJust 2 body _ _ (line-ReadsJust body)
decode_body-ReadsJust before service_negotiation body n =
    then-ReadsJust _ body _ _ (negotiation-ReadsJust body)
decode_body-ReadsJust before test body n = nothing-ReadsJust body _
decode_body-ReadsJust before power_saving body n = nothing-ReadsJust body _
decode_body-ReadsJust before multiplexer_close_down body n = nothing-ReadsJust body _
decode_body-ReadsJust before flow_control_on body n = nothing-ReadsJust body _
decode_body-ReadsJust before flow_control_off body n = nothing-ReadsJust body _
decode_body-ReadsJust before unsupported body n = nothing-ReadsJust body _
decode_body-ReadsJust before (other code) body n = nothing-ReadsJust body _
