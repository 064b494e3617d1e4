-- ===== src/Service/RoundTrip.antt =====
-- lib/cmux/cmux_service_codec.c: what is encoded and decoded again.
use cmux.Base.{◌++◌}
use cmux.Base.{
  ℕ, suc, ◌+◌, ◌*◌, ◌≤◌, ◌<◌, ◌≡◌, refl, sym, arith, ◌<<◌, ◌>>>◌, bit_and, bit_or, u8, Bool, true,
  false,
}
use cmux.Base.{ltb, lt→ltb, le→not_ltb, ==_ne, ◌==◌, if◌then◌else◌, some, List, [], ◌∷◌, length}
use cmux.Base.{Bool-cases, inl, inr}
use cmux.Base.Memory.{slice_whole, copy_in_over}
use cmux.Base.Bits.{bit_and_1}
use cmux.Base.Tables.{all_below, eq_below}
use mathlib.Core.List.{append-nil}
use cmux.Frame.{has_bits, is_extended}
use cmux.Frame.Octets.{low_octet, high_octet, low_octet-is_extended, extended_length_octets}
use cmux.Frame.LongFrames.{misread_length}
use cmux.Service.{Service, parameter_negotiation}
use cmux.Service.{other, service_type}
use cmux.Service.{service_mask, service_octet, cmux_service_decode}
use cmux.Service.{cmux_service_encode_get_length, cmux_service_encode}

-- The services that `enum CMUX_SERVICE` names.
abbrev pub IsNamed : Service → Type 0
IsNamed (other n) = ⊥
IsNamed _ = Unit

service_octet_type :
    (s : Service) (cr : Bool)
    → IsNamed s
    → service_type (bit_and (service_octet s cr) service_mask) ≡ s
unfolding service_type
service_octet_type parameter_negotiation true h = refl
service_octet_type parameter_negotiation false h = refl
service_octet_type (other n) cr h = absurd h
service_octet_type _ true h = refl
service_octet_type _ false h = refl

service_octet_cr : (s : Service) (cr : Bool) → IsNamed s → has_bits (service_octet s cr) 0x02 ≡ cr
service_octet_cr parameter_negotiation true h = refl
service_octet_cr parameter_negotiation false h = refl
service_octet_cr (other n) cr h = absurd h
service_octet_cr _ true h = refl
service_octet_cr _ false h = refl

abbrev size_octet : ℕ → ℕ
size_octet n = u8 (bit_or (n << 1) 0x01)

size_table : all_below 128 (λ n. size_octet n == 2 * n + 1) ≡ true
unfolding all_below
size_table = refl

size_octet_sum : (n : ℕ) → n < 128 → size_octet n ≡ 2 * n + 1
size_octet_sum n h = eq_below 128 (λ n. size_octet n) (λ n. 2 * n + 1) size_table n h

size_octet-is_extended : (n : ℕ) → n < 128 → is_extended (size_octet n) ≡ false
size_octet-is_extended n h = ground (arith, size_octet_sum n h, bit_and_1 (size_octet n))

-- The octets of a message.
abbrev pub message_octets : Service → Bool → List ℕ → ℕ → List ℕ
message_octets service cr body n =
    service_octet service cr
    ∷ (if ltb 127 n then low_octet n ∷ high_octet n ∷ body else size_octet n ∷ body)

encode_short :
    (service : Service) (cr : Bool) (body block : List ℕ) (n : ℕ)
    → length body ≡ n
    → n < 128
    → length block ≡ 2 + n
    → cmux_service_encode block service cr body n ≡ some (message_octets service cr body n)
unfolding cmux_service_encode
encode_short service cr body (x ∷ y ∷ old) n e h l = rw (
  slice_whole body n (sym e),
  le→not_ltb n 127 (omega arith),
  ← append-nil old,
  copy_in_over old body [] (omega arith),
  append-nil body,
)
encode_short service cr body _ n e h l = absurd (omega arith)

encode_long :
    (service : Service) (cr : Bool) (body block : List ℕ) (n : ℕ)
    → length body ≡ n
    → 127 < n
    → length block ≡ 3 + n
    → cmux_service_encode block service cr body n ≡ some (message_octets service cr body n)
unfolding cmux_service_encode
encode_long service cr body (x ∷ y ∷ z ∷ old) n e h l = rw (
  slice_whole body n (sym e),
  lt→ltb 127 n h,
  ← append-nil old,
  copy_in_over old body [] (omega arith),
  append-nil body,
)
encode_long service cr body _ n e h l = absurd (omega arith)

-- Into a block of the length that `cmux_service_encode_get_length` computes, the encoder writes
-- the type, the length and the body, and nothing outside.
pub cmux_service_encode_octets :
    (service : Service) (cr : Bool) (body block : List ℕ) (n : ℕ)
    → length body ≡ n
    → length block ≡ cmux_service_encode_get_length n
    → cmux_service_encode block service cr body n ≡ some (message_octets service cr body n)
unfolding cmux_service_encode_get_length
cmux_service_encode_octets service cr body block n e l = elim (Bool-cases (ltb 127 n)) [
  | inl long ↦ encode_long service cr body block n e (ground arith) (rw long at l)
  | inr short ↦ encode_short service cr body block n e (ground arith) (rw short at l)
]

-- A message with a body of at most 127 octets is decoded again, whatever stands behind it: the
-- service, the command bit, and a body that starts and ends where the body that went in does.
pub cmux_service_decode-encode :
    (service : Service) (cr : Bool) (body block : List ℕ) (n : ℕ)
    → IsNamed service
    → length body ≡ n
    → n < 128
    → length block ≡ cmux_service_encode_get_length n
    → (octets : List ℕ) × (cmux_service_encode block service cr body n ≡ some octets)
      × (length octets ≡ cmux_service_encode_get_length n)
      × ((behind : List ℕ)
          → cmux_service_decode (some (octets ++ behind)) (length octets)
            ≡ some (record {
              service = service;
              cr = cr;
              service_body = body ++ behind;
              service_body_length = n;
            }))
unfolding cmux_service_decode cmux_service_encode_get_length
cmux_service_decode-encode service cr body block n named e h l =
    let short : ltb 127 n ≡ false = le→not_ltb n 127 (omega arith) in
    let half : size_octet n >>> 1 ≡ n = omega (arith, size_octet_sum n h) in
    (
      message_octets service cr body n,
      cmux_service_encode_octets service cr body block n e l,
      rw short (omega (arith, e)),
      λ behind. rw (
        short,
        ==_ne (suc (suc (length body))) 0 (omega arith),
        size_octet-is_extended n h,
        service_octet_type service cr named,
        service_octet_cr service cr named,
        half,
      ),
    )

-- Of a message of a named service with a body of 128 to 32767 octets, the decoder finds the type, but takes the body
-- to be `misread_length` octets long, past the end of the message.
pub cmux_service_decode_long :
    (service : Service) (cr : Bool) (body : List ℕ) (n : ℕ)
    → IsNamed service
    → length body ≡ n
    → 127 < n
    → n < 32768
    → (cmux_service_decode (some (message_octets service cr body n)) (length body + 3)
        ≡ some (record {
          service = service;
          cr = cr;
          service_body = body;
          service_body_length = misread_length n;
        }))
      × (length body + 128 ≤ misread_length n)
unfolding cmux_service_decode
cmux_service_decode_long service cr body n named e h k = (
  rw (
    lt→ltb 127 n h,
    ==_ne (length body + 3) 0 (omega arith),
    low_octet-is_extended n,
    extended_length_octets n,
    service_octet_type service cr named,
    service_octet_cr service cr named,
  ),
  omega arith,
)
