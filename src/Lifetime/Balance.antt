-- ===== src/Lifetime/Balance.antt =====
-- What the operations of lib/cmux allocate while they run they free again.
use cmux.Base.{ℕ, zero, suc, ◌≤◌, ◌≡◌, refl, sym, ap, ◌∙◌, arith, ltb, ◌==◌, ==_refl, ==_ne, ==_iff}
use cmux.Base.{
  Bool, true, false, Bool-cases, inl, inr, if◌then◌else◌, Option, none, some, List, [], ◌∷◌, ◌>>=◌,
}
use cmux.Request.{ServicesRequest}
use cmux.Lifetime.Blocks.{Heap, IsHeap, allocate, free, with_block}
use cmux.Lifetime.{
  send_frame_blocks, has_service_data, encode_blocks, send_request_blocks, scan_blocks, Use,
  sends_data, sends_request, takes_octets, all_requests_blocks, process_ingress_blocks, use_blocks,
  all_uses_blocks,
}

-- It returns, and the same blocks are there.
pub record Balanced (heap : Heap) (outcome : Option Heap) : Type 0 where
  pub after : Heap
  pub returns : outcome ≡ some after
  pub sound : IsHeap after
  pub later : heap.next ≤ after.next
  pub same : (p : ℕ) → after.live p ≡ heap.live p

pub nothing-Balanced : (heap : Heap) → IsHeap heap → Balanced heap (some heap)
nothing-Balanced heap h = record {
  after = heap;
  returns = refl;
  sound = h;
  later = omega arith;
  same = λ p. refl;
}

pub then-Balanced :
    (heap : Heap) (outcome : Option Heap) (next : Heap → Option Heap)
    → Balanced heap outcome
    → ((h : Heap) → IsHeap h → Balanced h (next h))
    → Balanced heap (outcome >>= next)
then-Balanced heap outcome next b c =
    let d = c b.after b.sound in
    record {
      after = d.after;
      returns = ap (λ o. o >>= next) b.returns ∙ d.returns;
      sound = d.sound;
      later = omega (arith, b.later, d.later);
      same = λ p. d.same p ∙ b.same p;
    }

pub if-Balanced :
    (b : Bool) (heap : Heap) (o o' : Option Heap)
    → Balanced heap o
    → Balanced heap o'
    → Balanced heap (if b then o else o')
if-Balanced true heap o o' h h' = h
if-Balanced false heap o o' h h' = h'

pub allocate-IsHeap : (heap : Heap) → IsHeap heap → IsHeap (allocate heap).1
allocate-IsHeap heap h = record {
  not_null = omega (arith, h.not_null);
  unused = λ p l. rw (==_ne p heap.next (λ e. omega (arith, e, l))) (h.unused p (omega (arith, l)));
}

if_same : (b : Bool) → (if b then false else false) ≡ false
if_same true = refl
if_same false = refl

given_back :
    (heap : Heap) (live : ℕ → Bool)
    → IsHeap heap
    → ((p : ℕ) → live p ≡ (allocate heap).1.live p)
    → (p : ℕ) → (if p == heap.next then false else live p) ≡ heap.live p
given_back heap live h e p = elim (Bool-cases (p == heap.next)) [
  | inl t ↦ rw t (sym (h.unused p (omega (arith, (==_iff p heap.next).0 t))))
  | inr f ↦
      let kept : (if p == heap.next then true else heap.live p) ≡ heap.live p = rw f refl in
      rw f (e p ∙ kept)
]

-- Whatever is balanced in between.
pub with_block-Balanced :
    (body : Heap → Option Heap)
    → ((h : Heap) → IsHeap h → Balanced h (body h))
    → (heap : Heap) → IsHeap heap
    → Balanced heap (with_block body heap)
unfolding free
with_block-Balanced body c heap h =
    let b = c (allocate heap).1 (allocate-IsHeap heap h) in
    let there : b.after.live heap.next ≡ true =
      b.same heap.next ∙ rw (==_refl heap.next heap.next refl) refl in
    record {
      after = record b.after { live = λ q. if q == heap.next then false else b.after.live q };
      returns = rw (b.returns, there) refl;
      sound = record {
        not_null = b.sound.not_null;
        unused = λ p l. rw (b.sound.unused p l) (if_same (p == heap.next));
      };
      later = omega (arith, b.later);
      same = given_back heap b.after.live h b.same;
    }

pub send_frame_blocks-Balanced :
    (maximum_dlci dlci : ℕ) (heap : Heap)
    → IsHeap heap
    → Balanced heap (send_frame_blocks maximum_dlci dlci heap)
unfolding send_frame_blocks
send_frame_blocks-Balanced maximum_dlci dlci heap h =
    if-Balanced (ltb maximum_dlci dlci) heap (some heap) (with_block some heap)
      (nothing-Balanced heap h) (with_block-Balanced some nothing-Balanced heap h)

encode_blocks-Balanced :
    (request : ServicesRequest) (heap : Heap)
    → IsHeap heap
    → Balanced heap (encode_blocks request heap)
unfolding encode_blocks
encode_blocks-Balanced request heap h =
    if-Balanced (has_service_data request.service) heap (with_block some heap) (some heap)
      (with_block-Balanced some nothing-Balanced heap h) (nothing-Balanced heap h)

pub send_request_blocks-Balanced :
    (maximum_dlci dlci : ℕ) (request : Option ServicesRequest) (heap : Heap)
    → IsHeap heap
    → Balanced heap (send_request_blocks maximum_dlci dlci request heap)
unfolding send_request_blocks
send_request_blocks-Balanced maximum_dlci dlci none heap h =
    send_frame_blocks-Balanced maximum_dlci dlci heap h
send_request_blocks-Balanced maximum_dlci dlci (some request) heap h =
    with_block-Balanced
      (λ octets. encode_blocks request octets >>= send_frame_blocks maximum_dlci dlci)
      (λ octets i.
        then-Balanced octets (encode_blocks request octets) (send_frame_blocks maximum_dlci dlci)
          (encode_blocks-Balanced request octets i) (send_frame_blocks-Balanced maximum_dlci dlci))
      heap h

pub scan_blocks-Balanced :
    (flags : ℕ) (heap : Heap) → IsHeap heap → Balanced heap (scan_blocks flags heap)
unfolding scan_blocks
scan_blocks-Balanced zero heap h = nothing-Balanced heap h
scan_blocks-Balanced (suc flags) heap h =
    then-Balanced heap (with_block some heap) (scan_blocks flags)
      (with_block-Balanced some nothing-Balanced heap h) (scan_blocks-Balanced flags)

all_requests_blocks-Balanced :
    (maximum_dlci : ℕ) (requests : List (ℕ × Option ServicesRequest)) (heap : Heap)
    → IsHeap heap
    → Balanced heap (all_requests_blocks maximum_dlci requests heap)
unfolding all_requests_blocks
all_requests_blocks-Balanced maximum_dlci [] heap h = nothing-Balanced heap h
all_requests_blocks-Balanced maximum_dlci ((dlci, request) ∷ requests) heap h =
    then-Balanced heap (send_request_blocks maximum_dlci dlci request heap)
      (all_requests_blocks maximum_dlci requests)
      (send_request_blocks-Balanced maximum_dlci dlci request heap h)
      (all_requests_blocks-Balanced maximum_dlci requests)

process_ingress_blocks-Balanced :
    (maximum_dlci flags : ℕ) (requests : Option (List (ℕ × Option ServicesRequest))) (heap : Heap)
    → IsHeap heap
    → Balanced heap (process_ingress_blocks maximum_dlci flags requests heap)
unfolding process_ingress_blocks
process_ingress_blocks-Balanced maximum_dlci flags none heap h = scan_blocks-Balanced flags heap h
process_ingress_blocks-Balanced maximum_dlci flags (some requests) heap h =
    then-Balanced heap (scan_blocks flags heap)
      (with_block (all_requests_blocks maximum_dlci requests)) (scan_blocks-Balanced flags heap h)
      (with_block-Balanced (all_requests_blocks maximum_dlci requests)
        (all_requests_blocks-Balanced maximum_dlci requests))

use_blocks-Balanced :
    (maximum_dlci : ℕ) (u : Use) (heap : Heap)
    → IsHeap heap
    → Balanced heap (use_blocks maximum_dlci u heap)
unfolding use_blocks
use_blocks-Balanced maximum_dlci (sends_data dlci) heap h =
    send_frame_blocks-Balanced maximum_dlci dlci heap h
use_blocks-Balanced maximum_dlci (sends_request dlci request) heap h =
    send_request_blocks-Balanced maximum_dlci dlci request heap h
use_blocks-Balanced maximum_dlci (takes_octets flags requests) heap h =
    process_ingress_blocks-Balanced maximum_dlci flags requests heap h

pub all_uses_blocks-Balanced :
    (maximum_dlci : ℕ) (uses : List Use) (heap : Heap)
    → IsHeap heap
    → Balanced heap (all_uses_blocks maximum_dlci uses heap)
all_uses_blocks-Balanced maximum_dlci [] heap h = nothing-Balanced heap h
all_uses_blocks-Balanced maximum_dlci (u ∷ uses) heap h =
    then-Balanced heap (use_blocks maximum_dlci u heap) (all_uses_blocks maximum_dlci uses)
      (use_blocks-Balanced maximum_dlci u heap h) (all_uses_blocks-Balanced maximum_dlci uses)
