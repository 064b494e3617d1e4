-- ===== src/Lifetime/Life.antt =====
-- The life of a client and of a server of lib/cmux, from their init to their free, in blocks.
use cmux.Base.{ℕ, ◌+◌, ◌≤◌, ◌<◌, ◌≡◌, refl, ◌∙◌, arith, le→not_ltb, ◌==◌}
use cmux.Base.{true, false, if◌then◌else◌, Option, none, some, List}
use cmux.Endpoint.{Options}
use cmux.Lifetime.Blocks.{Heap, IsHeap, free}
use cmux.Lifetime.Balance.{all_uses_blocks-Balanced}
use cmux.Lifetime.{
  Instance, allocate_buffer, cmux_buffer_free, allocate_instance, cmux_client_free,
  cmux_server_free, Use, all_uses_blocks,
}
use cmux.Lifetime.Five.{
  with_five, with_five-IsHeap, second, third, fourth, fifth, five, FiveLive, all_released,
  frees_all, all_released_same,
}

pub record FreesAll (free_instance : Heap → Instance → Option Heap) (options : Options)
    (uses : List Use) (heap : Heap) : Type 0 where
  pub pointer : Instance
  pub at_first : Heap
  pub begins : allocate_instance options heap ≡ some (pointer, at_first)
  pub used : Heap
  pub runs : all_uses_blocks options.maximum_dlci uses at_first ≡ some used
  pub left : Heap
  pub frees : free_instance used pointer ≡ some left
  pub same : (p : ℕ) → left.live p ≡ heap.live p
  pub once : free_instance left pointer ≡ none

begun :
    (options : Options) (heap : Heap)
    → 1 ≤ options.maximum_dlci
    → allocate_instance options heap ≡ some (five heap.next, with_five heap)
unfolding allocate_instance allocate_buffer five with_five
begun options heap l = rw (le→not_ltb 1 options.maximum_dlci l) refl

freed_once :
    (heap : Heap) (n : ℕ) → heap.live (fifth n) ≡ false → cmux_client_free heap (five n) ≡ none
unfolding cmux_client_free cmux_buffer_free free five
freed_once heap n e = rw e refl

with_five_live :
    (heap : Heap) (p : ℕ)
    → (with_five heap).live p ≡ (
        let n = heap.next in
        if p == fifth n
        then true
        else (if p == fourth n
            then true
            else (if p == third n
                then true
                else (if p == second n then true else (if p == n then true else heap.live p)))))
unfolding with_five
with_five_live heap p = refl

five_live :
    (heap used : Heap) → ((p : ℕ) → used.live p ≡ (with_five heap).live p) → FiveLive used heap.next
five_live heap used e =
    let at : (p : ℕ) → heap.next ≤ p → p < 5 + heap.next → used.live p ≡ true =
      λ p l m. ground (arith, e p, with_five_live heap p) in
    record {
      at_0 = at _ (omega arith) (omega arith);
      at_1 = at _ (omega arith) (omega arith);
      at_2 = at _ (omega arith) (omega arith);
      at_3 = at _ (omega arith) (omega arith);
      at_4 = at _ (omega arith) (omega arith);
    }

client_life :
    (options : Options) (uses : List Use) (heap : Heap)
    → IsHeap heap
    → 1 ≤ options.maximum_dlci
    → FreesAll cmux_client_free options uses heap
client_life options uses heap h l =
    let b =
      all_uses_blocks-Balanced options.maximum_dlci uses (with_five heap)
        (with_five-IsHeap heap h) in
    let same =
      all_released_same heap b.after heap.next h.unused (λ p. b.same p ∙ with_five_live heap p) in
    record {
      pointer = five heap.next;
      at_first = with_five heap;
      begins = begun options heap l;
      used = b.after;
      runs = b.returns;
      left = all_released b.after heap.next;
      frees = frees_all b.after heap.next h.not_null (five_live heap b.after b.same);
      same = same;
      once =
          freed_once (all_released b.after heap.next) heap.next
            (same (fifth heap.next) ∙ h.unused (fifth heap.next) (omega arith));
    }

server_frees :
    (heap : Heap) (server : Instance) → cmux_server_free heap server ≡ cmux_client_free heap server
unfolding cmux_server_free cmux_client_free
server_frees heap server = refl

-- Whatever a client or a server is used for, it can be freed once at the end, after which the blocks
-- are those from before its init: nothing is lost and nothing is freed twice.
pub whole_life-FreesAll :
    (options : Options) (uses : List Use) (heap : Heap)
    → IsHeap heap
    → 1 ≤ options.maximum_dlci
    → FreesAll cmux_client_free options uses heap × FreesAll cmux_server_free options uses heap
whole_life-FreesAll options uses heap h l =
    let c = client_life options uses heap h l in
    (
      c,
      record {
        pointer = c.pointer;
        at_first = c.at_first;
        begins = c.begins;
        used = c.used;
        runs = c.runs;
        left = c.left;
        frees = server_frees c.used c.pointer ∙ c.frees;
        same = c.same;
        once = server_frees c.left c.pointer ∙ c.once;
      },
    )
