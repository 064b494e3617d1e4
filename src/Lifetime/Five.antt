-- ===== src/Lifetime/Five.antt =====
-- The five blocks of an instance of lib/cmux: those that init allocates and free gives back.
use cmux.Base.{ℕ, suc, ◌≤◌, ◌≡◌, refl, arith, ◌==◌, ==_ne}
use cmux.Base.{true, false, if◌then◌else◌, some}
use cmux.Lifetime.Blocks.{Heap, IsHeap, allocate, free}
use cmux.Lifetime.Balance.{allocate-IsHeap}
use cmux.Lifetime.{Instance, cmux_buffer_free, free_if, cmux_client_free}

-- The memory with the five blocks of an instance, and the instance.
unfoldable pub with_five : Heap → Heap
with_five heap = (allocate (allocate (allocate (allocate (allocate heap).1).1).1).1).1

pub with_five-IsHeap : (heap : Heap) → IsHeap heap → IsHeap (with_five heap)
unfolding with_five
with_five-IsHeap heap h =
    allocate-IsHeap _
      (allocate-IsHeap _ (allocate-IsHeap _ (allocate-IsHeap _ (allocate-IsHeap heap h))))

released : Heap → ℕ → Heap
released heap p = record heap { live = λ q. if q == p then false else heap.live q }

free_live : (heap : Heap) (p : ℕ) → heap.live p ≡ true → free heap p ≡ some (released heap p)
unfolding free released
free_live heap p e = rw e refl

free_if_live :
    (heap : Heap) (p : ℕ) → 1 ≤ p → heap.live p ≡ true → free_if heap p ≡ some (released heap p)
free_if_live heap p l e = rw (==_ne p 0 (λ z. omega (arith, l, z))) (free_live heap p e)

-- The addresses after one.
abbrev pub second : ℕ → ℕ
second n = suc n

abbrev pub third : ℕ → ℕ
third n = suc (suc n)

abbrev pub fourth : ℕ → ℕ
fourth n = suc (suc (suc n))

abbrev pub fifth : ℕ → ℕ
fifth n = suc (suc (suc (suc n)))

-- The five blocks of an instance.
unfoldable pub five : ℕ → Instance
five n = record {
  address = n;
  cmux_instance = record { address = fourth n; ingress_buffer = fifth n };
  terminal_options = second n;
  terminal_statuses = third n;
}

pub all_released : Heap → ℕ → Heap
all_released heap n =
    released
      (released (released (released (released heap (fifth n)) (fourth n)) (second n)) (third n)) n

pub record FiveLive (heap : Heap) (n : ℕ) : Type 0 where
  pub at_0 : heap.live n ≡ true
  pub at_1 : heap.live (second n) ≡ true
  pub at_2 : heap.live (third n) ≡ true
  pub at_3 : heap.live (fourth n) ≡ true
  pub at_4 : heap.live (fifth n) ≡ true

lives_1 :
    (heap : Heap) (n : ℕ)
    → FiveLive heap n
    → (released (released heap (fifth n)) (fourth n)).live (second n) ≡ true
unfolding released
lives_1 heap n f = ground (arith, f.at_1)

lives_2 :
    (heap : Heap) (n : ℕ)
    → FiveLive heap n
    → (released (released (released heap (fifth n)) (fourth n)) (second n)).live (third n) ≡ true
unfolding released
lives_2 heap n f = ground (arith, f.at_2)

lives_3 : (heap : Heap) (n : ℕ) → FiveLive heap n → (released heap (fifth n)).live (fourth n) ≡ true
unfolding released
lives_3 heap n f = ground (arith, f.at_3)

lives_0 :
    (heap : Heap) (n : ℕ)
    → FiveLive heap n
    → (released
          (released (released (released heap (fifth n)) (fourth n)) (second n))
          (third n)).live
        n
      ≡ true
unfolding released
lives_0 heap n f = ground (arith, f.at_0)

pub frees_all :
    (heap : Heap) (n : ℕ)
    → 1 ≤ n
    → FiveLive heap n
    → cmux_client_free heap (five n) ≡ some (all_released heap n)
unfolding cmux_client_free cmux_buffer_free all_released five
frees_all heap n l f =
    let without_ring = released heap (fifth n) in
    let without_buffer = released without_ring (fourth n) in
    let without_options = released without_buffer (second n) in
    let without_statuses = released without_options (third n) in
    rw
      (
        free_live heap (fifth n) f.at_4,
        free_live without_ring (fourth n) (lives_3 heap n f),
        free_if_live without_buffer (second n) (omega arith) (lives_1 heap n f),
        free_if_live without_options (third n) (omega arith) (lives_2 heap n f),
      )
      (free_live without_statuses n (lives_0 heap n f))

-- Nothing is left of the five blocks.
pub all_released_same :
    (heap used : Heap) (n : ℕ)
    → ((p : ℕ) → n ≤ p → heap.live p ≡ false)
    → ((p : ℕ)
        → used.live p ≡ (
            if p == fifth n
            then true
            else (if p == fourth n
                then true
                else (if p == third n
                    then true
                    else (if p == second n
                        then true
                        else (if p == n then true else heap.live p))))))
    → (p : ℕ) → (all_released used n).live p ≡ heap.live p
unfolding all_released released
all_released_same heap used n u e p = ground (arith, u p, e p)
