-- ===== src/Lifetime/Blocks.antt =====
-- The blocks that `malloc` has given out, for lib/cmux: it gives an address that is not NULL and that
-- no block has, and `free` takes a block that has been given out and not freed since.
use cmux.Base.{ℕ, suc, ◌≤◌, ◌≡◌, Bool, true, false, ◌==◌, if◌then◌else◌, Option, none, some, ◌>>=◌}

pub record Heap : Type 0 where
  pub next : ℕ
  pub live : ℕ → Bool

-- `NULL`
abbrev pub null : ℕ
null = 0

pub record IsHeap (heap : Heap) : Type 0 where
  pub not_null : 1 ≤ heap.next
  pub unused : (p : ℕ) → heap.next ≤ p → heap.live p ≡ false

abbrev pub allocate : Heap → ℕ × Heap
allocate heap = (
  heap.next,
  record { next = suc heap.next; live = λ p. if p == heap.next then true else heap.live p },
)

unfoldable pub free : Heap → ℕ → Option Heap
free heap p =
    if heap.live p
    then some (record heap { live = λ q. if q == p then false else heap.live q })
    else none

-- A block that is there while something else is done.
abbrev pub with_block : (Heap → Option Heap) → Heap → Option Heap
with_block body heap = let (p, heap') = allocate heap in body heap' >>= λ heap''. free heap'' p
