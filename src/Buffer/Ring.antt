-- ===== src/Buffer/Ring.antt =====
-- The calls of lwrb that lib/cmux/cmux_buffer.c makes, and what that library documents of them.
use cmux.Base.{ℕ, ◌-◌, ◌≤◌, ◌≡◌, List, [], ◌++◌, take, drop, length}
use Prim.Native.Nat.{min}

-- `peek ring skip n` is what `lwrb_peek` copies out, and its return value the length of that.
pub record RingBuffer : Type 1 where
  pub Ring : Type 0
  pub init : List ℕ → ℕ → Ring
  pub linear_read_length : Ring → ℕ
  pub peek : Ring → ℕ → ℕ → List ℕ
  pub skip : Ring → ℕ → Ring
  pub read : Ring → ℕ → List ℕ × Ring
  pub write : Ring → List ℕ → ℕ × Ring

-- The documented behaviour: a ring of `size` octets of memory holds `size - 1` at most, first in,
-- first out. The octets that can be read without going round the end of the memory are some of
-- those that it holds, and at least one where it holds any.
pub record IsRingBuffer (lwrb : RingBuffer) : Type 0 where
  pub bytes : lwrb.Ring → List ℕ
  pub room : lwrb.Ring → ℕ
  pub bytes_init : (memory : List ℕ) (size : ℕ) → bytes (lwrb.init memory size) ≡ []
  pub room_init : (memory : List ℕ) (size : ℕ) → room (lwrb.init memory size) ≡ size - 1
  pub linear_le : (r : lwrb.Ring) → lwrb.linear_read_length r ≤ length (bytes r)
  pub peek_bytes : (r : lwrb.Ring) (i n : ℕ) → lwrb.peek r i n ≡ take n (drop i (bytes r))
  pub skip_bytes : (r : lwrb.Ring) (n : ℕ) → bytes (lwrb.skip r n) ≡ drop n (bytes r)
  pub read_bytes : (r : lwrb.Ring) (n : ℕ) → (lwrb.read r n).0 ≡ take n (bytes r)
  pub read_rest : (r : lwrb.Ring) (n : ℕ) → bytes (lwrb.read r n).1 ≡ drop n (bytes r)
  pub write_count :
      (r : lwrb.Ring) (octets : List ℕ) → (lwrb.write r octets).0 ≡ min (length octets) (room r)
  pub write_bytes :
      (r : lwrb.Ring) (octets : List ℕ)
      → bytes (lwrb.write r octets).1 ≡ bytes r ++ take (room r) octets
  pub room_write :
      (r : lwrb.Ring) (octets : List ℕ) → room (lwrb.write r octets).1 ≡ room r - length octets

-- Rings whose octets do not go round the end of the memory, so that all of them can be read in one
-- piece: to take octets out leaves them so, and to write nothing.
pub record Straight (lwrb : RingBuffer) (laws : IsRingBuffer lwrb) : Type 1 where
  pub IsStraight : lwrb.Ring → Type 0
  pub linear : (r : lwrb.Ring) → IsStraight r → lwrb.linear_read_length r ≡ length (laws.bytes r)
  pub write_nothing : (r : lwrb.Ring) → IsStraight r → IsStraight (lwrb.write r []).1
  pub skip_some : (r : lwrb.Ring) (n : ℕ) → IsStraight r → IsStraight (lwrb.skip r n)
  pub read_some : (r : lwrb.Ring) (n : ℕ) → IsStraight r → IsStraight (lwrb.read r n).1
