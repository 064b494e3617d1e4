-- ===== src/Tests/Wrapped.antt =====
-- lib/cmux/cmux_buffer.c on a ring that goes round the end of its memory, run.
use Prim.Native.Nat.{min}
use cmux.Base.{
  ℕ, ◌+◌, ◌-◌, ◌%◌, ◌≤◌, ◌≡◌, refl, arith, some, List, [], ◌∷◌, ◌++◌, length, length-append, take,
}
use cmux.Frame.{frame_flag}
use cmux.Buffer.Ring.{RingBuffer, IsRingBuffer}
use cmux.Buffer.Ingest.{built_frame}
use cmux.Buffer.Ingest.Drain.{ingest_each}
use cmux.Buffer.Ingest.Wrapped.{Wrapping, ingest_each_wrapped}
use cmux.Crc.{cmux_crc}
use cmux.Frame.Layout.{header_octets}
use cmux.Tests.Data.{zeroed, length-zeroed, hello, hello_frame, hello_frame-IsPlain}
use cmux.Tests.Ring.{Held, list_ring, held_room}

-- With the index of the first octet that is held.
record Turned : Type 0 where
  ring : Held
  front : ℕ

abbrev turning_ring : RingBuffer
turning_ring = record {
  Ring = Turned;
  init = λ memory n. record { ring = list_ring.init memory n; front = 0 };
  linear_read_length = λ r. min (length r.ring.held) (r.ring.size - r.front);
  peek = λ r i n. list_ring.peek r.ring i n;
  skip = λ r n. record { ring = list_ring.skip r.ring n; front = (r.front + n) % r.ring.size };
  read = λ r n. (
    (list_ring.read r.ring n).0,
    record { ring = (list_ring.read r.ring n).1; front = (r.front + n) % r.ring.size },
  );
  write = λ r octets. (
    (list_ring.write r.ring octets).0,
    record { ring = (list_ring.write r.ring octets).1; front = r.front },
  );
}

abbrev turning_ring-IsRingBuffer : IsRingBuffer turning_ring
turning_ring-IsRingBuffer = record {
  bytes = λ r. r.ring.held;
  room = λ r. r.ring.size - 1 - length r.ring.held;
  bytes_init = λ memory n. refl;
  room_init = λ memory n. omega arith;
  linear_le = λ r. omega arith;
  peek_bytes = λ r i n. refl;
  skip_bytes = λ r n. refl;
  read_bytes = λ r n. refl;
  read_rest = λ r n. refl;
  write_count = λ r octets. refl;
  write_bytes = λ r octets. refl;
  room_write = λ r octets. held_room r.ring octets;
}

-- What is held goes up to the end of the memory at least.
abbrev turning : Wrapping turning_ring turning_ring-IsRingBuffer
turning = record {
  IsWrapped = λ r. r.ring.size - r.front ≤ length r.ring.held;
  write_some = λ r octets h. omega (
    arith,
    h,
    length-append {0} r.ring.held (take (r.ring.size - 1 - length r.ring.held) octets),
  );
  linear_same = λ r octets h. omega (
    arith,
    h,
    length-append {0} r.ring.held (take (r.ring.size - 1 - length r.ring.held) octets),
  );
}

-- The memory ends behind the first two octets of the body.
abbrev cut_ring : Turned
cut_ring = record {
  ring = record { held = 1 ∷ built_frame hello_frame hello; size = 128 };
  front = 121;
}

ingest_each_wrapped_example :
    (count : ℕ) × (after : Turned) × (taken : List ℕ) × (ingest_each turning_ring zeroed cut_ring
        (built_frame hello_frame hello ∷ [] ∷ [])
      ≡ some (count, after, []))
    × (count ≤ 115)
    × (after.ring.held ≡ (1 ∷ built_frame hello_frame hello) ++ taken)
unfolding cmux_crc
ingest_each_wrapped_example =
    ingest_each_wrapped turning_ring turning_ring-IsRingBuffer zeroed length-zeroed turning
      hello_frame hello hello_frame-IsPlain (1 ∷ []) (7 ∷ 239 ∷ 11 ∷ 104 ∷ 101 ∷ [])
      (108 ∷ 108 ∷ 111 ∷ cmux_crc (header_octets hello_frame) ∷ frame_flag ∷ []) [] cut_ring
      (built_frame hello_frame hello ∷ [] ∷ []) (omega arith) refl refl refl (refl, tt)
      (refl, (refl, (refl, (refl, (refl, tt))))) (omega arith) (omega arith)
