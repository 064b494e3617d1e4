-- ===== src/Tests/Ring.antt =====
-- lib/cmux/cmux_buffer.c on a ring that is a list of octets, run.
use Prim.Native.Nat.{min}
use cmux.Base.{ℕ, ◌≡◌, ◌-◌, refl, arith, none, some, List, [], ◌∷◌, ◌++◌, length, take, drop}
use cmux.Frame.{frame_flag}
use cmux.Buffer.{cmux_buffer_ingest}
use cmux.Buffer.Ring.{RingBuffer, IsRingBuffer, Straight}
use cmux.Buffer.Ingest.Drain.{
  Waiting, waiting_octets, ingest_each, ingest_each_drains, ingest_each_jams,
}
use cmux.Base.{Bool-cases, inl, inr, leb, leb→le, length-append, length-take, take_beyond, ◌≤◌}
use cmux.Buffer.Ingest.{built_frame, delivered}
use cmux.Buffer.Ingest.Found.{cmux_buffer_ingest_frame, cmux_buffer_ingest_cut}
use cmux.Server.{}
use cmux.Tests.Data.{zeroed, length-zeroed, hello, hello_frame, hello_frame-IsPlain}

-- The octets that are held, and the size of the memory.
pub record Held : Type 0 where
  pub held : List ℕ
  pub size : ℕ

abbrev pub list_ring : RingBuffer
list_ring = record {
  Ring = Held;
  init = λ memory n. record { held = []; size = n };
  linear_read_length = λ r. length r.held;
  peek = λ r i n. take n (drop i r.held);
  skip = λ r n. record { held = drop n r.held; size = r.size };
  read = λ r n. (take n r.held, record { held = drop n r.held; size = r.size });
  write = λ r octets.
      let room = r.size - 1 - length r.held in
      (min (length octets) room, record { held = r.held ++ take room octets; size = r.size });
}

pub held_room :
    (r : Held) (octets : List ℕ)
    → (list_ring.write r octets).1.size - 1 - length (list_ring.write r octets).1.held
      ≡ r.size - 1 - length r.held - length octets
held_room r octets = elim (Bool-cases (leb (length octets) (r.size - 1 - length r.held))) [
  | inl fits ↦
      let all = take_beyond octets (r.size - 1 - length r.held) (leb→le _ _ fits) in
      rw all (omega (arith, length-append {0} r.held octets))
  | inr more ↦
      let room : r.size - 1 - length r.held ≤ length octets = ground (arith, more) in
      let taken = length-take (r.size - 1 - length r.held) octets room in
      omega
        (arith, length-append {0} r.held (take (r.size - 1 - length r.held) octets), taken, room)
]

abbrev pub list_ring-IsRingBuffer : IsRingBuffer list_ring
list_ring-IsRingBuffer = record {
  bytes = λ r. r.held;
  room = λ r. r.size - 1 - length r.held;
  bytes_init = λ memory n. refl;
  room_init = λ memory n. omega arith;
  linear_le = λ r. omega arith;
  peek_bytes = λ r i n. refl;
  skip_bytes = λ r n. refl;
  read_bytes = λ r n. refl;
  read_rest = λ r n. refl;
  write_count = λ r octets. refl;
  write_bytes = λ r octets. refl;
  room_write = λ r octets. held_room r octets;
}

abbrev pub empty_ring : Held
empty_ring = record { held = []; size = 128 }

-- Two frames, with junk in front of the first.
abbrev two_frames : List ℕ
two_frames = 1 ∷ 2 ∷ (built_frame hello_frame hello ++ built_frame hello_frame hello)

cmux_buffer_ingest_frame_example :
    (after : Held) × (cmux_buffer_ingest list_ring zeroed empty_ring two_frames
      ≡ some (24, after, some (delivered hello_frame hello)))
    × (after.held ≡ built_frame hello_frame hello)
cmux_buffer_ingest_frame_example =
    cmux_buffer_ingest_frame list_ring list_ring-IsRingBuffer zeroed length-zeroed hello_frame hello
      hello_frame-IsPlain empty_ring two_frames (1 ∷ 2 ∷ []) (built_frame hello_frame hello) [] refl
      refl (refl, (refl, tt))

cmux_buffer_ingest_cut_example :
    cmux_buffer_ingest list_ring zeroed empty_ring (1 ∷ frame_flag ∷ 7 ∷ []) ≡ none
cmux_buffer_ingest_cut_example =
    cmux_buffer_ingest_cut list_ring list_ring-IsRingBuffer zeroed length-zeroed empty_ring
      (1 ∷ frame_flag ∷ 7 ∷ []) (1 ∷ []) (7 ∷ []) [] refl refl (refl, tt) (omega arith)

abbrev pub list_straight : Straight list_ring list_ring-IsRingBuffer
list_straight = record {
  IsStraight = λ r. Unit {0};
  linear = λ r h. refl;
  write_nothing = λ r h. tt;
  skip_some = λ r n h. tt;
  read_some = λ r n h. tt;
}

abbrev hello_waiting : Waiting
hello_waiting = record { junk = 1 ∷ 2 ∷ []; info = hello_frame; body = hello }

abbrev waiting_ring : Held
waiting_ring = record { held = waiting_octets (hello_waiting ∷ hello_waiting ∷ []); size = 128 }

ingest_each_drains_example :
    (after : Held) × (ingest_each list_ring zeroed waiting_ring ([] ∷ [] ∷ [])
      ≡ some (0, after, delivered hello_frame hello ∷ delivered hello_frame hello ∷ []))
    × (after.held ≡ [])
ingest_each_drains_example =
    ingest_each_drains list_ring list_ring-IsRingBuffer zeroed length-zeroed list_straight
      waiting_ring (hello_waiting ∷ hello_waiting ∷ []) tt refl
      ((hello_frame-IsPlain, (refl, (refl, tt))), ((hello_frame-IsPlain, (refl, (refl, tt))), tt))

abbrev full_ring : Held
full_ring = record { held = 1 ∷ 2 ∷ 3 ∷ []; size = 4 }

ingest_each_jams_example :
    (after : Held) × (ingest_each list_ring zeroed full_ring (hello ∷ two_frames ∷ [])
      ≡ some (0, after, []))
    × (after.held ≡ 1 ∷ 2 ∷ 3 ∷ [])
    × (after.size - 1 - length after.held ≡ 0)
ingest_each_jams_example =
    ingest_each_jams list_ring list_ring-IsRingBuffer zeroed length-zeroed full_ring
      (hello ∷ two_frames ∷ []) (refl, (refl, (refl, tt))) refl
