-- ===== src/Tests/Lifetimes.antt =====
-- The life of an endpoint of lib/cmux, run.
use cmux.Base.{◌==◌, arith, true, none, some, List, [], ◌∷◌}
use cmux.Service.{test}
use cmux.Request.{ServicesRequest, test_data}
use cmux.Lifetime.{Use, sends_data, sends_request, takes_octets, cmux_client_free, cmux_server_free}
use cmux.Lifetime.Blocks.{Heap, IsHeap}
use cmux.Lifetime.Life.{FreesAll, whole_life-FreesAll}
use cmux.Tests.Data.{two_dlcis}

-- A block that is there already, at 1.
abbrev one_block : Heap
one_block = record { next = 2; live = λ p. p == 1 }

one_block-IsHeap : IsHeap one_block
one_block-IsHeap = record { not_null = omega arith; unused = λ p l. ground (arith, l) }

abbrev echo : ServicesRequest
echo = record {
  service = test;
  cr = true;
  service_data = test_data (record { octets = 1 ∷ 2 ∷ []; length = 2 });
}

-- Data, a request, octets without a frame, and a frame that is answered.
abbrev uses : List Use
uses =
    sends_data 1
    ∷ (sends_request 0 (some echo)
        ∷ (takes_octets 2 none ∷ (takes_octets 1 (some ((1, none) ∷ [])) ∷ (sends_data 7 ∷ []))))

whole_life-FreesAll_example :
    FreesAll cmux_client_free two_dlcis uses one_block
    × FreesAll cmux_server_free two_dlcis uses one_block
whole_life-FreesAll_example =
    whole_life-FreesAll two_dlcis uses one_block one_block-IsHeap (omega arith)
