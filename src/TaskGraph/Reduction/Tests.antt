-- ===== src/TaskGraph/Reduction/Tests.antt =====
-- The theorems on the reduction at a graph of three nodes: 0 has links to 1 and 2, and 1 to 2.
use apac.Prelude.{ℕ, ◌≡◌, refl, ◌↔◌, inl, false, List, [], ◌∷◌, some, In, arith}
use apac.Prelude.{◌==◌, if◌then◌else◌}
use apac.TaskGraph.Instruction.{Dependencies}
use apac.TaskGraph.Node.{Heap}
use apac.TaskGraph.Node.Link.{Link, Reaches, IsMirrored}
use apac.TaskGraph.Reduction.{remove_link, transitive_reduction}
use apac.TaskGraph.Reduction.Paths.{IsRanked}
use apac.TaskGraph.Reduction.Reduced.{transitive_reduction-decided, IsReduced}

abbrev next_of : ℕ → List (ℕ × Dependencies)
next_of n = if n == 0 then (1, []) ∷ (2, []) ∷ [] else if n == 1 then (2, []) ∷ [] else []

abbrev prev_of : ℕ → List ℕ
prev_of n = if n == 1 then 0 ∷ [] else if n == 2 then 0 ∷ 1 ∷ [] else []

abbrev triangle : Heap
triangle n = record {
  graph_id = 0;
  id = n;
  is_looped = false;
  next = next_of n;
  prev = prev_of n;
  graph = [];
  instruction = "";
  instruction_ptr = [];
  dependencies = [];
  in_out_dep = [];
  in_dep = [];
}

abbrev all_nodes : List ℕ
all_nodes = 0 ∷ 1 ∷ 2 ∷ []

abbrev line : Heap
line = remove_link 0 triangle 2

triangle-IsRanked : IsRanked (λ n. n) triangle
triangle-IsRanked m n l = ground arith

triangle-stays : (m n : ℕ) → In m all_nodes → Link triangle m n → In n all_nodes
triangle-stays m n i l = ground arith

triangle-IsMirrored : IsMirrored triangle
triangle-IsMirrored m n = (λ l. ground arith, λ i. ground arith)

transitive_reduction-decided_example :
    (r : Heap) × (transitive_reduction 3 triangle all_nodes ≡ some r)
    × IsMirrored r
    × IsReduced r 0
    × ((m k : ℕ) → Reaches triangle m k ↔ Reaches r m k)
transitive_reduction-decided_example =
    transitive_reduction-decided (λ n. n) all_nodes 3 all_nodes triangle triangle-IsRanked
      triangle-IsMirrored triangle-stays (λ n i. i) (ground arith) 0 (inl refl)
