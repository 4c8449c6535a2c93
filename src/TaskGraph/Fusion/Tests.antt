-- ===== src/TaskGraph/Fusion/Tests.antt =====
-- The theorems on the fusion of nodes at two nodes with one link.
use apac.Prelude.{
  ℕ, zero, suc, ◌≡◌, refl, ◌≢◌, inl, true, false, not, ◌||◌, none, List, [], ◌∷◌, arith,
}
use apac.TaskGraph.AliasArg.{AliasArg, AliasType}
use apac.TaskGraph.Instruction.{Dependencies}
use apac.TaskGraph.Node.{Node, Heap}
use apac.TaskGraph.Node.Link.{Link, IsMirrored}
use apac.TaskGraph.Fusion.{fuse_heap, fuse_chain, has_common_array_element}
use apac.TaskGraph.Fusion.Accesses.{has_flag, fuse_heap-accesses}
use apac.TaskGraph.Fusion.Links.{IsMirroredBut, fuse_heap-IsMirroredBut}
use apac.TaskGraph.Fusion.Chain.{HasStopped, fuse_chain-HasStopped}
use apac.TaskGraph.Fusion.Common.{any_pair, equal, matches, has_common_array_element-any_pair}

abbrev variable : ℕ → AliasArg
variable e = record {
  has_unknown_index = false;
  declaration = e;
  alias_type = AliasType.variable;
  indexes = [];
  index_string = "";
  expression = none;
  id = e;
  pointers = [];
  references = [];
  aliased = [];
}

abbrev write_a : Dependencies
write_a = (0, record { is_read = false; is_write = true }) ∷ []

abbrev read_a : Dependencies
read_a = (0, record { is_read = true; is_write = false }) ∷ []

abbrev task : Dependencies → List (ℕ × Dependencies) → List ℕ → ℕ → Node
task deps next prev n = record {
  graph_id = 0;
  id = n;
  is_looped = false;
  next = next;
  prev = prev;
  graph = [];
  instruction = "";
  instruction_ptr = [];
  dependencies = deps;
  in_out_dep = [];
  in_dep = [];
}

-- A write of `a`, and a read of it.
abbrev pair : Heap
pair zero = task write_a ((1, read_a) ∷ []) [] 0
pair (suc zero) = task read_a [] (0 ∷ []) 1
pair (suc (suc n)) = task [] [] [] n

pair-IsMirrored : IsMirrored pair
pair-IsMirrored zero zero = (λ l. cc, λ i. elim i [ ])
pair-IsMirrored zero (suc zero) = (λ l. inl refl, λ i. refl)
pair-IsMirrored zero (suc (suc n)) = (λ l. ground arith, λ i. elim i [ ])
pair-IsMirrored (suc zero) zero = (λ l. cc, λ i. elim i [ ])
pair-IsMirrored (suc zero) (suc zero) = (λ l. cc, λ i. ground arith)
pair-IsMirrored (suc zero) (suc (suc n)) = (λ l. cc, λ i. elim i [ ])
pair-IsMirrored (suc (suc m)) zero = (λ l. cc, λ i. elim i [ ])
pair-IsMirrored (suc (suc m)) (suc zero) = (λ l. cc, λ i. ground arith)
pair-IsMirrored (suc (suc m)) (suc (suc n)) = (λ l. cc, λ i. elim i [ ])

only_next : (n : ℕ) → Link pair 0 n → n ≡ 1
only_next n l = ground arith

only_prev : (m : ℕ) → Link pair m 1 → m ≡ 0
only_prev zero l = refl
only_prev (suc zero) l = cc
only_prev (suc (suc m)) l = cc

fuse_heap-IsMirroredBut_example :
    IsMirroredBut 1 (fuse_heap 0 1 pair) × ((m : ℕ) → m ≢ 1 → ¬ Link (fuse_heap 0 1 pair) m 1)
fuse_heap-IsMirroredBut_example =
    fuse_heap-IsMirroredBut 0 1 pair (λ e. ground arith) pair-IsMirrored only_next only_prev

fuse_heap-accesses_example :
    (has_flag (λ d. d.is_read) 0 (fuse_heap 0 1 pair 0).dependencies
      ≡ (has_flag (λ d. d.is_read) 0 write_a || has_flag (λ d. d.is_read) 0 read_a))
    × (has_flag (λ d. d.is_write) 0 (fuse_heap 0 1 pair 0).dependencies
        ≡ (has_flag (λ d. d.is_write) 0 write_a || has_flag (λ d. d.is_write) 0 read_a))
fuse_heap-accesses_example = fuse_heap-accesses 0 1 pair 0

fuse_chain-HasStopped_example : HasStopped variable 0 (fuse_chain variable 3 0 pair (0 ∷ 1 ∷ []))
fuse_chain-HasStopped_example = fuse_chain-HasStopped variable 3 0 pair (0 ∷ 1 ∷ []) (ground arith)

has_common_array_element-any_pair_example : has_common_array_element variable (pair 0) ≡ (
    any_pair variable (equal variable) (pair 0)
    || not (any_pair variable (matches variable) (pair 0)))
has_common_array_element-any_pair_example = has_common_array_element-any_pair variable (pair 0)
