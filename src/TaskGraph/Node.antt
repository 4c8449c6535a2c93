-- ===== src/TaskGraph/Node.antt =====
-- transforms/TaskGraph: Node.hpp and Node.cpp. A `shared_ptr<Node>` is the node's `id`, and the
-- nodes stand in a heap, since links change the nodes at both of their ends.
pub mod Link
pub mod Depend
pub mod Shares
pub mod Clauses
use Prim.Native.String.{String}
use apac.Prelude.{ℕ, Bool, true, false, not, ◌&&◌, ◌||◌, Option, none, some, List, [], ◌∷◌, foldl}
use apac.Prelude.{ltb, if◌then◌else◌, length, insert, insert_sorted, contains, any}
use apac.Prelude.Maps.{lookup, has_key, put, put_sorted, keys, update}
use apac.TaskGraph.AliasArg.{AliasArg, indexes_match}
use apac.TaskGraph.Instruction.{Instruction, NodeDependency, Dependencies}

-- A subgraph is owned by its node, and its nodes stand in the same heap.
pub record Graph : Type 0 where
  pub graph_id : ℕ
  pub nodes : List ℕ
  pub roots : List ℕ

pub record Node : Type 0 where
  pub graph_id : ℕ
  pub id : ℕ
  pub is_looped : Bool
  pub next : List (ℕ × Dependencies)
  pub prev : List ℕ
  pub graph : List Graph
  pub instruction : String
  pub instruction_ptr : List Instruction
  pub dependencies : Dependencies
  pub in_out_dep : List ℕ
  pub in_dep : List ℕ

abbrev pub Heap : Type 0
Heap = ℕ → Node

-- `next[n]`, or the empty map if `n` is no key.
abbrev pub link_map : ℕ → List (ℕ × Dependencies) → Dependencies
link_map n next = elim (lookup n next) [ none ↦ [] | some m ↦ m ]

-- `next[n][arg] = d` in the node `this`.
unfoldable pub set_link : Heap → ℕ → ℕ → ℕ → NodeDependency → Heap
set_link h this n arg d =
    update h this
      (record (h this) { next = put n (put_sorted arg d (link_map n (h this).next)) (h this).next })

unfoldable pub add_prev : Heap → ℕ → ℕ → Heap
add_prev h n cur_n = update h n (record (h n) { prev = insert cur_n (h n).prev })

-- The method of `this`; a null `arg` changes nothing. `addReadLink` gives it the flags true and
-- false, `addWriteLink` false and true.
unfoldable pub add_link : Heap → ℕ → ℕ → ℕ → Bool → Bool → Option ℕ → Heap
add_link h this cur_n n is_read is_write none = h
add_link h this cur_n n is_read is_write (some arg) = elim (lookup arg (link_map n (h this).next)) [
  | none ↦
      add_prev (set_link h this n arg (record { is_read = is_read; is_write = is_write })) n cur_n
  | some d ↦
      set_link h this n arg
        (record { is_read = d.is_read || is_read; is_write = d.is_write || is_write })
]

abbrev pub insert_if : (ℕ × NodeDependency → Bool) → List ℕ → ℕ × NodeDependency → List ℕ
insert_if test found dep = if test dep then insert_sorted dep.0 found else found

-- `args` holds the elements. The test that both methods make of the elements `m` of a neighbour.
module _ (args : ℕ → AliasArg) where
  abbrev pub touches : ℕ → Dependencies → Bool
  touches a m =
      has_key a m
      || (ltb 0 (length (args a).indexes)
          && any (λ b. indexes_match (args b).indexes (args a).indexes) (keys m))

  abbrev pub next_touches : Node → ℕ → Bool
  next_touches node a = any (λ (l : ℕ × Dependencies). touches a l.1) node.next

  abbrev pub prev_touches : Heap → Node → ℕ → Bool
  prev_touches h node a = any (λ p. touches a (h p).dependencies) node.prev

  -- A written element that this node shares with a neighbour, or with itself in the next round.
  abbrev pub is_in_out : Heap → Node → ℕ × NodeDependency → Bool
  is_in_out h node dep =
      dep.1.is_write && (node.is_looped || (next_touches node dep.0 || prev_touches h node dep.0))

  abbrev pub is_in : Heap → Node → ℕ × NodeDependency → Bool
  is_in h node dep = prev_touches h node dep.0 && not (contains dep.0 node.in_out_dep)

  unfoldable pub compute_in_out_dep : Heap → ℕ → Heap
  compute_in_out_dep h n =
      let node = h n in
      update h n (record node {
        in_out_dep = foldl (insert_if (is_in_out h node)) node.in_out_dep node.dependencies;
      })

  unfoldable pub compute_in_dep : Heap → ℕ → Heap
  compute_in_dep h n =
      let node = h n in
      update h n
        (record node { in_dep = foldl (insert_if (is_in h node)) node.in_dep node.dependencies })

  unfoldable pub compute_in_out_in_dep : Heap → ℕ → Heap
  unfolding compute_in_out_dep compute_in_dep
  compute_in_out_in_dep h n = compute_in_dep (compute_in_out_dep h n) n
