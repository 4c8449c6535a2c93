-- ===== src/TaskGraph/Fusion/Chain.antt =====
-- The inner loop of `nodesFusion` (Graph.cpp) ends.
use apac.Prelude.{ℕ, zero, suc, ◌<◌, ◌≡◌, ◌∙◌, ap, inl, inr, ◌==◌}
use apac.Prelude.{
  none, some, List, [], ◌∷◌, length, Option-cases, Bool-cases, some_inj, none≢some, arith,
}
use apac.TaskGraph.AliasArg.{AliasArg}
use apac.TaskGraph.Node.{Heap}
use apac.TaskGraph.Fusion.{
  erase_first, fuse_heap, fuse_nodes, next_to_fuse, Fused, out_of_fuel, not_in_graph, done,
  fuse_chain,
}

length-erase_first :
    (n : ℕ) (ns rest : List ℕ) → erase_first n ns ≡ some rest → length ns ≡ suc (length rest)
unfolding erase_first
length-erase_first n [] rest e = absurd (none≢some e)
length-erase_first n (m ∷ ns) rest e = elim (Bool-cases (m == n)) [
  | inl q ↦ ap (λ r. suc (length r)) (some_inj (rw (q, erase_first) at e))
  | inr q ↦ elim (Option-cases (erase_first n ns)) [
    | inl p ↦ absurd (none≢some (rw (q, p, erase_first) at e))
    | inr (r, p) ↦
        ap suc (length-erase_first n ns r p)
        ∙ ap (λ r. suc (length r)) (some_inj (rw (q, p, erase_first) at e))
  ]
]

-- The loop has ended, and not for lack of fuel: if all nodes were in the graph, its condition is
-- false of the heap that it leaves.
abbrev pub HasStopped : (ℕ → AliasArg) → ℕ → Fused → Type 0
HasStopped args n out_of_fuel = ⊥
HasStopped args n not_in_graph = Unit
HasStopped args n (done h nodes) = next_to_fuse args h n ≡ none

-- Each round takes a node out of the graph, so that more fuel than there are nodes is enough for
-- the loop of `nodesFusion` at one node.
pub fuse_chain-HasStopped :
    (args : ℕ → AliasArg) (fuel n : ℕ) (h : Heap) (nodes : List ℕ)
    → length nodes < fuel
    → HasStopped args n (fuse_chain args fuel n h nodes)
unfolding fuse_chain fuse_nodes
fuse_chain-HasStopped args zero n h nodes enough = ground arith
fuse_chain-HasStopped args (suc fuel) n h nodes enough =
    elim (Option-cases (next_to_fuse args h n)) [
      | inl e ↦ rw (e, fuse_chain) e
      | inr (next, e) ↦ elim (Option-cases (erase_first next nodes)) [
        | inl p ↦ rw (e, fuse_chain) (rw (p, fuse_nodes) tt)
        | inr (rest, p) ↦
            let fewer = length-erase_first next nodes rest p in
            rw (e, fuse_chain)
              (rw (p, fuse_nodes)
                (fuse_chain-HasStopped args fuel n (fuse_heap n next h) rest (ground arith)))
      ]
    ]
