-- ===== src/TaskGraph/Clauses/Marked.antt =====
-- Which elements `nodesComputeInOut` puts into the `inout` clauses.
use apac.Prelude.{ℕ, zero, suc, ◌<◌, ◌≡◌, refl, sym, ◌↔◌, ◌⊎◌, inl, inr}
use apac.Prelude.{Option, List, [], ◌∷◌, In, arith, some, none≢some, Returns, Returns-value}
use mathlib.Core.Path.{subst}
use apac.TaskGraph.AliasArg.{AliasArg}
use apac.TaskGraph.Node.{Heap, Graph, compute_in_out_in_dep}
use apac.TaskGraph.Node.Depend.{In-in_out_dep}
use apac.TaskGraph.Node.Shares.{IsInOut, is_in_out-IsInOut}
use apac.TaskGraph.Clauses.{each, compute_node, nodes_compute_in_out}
use apac.TaskGraph.Clauses.Grows.{
  AreSame, Inside, node_of, below, graph_same, Inside-AreSame, IsMarked, IsMarked-AreSame, Grows,
  Grows-refl, Grows-trans, compute-Grows, each-Grows, each-RunAt,
}

-- A node in a subgraph has a lower rank than the node of the subgraph.
abbrev pub IsNested : (ℕ → ℕ) → Heap → Type 0
IsNested rank h = (m : ℕ) (g : Graph) → In g (h m).graph → (k : ℕ) → In k g.nodes → rank k < rank m

IsNested-AreSame : (rank : ℕ → ℕ) (h r : Heap) → AreSame h r → IsNested rank h → IsNested rank r
IsNested-AreSame rank h r same nested m g i =
    nested m g (subst (In g) (sym (graph_same h r same m)) i)

module _ (args : ℕ → AliasArg) where
  node-Grows :
      (under : List ℕ → Heap → Option Heap)
      → ((ns : List ℕ) (h r : Heap) → under ns h ≡ some r → Grows args h r)
      → (n : ℕ) (h r : Heap) → compute_node args under n h ≡ some r
      → Grows args (compute_in_out_in_dep args h n) r × Grows args h r
  node-Grows under step n h r e =
      let rest = each-Grows args (λ (g : Graph). under g.nodes) (λ g. step g.nodes) _ _ r e in
      (rest, Grows-trans args (compute-Grows args h n) rest)

  nodes_compute_in_out-Grows :
      (fuel : ℕ) (ns : List ℕ) (h r : Heap)
      → nodes_compute_in_out args fuel ns h ≡ some r
      → Grows args h r
  unfolding nodes_compute_in_out
  nodes_compute_in_out-Grows zero ns h r e = absurd (none≢some e)
  nodes_compute_in_out-Grows (suc fuel) ns h r e =
      each-Grows args _ (λ n g k q. (node-Grows _ (nodes_compute_in_out-Grows fuel) n g k q).1) ns h
        r e

  nodes_compute_in_out-IsMarked :
      (fuel : ℕ) (ns : List ℕ) (h r : Heap) (n a : ℕ)
      → nodes_compute_in_out args fuel ns h ≡ some r
      → Inside h ns n
      → IsMarked args h n a
      → In a (r n).in_out_dep
  unfolding nodes_compute_in_out
  nodes_compute_in_out-IsMarked zero ns h r n a e inside marked = absurd (none≢some e)
  nodes_compute_in_out-IsMarked (suc fuel) ns h r n a e (node_of i) marked =
      let step = nodes_compute_in_out-Grows fuel in
      let there = each-RunAt args _ (λ m g k q. (node-Grows _ step m g k q).1) ns n h r i e in
      let grown = (node-Grows _ step n there.before there.after there.run).0 in
      let now = IsMarked-AreSame args h there.before there.up_to.same n a marked in
      there.from.kept n a (grown.kept n a ((In-in_out_dep args there.before n a).1 (inr now)))
  nodes_compute_in_out-IsMarked (suc fuel) ns h r n a e (below m g i j inside) marked =
      let step = nodes_compute_in_out-Grows fuel in
      let there = each-RunAt args _ (λ m g k q. (node-Grows _ step m g k q).1) ns m h r i e in
      let computed = compute_in_out_in_dep args there.before m in
      let started = Grows-trans args there.up_to (compute-Grows args there.before m) in
      let inner =
        each-RunAt args (λ (g : Graph). nodes_compute_in_out args fuel g.nodes) (λ g. step g.nodes)
          _ g _ _ (subst (In g) (graph_same h computed started.same m) j) there.run in
      let same = Grows-trans args started inner.up_to in
      there.from.kept n a (
        inner.from.kept n a (
          nodes_compute_in_out-IsMarked fuel g.nodes inner.before inner.after n a inner.run
            (Inside-AreSame h inner.before same.same g.nodes n inside)
            (IsMarked-AreSame args h inner.before same.same n a marked)))

  each-Returns :
      {A : Type 0} (f : A → Heap → Option Heap) (h : Heap)
      → ((x : A) (g r : Heap) → f x g ≡ some r → Grows args g r)
      → (xs : List A) → ((x : A) → In x xs → (g : Heap) → Grows args h g → Returns (f x g))
      → (g : Heap) → Grows args h g
      → Returns (each f xs g)
  each-Returns f h step [] ends g grown = Returns-value g
  each-Returns f h step (x ∷ xs) ends g grown =
      let (k, q) = ends x (inl refl) g grown in
      rw (q, each)
        (each-Returns f h step xs (λ y i. ends y (inr i)) k (Grows-trans args grown (step x g k q)))

  nodes_compute_in_out-Returns :
      (rank : ℕ → ℕ) (fuel : ℕ) (ns : List ℕ) (h : Heap)
      → IsNested rank h
      → 0 < fuel
      → ((m : ℕ) → In m ns → suc (rank m) < fuel)
      → Returns (nodes_compute_in_out args fuel ns h)
  unfolding nodes_compute_in_out
  nodes_compute_in_out-Returns rank zero ns h nested some_fuel enough = absurd (ground arith)
  nodes_compute_in_out-Returns rank (suc fuel) ns h nested some_fuel enough =
      let step = nodes_compute_in_out-Grows fuel in
      each-Returns _ h (λ n g k q. (node-Grows _ step n g k q).1) ns
        (λ m i g grown.
          let computed = compute_in_out_in_dep args g m in
          let in_g = IsNested-AreSame rank h g grown.same nested in
          let in_computed = IsNested-AreSame rank g computed (compute-Grows args g m).same in_g in
          each-Returns (λ (sub : Graph). nodes_compute_in_out args fuel sub.nodes) computed
            (λ sub. step sub.nodes) (computed m).graph
            (λ sub j k same.
              nodes_compute_in_out-Returns rank fuel sub.nodes k
                (IsNested-AreSame rank computed k same.same in_computed)
                (let most = enough m i in omega arith)
                (λ x at.
                  let lower = in_computed m sub j x at in let most = enough m i in omega arith))
            computed (Grows-refl args computed))
        h (Grows-refl args h)

  -- Where each node in a subgraph has a lower rank than the node of the subgraph, and there is more
  -- fuel than the ranks of the nodes of a graph and one more, nodesComputeInOut of the graph ends, and
  -- then the `inout` clause of each node of the graph and of the subgraphs below it names exactly the
  -- elements that it named before, and those that the node writes, where it is looped or a neighbour
  -- shares the element: it has the element itself, or, if the element has indexes, an element of any
  -- variable with as many, which are pairwise the same or unknown on one side.
  pub nodes_compute_in_out-decided :
      (rank : ℕ → ℕ) (fuel : ℕ) (ns : List ℕ) (h : Heap) (n a : ℕ)
      → IsNested rank h
      → 0 < fuel
      → ((m : ℕ) → In m ns → suc (rank m) < fuel)
      → Inside h ns n
      → (r : Heap) × (nodes_compute_in_out args fuel ns h ≡ some r)
        × (In a (r n).in_out_dep ↔ (In a (h n).in_out_dep ⊎ IsInOut args h n a))
  nodes_compute_in_out-decided rank fuel ns h n a nested some_fuel enough inside =
      let (r, e) = nodes_compute_in_out-Returns rank fuel ns h nested some_fuel enough in
      let marked = is_in_out-IsInOut args h n a in
      let grown = nodes_compute_in_out-Grows fuel ns h r e in
      (
        r,
        e,
        (
          λ i. elim (grown.only n a i) [ inl old ↦ inl old | inr m ↦ inr (marked.0 m) ],
          λ c. elim c [
            | inl old ↦ grown.kept n a old
            | inr m ↦ nodes_compute_in_out-IsMarked fuel ns h r n a e inside (marked.1 m)
          ],
        ),
      )
