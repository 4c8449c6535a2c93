-- ===== src/TaskGraph/Reduction/Reduced.antt =====
-- `transitiveReduction` (Graph.cpp) on the whole graph.
use apac.Prelude.{ℕ, ◌≤◌, ◌≡◌, refl, ◌↔◌, sym, inl, inr, List, [], ◌∷◌, some}
use apac.Prelude.{foldl, In, Option-cases, some_inj, none≢some, length}
use mathlib.Core.Path.{subst}
use apac.TaskGraph.Node.{Heap}
use apac.TaskGraph.Node.Link.{Link, Reaches, Reaches-mono, IsMirrored}
use apac.TaskGraph.Reduction.{
  next_nodes, gather, visited_among, remove_link, reduce_node, transitive_reduction,
}
use apac.TaskGraph.Reduction.Gather.{next_nodes-Link, Link-next_nodes, gather-enough}
use apac.TaskGraph.Reduction.Links.{remove_links-IsMirrored}
use apac.TaskGraph.Reduction.Paths.{IsRanked, Reaches-map, reduce_node-Link, reduce_node-Reaches}

-- A property that each node's reduction keeps.
transitive_reduction-inv {ℓ} :
    (P : Heap → Type ℓ) (fuel : ℕ)
    → ((h r : Heap) (node : ℕ) → reduce_node fuel h node ≡ some r → P h → P r)
    → (ns : List ℕ) (h r : Heap) → transitive_reduction fuel h ns ≡ some r
    → P h
    → P r
unfolding transitive_reduction
transitive_reduction-inv P fuel keep [] h r e p = subst P (some_inj e) p
transitive_reduction-inv P fuel keep (n ∷ ns) h r e p = elim (Option-cases (reduce_node fuel h n)) [
  | inl q ↦ absurd (none≢some (rw (q, transitive_reduction) at e))
  | inr (g, q) ↦
      transitive_reduction-inv P fuel keep ns g r (rw (q, transitive_reduction) at e)
        (keep h g n q p)
]

reduce_node-IsMirrored :
    (fuel : ℕ) (h r : Heap) (node : ℕ)
    → reduce_node fuel h node ≡ some r
    → IsMirrored h
    → IsMirrored r
unfolding reduce_node
reduce_node-IsMirrored fuel h r node e mirrored =
    elim (Option-cases (gather fuel h (next_nodes h node) [])) [
      | inl q ↦ absurd (none≢some (rw (q, reduce_node) at e))
      | inr (v, q) ↦
          subst IsMirrored (some_inj (rw (q, reduce_node) at e))
            (remove_links-IsMirrored node (visited_among v (next_nodes h node)) h mirrored)
    ]

-- `prev` stays the mirror of `next`: the reduction takes a link away at both of its ends.
pub transitive_reduction-IsMirrored :
    (fuel : ℕ) (ns : List ℕ) (h r : Heap)
    → transitive_reduction fuel h ns ≡ some r
    → IsMirrored h
    → IsMirrored r
transitive_reduction-IsMirrored fuel ns h r e =
    transitive_reduction-inv IsMirrored fuel (reduce_node-IsMirrored fuel) ns h r e

-- Where the links have no cycle, a node leads to the same nodes before and after the reduction.
pub transitive_reduction-Reaches :
    (rank : ℕ → ℕ) (fuel : ℕ) (ns : List ℕ) (h r : Heap)
    → transitive_reduction fuel h ns ≡ some r
    → IsRanked rank h
    → (m k : ℕ) → Reaches h m k ↔ Reaches r m k
transitive_reduction-Reaches rank fuel ns h r e ranked m k =
    (transitive_reduction-inv (λ g. IsRanked rank g × ((i j : ℕ) → Reaches h i j ↔ Reaches g i j))
        fuel
        (λ g g' node q p.
          let fewer =
            λ (i j : ℕ) (l : Link g' i j). ((reduce_node-Link fuel g g' node q i j).0 l).0 in
          (
            λ i j l. p.0 i j (fewer i j l),
            λ i j. (
              λ path.
                  Reaches-map (reduce_node-Reaches rank g g' node fuel q p.0) ((p.1 i j).0 path),
              λ path. (p.1 i j).1 (Reaches-mono fewer path),
            ),
          ))
        ns h r e (ranked, λ i j. (λ p. p, λ p. p))).1
      m k

-- The node has no link to what another of its next nodes leads to.
abbrev pub IsReduced : Heap → ℕ → Type 0
IsReduced h node = (x y : ℕ) → Link h node x → Link h node y → ¬ Reaches h y x

reduce_node-IsReduced :
    (fuel : ℕ) (h r : Heap) (node : ℕ) → reduce_node fuel h node ≡ some r → IsReduced r node
reduce_node-IsReduced fuel h r node e x y to_x to_y p =
    let fewer = λ (i j : ℕ) (l : Link r i j). ((reduce_node-Link fuel h r node e i j).0 l).0 in
    elim ((reduce_node-Link fuel h r node e node x).0 to_x).1 [
      | inl other ↦ other refl
      | inr out ↦ out (y, Link-next_nodes h node y (fewer node y to_y), Reaches-mono fewer p)
    ]

reduce_node-IsReduced_keep :
    (fuel : ℕ) (node : ℕ) (h r : Heap) (n : ℕ)
    → reduce_node fuel h n ≡ some r
    → IsReduced h node
    → IsReduced r node
reduce_node-IsReduced_keep fuel node h r n e old x y to_x to_y p =
    let fewer = λ (i j : ℕ) (l : Link r i j). ((reduce_node-Link fuel h r n e i j).0 l).0 in
    old x y (fewer node x to_x) (fewer node y to_y) (Reaches-mono fewer p)

-- After the reduction, none of the nodes has a link to what another of its next nodes leads to.
pub transitive_reduction-IsReduced :
    (fuel : ℕ) (ns : List ℕ) (h r : Heap)
    → transitive_reduction fuel h ns ≡ some r
    → (node : ℕ) → In node ns
    → IsReduced r node
unfolding transitive_reduction
transitive_reduction-IsReduced fuel [] h r e node i = absurd i
transitive_reduction-IsReduced fuel (n ∷ ns) h r e node i =
    elim (Option-cases (reduce_node fuel h n)) [
      | inl q ↦ absurd (none≢some (rw (q, transitive_reduction) at e))
      | inr (g, q) ↦
          let rest = rw (q, transitive_reduction) at e in
          elim i [
            | inl same ↦
                transitive_reduction-inv (λ f. IsReduced f node) fuel
                  (reduce_node-IsReduced_keep fuel node) ns g r rest
                  (subst (IsReduced g) (sym same) (reduce_node-IsReduced fuel h g n q))
            | inr later ↦ transitive_reduction-IsReduced fuel ns g r rest node later
          ]
    ]

reduce_node-enough :
    (us : List ℕ) (fuel : ℕ) (h : Heap) (node : ℕ)
    → ((m n : ℕ) → In m us → Link h m n → In n us)
    → In node us
    → length us ≤ fuel
    → (r : Heap) × (reduce_node fuel h node ≡ some r)
unfolding reduce_node
reduce_node-enough us fuel h node stays inside enough =
    let (v, q) =
      gather-enough h us stays fuel (next_nodes h node) []
        (λ n i. stays node n inside (next_nodes-Link h node n i)) enough in
    (foldl (remove_link node) h (visited_among v (next_nodes h node)), rw (q, reduce_node) refl)

-- Where the links stay among `us`, as much fuel as `us` has members is enough for the reduction of
-- the nodes among them.
pub transitive_reduction-enough :
    (us : List ℕ) (fuel : ℕ) (ns : List ℕ) (h : Heap)
    → ((m n : ℕ) → In m us → Link h m n → In n us)
    → ((n : ℕ) → In n ns → In n us)
    → length us ≤ fuel
    → (r : Heap) × (transitive_reduction fuel h ns ≡ some r)
unfolding transitive_reduction
transitive_reduction-enough us fuel [] h stays inside enough = (h, refl)
transitive_reduction-enough us fuel (n ∷ ns) h stays inside enough =
    let (g, q) = reduce_node-enough us fuel h n stays (inside n (inl refl)) enough in
    let (r, e) =
      transitive_reduction-enough us fuel ns g
        (λ i j m l. stays i j m ((reduce_node-Link fuel h g n q i j).0 l).0)
        (λ x i. inside x (inr i)) enough in
    (r, rw (q, transitive_reduction) e)

-- Where the links of a graph have no cycle (each leads to a node of a higher rank), prev of each node
-- holds the nodes with a link to it and no other, and the links from the nodes of a list stay in the
-- list, transitiveReduction of nodes of the list ends with as much fuel as the list is long. After it,
-- prev is so still, none of the reduced nodes has a link to a node that another of its next nodes leads
-- to, and a node leads to the same nodes along the links as before.
pub transitive_reduction-decided :
    (rank : ℕ → ℕ) (us : List ℕ) (fuel : ℕ) (ns : List ℕ) (h : Heap)
    → IsRanked rank h
    → IsMirrored h
    → ((m n : ℕ) → In m us → Link h m n → In n us)
    → ((n : ℕ) → In n ns → In n us)
    → length us ≤ fuel
    → (node : ℕ) → In node ns
    → (r : Heap) × (transitive_reduction fuel h ns ≡ some r)
      × IsMirrored r
      × IsReduced r node
      × ((m k : ℕ) → Reaches h m k ↔ Reaches r m k)
transitive_reduction-decided rank us fuel ns h ranked mirrored stays inside enough node i =
    let (r, e) = transitive_reduction-enough us fuel ns h stays inside enough in
    (
      r,
      e,
      transitive_reduction-IsMirrored fuel ns h r e mirrored,
      transitive_reduction-IsReduced fuel ns h r e node i,
      transitive_reduction-Reaches rank fuel ns h r e ranked,
    )
