-- ===== src/TaskGraph/Reduction/Paths.antt =====
-- What `transitiveReduction` (Graph.cpp) leaves of the paths of the graph.
use apac.Prelude.{ℕ, zero, suc, ◌<◌, ◌≡◌, ◌≢◌, ◌⊎◌, sym, inl, inr, [], some}
use apac.Prelude.{
  ℕ-cases, Bool-cases, arith, contains, contains_iff, Option-cases, some_inj, none≢some,
}
use mathlib.Core.Path.{subst}
use apac.TaskGraph.Node.{Heap}
use apac.TaskGraph.Node.Link.{Link, Reaches, one, more, Reaches-trans}
use apac.TaskGraph.Reduction.{next_nodes, gather, visited_among, reduce_node}
use apac.TaskGraph.Reduction.Gather.{next_nodes-Link, Link-next_nodes, Leads, gather-Leads}
use apac.TaskGraph.Reduction.Links.{In-visited_among, Link-remove_links}

-- The links lead to nodes of a higher rank: there is no cycle.
abbrev pub IsRanked : (ℕ → ℕ) → Heap → Type 0
IsRanked rank h = (m n : ℕ) → Link h m n → rank m < rank n

rank-Reaches :
    (rank : ℕ → ℕ) (h : Heap) {m n : ℕ} → IsRanked rank h → Reaches h m n → rank m < rank n
rank-Reaches rank h ranked (one {m} {n} l) = ranked m n l
rank-Reaches rank h ranked (more {n} {k} p l) =
    let first = rank-Reaches rank h ranked p in let last = ranked n k l in ground arith

pub Reaches-map :
    {h g : Heap} {m n : ℕ}
    → ((i j : ℕ) → Link h i j → Reaches g i j)
    → Reaches h m n
    → Reaches g m n
Reaches-map f (one l) = f _ _ l
Reaches-map f (more p l) = Reaches-trans (Reaches-map f p) (f _ _ l)

-- What `reduce_node` removes: the links from the node to what its next nodes lead to.
abbrev pub Shorter : Heap → ℕ → ℕ → Type 0
Shorter h node x = Leads h (next_nodes h node) x

pub reduce_node-Link :
    (fuel : ℕ) (h r : Heap) (node : ℕ)
    → reduce_node fuel h node ≡ some r
    → (m k : ℕ)
    → (Link r m k → Link h m k × ((m ≢ node) ⊎ ¬ Shorter h node k))
      × (Link h m k → Link r m k ⊎ ((m ≡ node) × Shorter h node k))
unfolding reduce_node
reduce_node-Link fuel h r node e m k = elim (Option-cases (gather fuel h (next_nodes h node) [])) [
  | inl q ↦ absurd (none≢some (rw (q, reduce_node) at e))
  | inr (v, q) ↦
      let ts = visited_among v (next_nodes h node) in
      let leads = gather-Leads h fuel (next_nodes h node) [] v q (λ x y i _. absurd i) k in
      let chosen = In-visited_among v (next_nodes h node) k in
      let links = Link-remove_links node ts h m k in
      let seen = contains_iff k ts in
      subst
        (λ g.
          (Link g m k → Link h m k × ((m ≢ node) ⊎ ¬ Shorter h node k))
          × (Link h m k → Link g m k ⊎ ((m ≡ node) × Shorter h node k)))
        (some_inj (rw (q, reduce_node) at e))
        (
          λ l.
              let (old, c) = links.0 l in
              (
                old,
                elim c [
                  | inl other ↦ inl other
                  | inr out ↦ elim (ℕ-cases m node) [
                    | inl same ↦ inr (λ s. out (
                        chosen.1 (
                          leads.1 (inr s),
                          Link-next_nodes h node k (subst (λ x. Link h x k) same old),
                        )))
                    | inr other ↦ inl other
                  ]
                ],
              ),
          λ l. elim (ℕ-cases m node) [
            | inr other ↦ inl (links.1 (l, inl other))
            | inl same ↦ elim (Bool-cases (contains k ts)) [
              | inl c ↦ elim (leads.0 (chosen.0 (seen.0 c)).0) [
                | inl none_there ↦ absurd none_there
                | inr s ↦ inr (same, s)
              ]
              | inr c ↦ inl (links.1 (l, inr (λ i. let t = seen.1 i in cc)))
            ]
          ],
        )
]

module _ (rank : ℕ → ℕ) (h r : Heap) (node fuel : ℕ) (e : reduce_node fuel h node ≡ some r)
    (ranked : IsRanked rank h) where
  later_path : {y k : ℕ} → rank node < rank y → Reaches h y k → Reaches r y k
  later_path {y} below (one {n = k} l) = elim ((reduce_node-Link fuel h r node e y k).1 l) [
    | inl kept ↦ one kept
    | inr (same, _) ↦ let up : rank y ≡ rank node = (λ i. rank (same i)) in absurd (ground arith)
  ]
  later_path {y} below (more {n} {k} p l) =
      let up = rank-Reaches rank h ranked p in
      elim ((reduce_node-Link fuel h r node e n k).1 l) [
        | inl kept ↦ more (later_path below p) kept
        | inr (same, _) ↦
            let at : rank n ≡ rank node = (λ i. rank (same i)) in absurd (ground arith)
      ]

  from_node : (bound k : ℕ) → rank k < bound → Link h node k → Reaches r node k
  from_node (suc bound) k below l = elim ((reduce_node-Link fuel h r node e node k).1 l) [
    | inl kept ↦ one kept
    | inr (_, (y, i, p)) ↦
        let first = next_nodes-Link h node y i in
        let up = rank-Reaches rank h ranked p in
        let over = ranked node y first in
        Reaches-trans (from_node bound y (ground arith) first) (later_path over p)
  ]
  from_node zero k below l = absurd (ground arith)

  pub reduce_node-Reaches : (m k : ℕ) → Link h m k → Reaches r m k
  reduce_node-Reaches m k l = elim ((reduce_node-Link fuel h r node e m k).1 l) [
    | inl kept ↦ one kept
    | inr (same, _) ↦
        subst (λ x. Reaches r x k) (sym same)
          (from_node (suc (rank k)) k (ground arith) (subst (λ x. Link h x k) same l))
  ]
