-- ===== src/TaskGraph/Reduction/Links.antt =====
-- The links that `transitiveReduction` (Graph.cpp) removes at one node.
use apac.Prelude.{ℕ, ◌≢◌, ◌↔◌, ◌⊎◌, inl, inr, List, [], ◌∷◌}
use apac.Prelude.{foldl, Bool-cases, arith, In, In-erase, contains, contains_iff, foldl_inv}
use apac.Prelude.Maps.{has_key-erase_key}
use apac.TaskGraph.Node.{Heap}
use apac.TaskGraph.Node.Link.{Link, IsMirrored}
use apac.TaskGraph.Reduction.{visited_among, remove_link}

pub In-visited_among : (v ns : List ℕ) (x : ℕ) → In x (visited_among v ns) ↔ (In x v × In x ns)
In-visited_among v [] x = (λ i. absurd i, λ c. absurd c.1)
In-visited_among v (n ∷ ns) x = elim (Bool-cases (contains n v)) [
  | inl e ↦ rw (e, visited_among) (ground (arith, In-visited_among v ns x, contains_iff n v))
  | inr e ↦ rw (e, visited_among) (ground (arith, In-visited_among v ns x, contains_iff n v))
]

module _ (node : ℕ) where
  -- It is another link than the one from `node` to `t`.
  abbrev pub Other : ℕ → ℕ → ℕ → Type 0
  Other t m k = (m ≢ node) ⊎ (k ≢ t)

  Link-remove_link :
      (h : Heap) (t m k : ℕ) → Link (remove_link node h t) m k ↔ (Link h m k × Other t m k)
  Link-remove_link h t m k = ground (arith, has_key-erase_key t k (h node).next)

  In-remove_link :
      (h : Heap) (t m k : ℕ) → In m (remove_link node h t k).prev ↔ (In m (h k).prev × Other t m k)
  In-remove_link h t m k = ground (arith, In-erase m node (h k).prev)

  -- The links after the links to `ts` are removed: those to no member of it, and those of others.
  pub Link-remove_links :
      (ts : List ℕ) (h : Heap) (m k : ℕ)
      → Link (foldl (remove_link node) h ts) m k ↔ (Link h m k × ((m ≢ node) ⊎ ¬ In k ts))
  Link-remove_links [] h m k = (λ l. (l, inr (λ i. absurd i)), λ c. c.0)
  Link-remove_links (t ∷ ts) h m k =
      let rest = Link-remove_links ts (remove_link node h t) m k in
      let first = Link-remove_link h t m k in ground (arith, rest, first)

  pub remove_links-IsMirrored :
      (ts : List ℕ) (h : Heap) → IsMirrored h → IsMirrored (foldl (remove_link node) h ts)
  remove_links-IsMirrored ts h mirrored =
      foldl_inv (remove_link node) IsMirrored ts h
        (λ g t i ok m k.
          let links = Link-remove_link g t m k in
          let prevs = In-remove_link g t m k in
          let same = ok m k in ground (arith, links, prevs, same))
        mirrored
