-- ===== src/TaskGraph/Reduction/Gather.antt =====
-- What the search of `transitiveReduction` (Graph.cpp) visits.
use apac.Prelude.{ℕ, ◌≤◌, ◌≡◌, refl, ◌↔◌, ◌⊎◌, inl, inr, some, List, [], ◌∷◌, In}
use apac.Prelude.{Option-cases, some_inj, none≢some, length, arith}
use mathlib.Core.Path.{subst}
use apac.Prelude.Maps.{has_key_iff}
use apac.Prelude.Search.{
  push_all, In-push_all, search, search-sound, search-IsClosed, search-keeps, IsClosed,
  search-enough, unvisited_le,
}
use apac.TaskGraph.Node.{Heap}
use apac.TaskGraph.Node.Link.{Link, Reaches, one, more}
use apac.TaskGraph.Reduction.{next_nodes, gather}

module _ (h : Heap) where
  pub next_nodes-Link : (m n : ℕ) → In n (next_nodes h m) → Link h m n
  next_nodes-Link m n i = (has_key_iff n (h m).next).1 i

  pub Link-next_nodes : (m n : ℕ) → Link h m n → In n (next_nodes h m)
  Link-next_nodes m n l = (has_key_iff n (h m).next).0 l

  abbrev pub Leads : List ℕ → ℕ → Type 0
  Leads ns x = (y : ℕ) × In y ns × Reaches h y x

  -- From a node whose next nodes are in a closed set, all paths stay in it.
  from_first :
      (v : List ℕ) (n x : ℕ)
      → IsClosed (next_nodes h) v []
      → ((y : ℕ) → Link h n y → In y v)
      → Reaches h n x
      → In x v
  from_first v n x closed inside (one l) = inside x l
  from_first v n x closed inside (more {n = k} p l) =
      elim (closed k x (from_first v n k closed inside p) (Link-next_nodes k x l)) [
        | inl j ↦ j
        | inr j ↦ absurd j
      ]

  search-Reaches :
      (fuel n : ℕ) (v r : List ℕ)
      → search (next_nodes h) fuel v (push_all (next_nodes h n) []) ≡ some r
      → IsClosed (next_nodes h) v []
      → IsClosed (next_nodes h) r [] × ((x : ℕ) → In x r ↔ (In x v ⊎ Reaches h n x))
  search-Reaches fuel n v r e closed =
      let open_stack : IsClosed (next_nodes h) v (push_all (next_nodes h n) []) =
        λ x y i j. elim (closed x y i j) [ inl a ↦ inl a | inr b ↦ absurd b ] in
      let closed_r =
        search-IsClosed (next_nodes h) fuel v (push_all (next_nodes h n) []) r e open_stack in
      let keeps = search-keeps (next_nodes h) fuel v (push_all (next_nodes h n) []) r e in
      (
        closed_r,
        λ x. (
          search-sound (next_nodes h) (λ y. In y v ⊎ Reaches h n y)
              (λ y z q j. elim q [
                | inl old ↦ elim (closed y z old j) [ inl a ↦ inl a | inr b ↦ absurd b ]
                | inr p ↦ inr (more p (next_nodes-Link y z j))
              ])
              fuel v (push_all (next_nodes h n) []) r e
              (λ y c. elim c [
                | inl old ↦ inl old
                | inr new ↦ elim ((In-push_all y (next_nodes h n) []).0 new) [
                  | inl i ↦ inr (one (next_nodes-Link n y i))
                  | inr i ↦ absurd i
                ]
              ])
              x,
          λ c. elim c [
            | inl old ↦ keeps x (inl old)
            | inr p ↦
                from_first r n x closed_r
                  (λ y l.
                    keeps y
                      (inr ((In-push_all y (next_nodes h n) []).1 (inl (Link-next_nodes n y l)))))
                  p
          ],
        ),
      )

  -- The search of `transitiveReduction` at a node visits all that its next nodes lead to.
  pub gather-Leads :
      (fuel : ℕ) (ns v r : List ℕ)
      → gather fuel h ns v ≡ some r
      → IsClosed (next_nodes h) v []
      → (x : ℕ) → In x r ↔ (In x v ⊎ Leads ns x)
  unfolding gather
  gather-Leads fuel [] v r e closed x =
      subst (λ t. In x t ↔ (In x v ⊎ Leads [] x)) (some_inj e)
        (inl, λ c. elim c [ inl i ↦ i | inr b ↦ absurd b.1 ])
  gather-Leads fuel (n ∷ ns) v r e closed x =
      elim (Option-cases (search (next_nodes h) fuel v (push_all (next_nodes h n) []))) [
        | inl q ↦ absurd (none≢some (rw (q, gather) at e))
        | inr (v', q) ↦
            let (closed', first) = search-Reaches fuel n v v' q closed in
            let rest = gather-Leads fuel ns v' r (rw (q, gather) at e) closed' x in
            (
              λ i. elim (rest.0 i) [
                | inl a ↦ elim ((first x).0 a) [ inl old ↦ inl old | inr p ↦ inr (n, inl refl, p) ]
                | inr b ↦ inr (b.0, inr b.1, b.2)
              ],
              λ c. elim c [
                | inl old ↦ rest.1 (inl ((first x).1 (inl old)))
                | inr b ↦ elim b.1 [
                  | inl same ↦
                      rest.1 (inl ((first x).1 (inr (subst (λ y. Reaches h y x) same b.2))))
                  | inr later ↦ rest.1 (inr (b.0, later, b.2))
                ]
              ],
            )
      ]

  -- Where the links stay among `us`, as much fuel as `us` has members is enough.
  pub gather-enough :
      (us : List ℕ)
      → ((m n : ℕ) → In m us → Link h m n → In n us)
      → (fuel : ℕ) (ns v : List ℕ) → ((n : ℕ) → In n ns → In n us)
      → length us ≤ fuel
      → (r : List ℕ) × (gather fuel h ns v ≡ some r)
  unfolding gather
  gather-enough us stays fuel [] v inside enough = (v, refl)
  gather-enough us stays fuel (n ∷ ns) v inside enough =
      let fewer = unvisited_le us v in
      let (v', q) =
        search-enough (next_nodes h) us (λ x y i j. stays x y i (next_nodes-Link x y j)) fuel v
          (push_all (next_nodes h n) [])
          (λ x i. elim ((In-push_all x (next_nodes h n) []).0 i) [
            | inl new ↦ stays n x (inside n (inl refl)) (next_nodes-Link n x new)
            | inr none_there ↦ absurd none_there
          ])
          (ground arith) in
      let (r, e) = gather-enough us stays fuel ns v' (λ x i. inside x (inr i)) enough in
      (r, rw (q, gather) e)
