-- ===== src/Prelude/Walk/Found.antt =====
-- What a walk finds: what is selected and can be reached. A walk may leave out what stands below some
-- nodes of the tree.
use Prim.Native.Nat.{ℕ, ◌≤◌}
use mathlib.Core.Path.{◌≡◌, refl, sym, subst}
use mathlib.Core.Logic.{◌↔◌, inl, inr}
use mathlib.Core.Bool.{Bool, true}
use mathlib.Core.Option.{some}
use mathlib.Core.List.{List, [], ◌∷◌}
use native.Mathlib.Omega.{arith}
use apac.Prelude.Tests.{if◌then◌else◌, Bool-cases}
use apac.Prelude.Lists.{In, In-append_left, In-append_right, In-append_cases}
use apac.Prelude.Walk.{
  count, Tree, Trees, tree, no_trees, branch, root, roots, size, sizes, IsTreeOf, AreTreesOf,
  visit_front, picked, picked_all, walk_queue, walk_queue-picked,
}

pub In-count : (x : ℕ) (ys : List ℕ) → In x ys ↔ (1 ≤ count x ys)
In-count x [] = ground arith
In-count x (y ∷ ys) = let rest = In-count x ys in ground (arith, rest)

pub data Finds (next : ℕ → List ℕ) (pick : ℕ → Bool) : ℕ → ℕ → Type 0 where
  here : {s : ℕ} → pick s ≡ true → Finds next pick s s
  below : {s c x : ℕ} → In c (next s) → Finds next pick c x → Finds next pick s x

module _ (next : ℕ → List ℕ) (pick : ℕ → Bool) where
  mutual
    picked-Finds :
        (t : Tree) (x : ℕ)
        → IsTreeOf next t
        → In x (picked next pick t)
        → Finds next pick (root t) x
    picked-Finds (tree s ts) x is i =
        elim (In-append_cases x (picked_all next pick ts) (visit_front next pick s []) i) [
          | inl deep ↦
              let (c, at, found) = picked_all-Finds ts x is.1 deep in
              below (subst (λ l. In c l) is.0 at) found
          | inr own ↦ elim (Bool-cases (pick s)) [
            | inl e ↦ elim (rw e at own) [
              | inl same ↦ subst (λ y. Finds next pick s y) (sym same) (here e)
              | inr absent ↦ absurd absent
            ]
            | inr e ↦ absurd (rw e at own)
          ]
        ]

    picked_all-Finds :
        (ts : Trees) (x : ℕ)
        → AreTreesOf next ts
        → In x (picked_all next pick ts)
        → (c : ℕ) × In c (roots ts) × Finds next pick c x
    picked_all-Finds no_trees x are i = absurd i
    picked_all-Finds (branch t ts) x are i =
        elim (In-append_cases x (picked next pick t) (picked_all next pick ts) i) [
          | inl first ↦ (root t, inl refl, picked-Finds t x are.0 first)
          | inr later ↦ let (c, at, found) = picked_all-Finds ts x are.1 later in (c, inr at, found)
        ]

  mutual
    Finds-picked :
        (t : Tree) (x : ℕ)
        → IsTreeOf next t
        → Finds next pick (root t) x
        → In x (picked next pick t)
    Finds-picked (tree s ts) x is (here e) =
        In-append_right s (picked_all next pick ts) (visit_front next pick s []) (rw e (inl refl))
    Finds-picked (tree s ts) x is (below {c} i found) =
        In-append_left x (picked_all next pick ts) (visit_front next pick s [])
          (Finds-picked_all ts c x is.1 (subst (λ l. In c l) (sym is.0) i) found)

    Finds-picked_all :
        (ts : Trees) (c x : ℕ)
        → AreTreesOf next ts
        → In c (roots ts)
        → Finds next pick c x
        → In x (picked_all next pick ts)
    Finds-picked_all no_trees c x are i found = absurd i
    Finds-picked_all (branch t ts) c x are (inl same) found =
        In-append_left x (picked next pick t) (picked_all next pick ts)
          (Finds-picked t x are.0 (subst (λ y. Finds next pick y x) same found))
    Finds-picked_all (branch t ts) c x are (inr later) found =
        In-append_right x (picked next pick t) (picked_all next pick ts)
          (Finds-picked_all ts c x are.1 later found)

module _ (next : ℕ → List ℕ) (cut : ℕ → Bool) where
  abbrev pub below_cut : ℕ → List ℕ
  below_cut s = if cut s then [] else next s

  abbrev mutual
    pub prune : Tree → Tree
    prune (tree s ts) = tree s (if cut s then no_trees else prune_all ts)

    pub prune_all : Trees → Trees
    prune_all no_trees = no_trees
    prune_all (branch t ts) = branch (prune t) (prune_all ts)

  pub root-prune : (t : Tree) → root (prune t) ≡ root t
  root-prune (tree s ts) = refl

  roots-prune : (ts : Trees) → roots (prune_all ts) ≡ roots ts
  roots-prune no_trees = refl
  roots-prune (branch t ts) = λ i. root-prune t i ∷ roots-prune ts i

  mutual
    pub IsTreeOf-prune : (t : Tree) → IsTreeOf next t → IsTreeOf below_cut (prune t)
    IsTreeOf-prune (tree s ts) is = elim (Bool-cases (cut s)) [
      | inl e ↦ rw e (refl, tt)
      | inr e ↦ rw (e, roots-prune ts) (is.0, AreTreesOf-prune ts is.1)
    ]

    AreTreesOf-prune : (ts : Trees) → AreTreesOf next ts → AreTreesOf below_cut (prune_all ts)
    AreTreesOf-prune no_trees are = tt
    AreTreesOf-prune (branch t ts) are = (IsTreeOf-prune t are.0, AreTreesOf-prune ts are.1)

  mutual
    pub size-prune : (t : Tree) → size (prune t) ≤ size t
    size-prune (tree s ts) = elim (Bool-cases (cut s)) [
      | inl e ↦ rw e (ground arith)
      | inr e ↦ rw e (let rest = sizes-prune ts in ground (arith, rest))
    ]

    sizes-prune : (ts : Trees) → sizes (prune_all ts) ≤ sizes ts
    sizes-prune no_trees = ground arith
    sizes-prune (branch t ts) =
        let first = size-prune t in let rest = sizes-prune ts in ground (arith, first, rest)

-- A walk that leaves out what stands below some nodes ends with as much fuel as the tree has nodes,
-- and has found what can be reached, as often as it stands there.
pub walk_queue-below_cut :
    (next : ℕ → List ℕ) (cut pick : ℕ → Bool) (fuel : ℕ) (t : Tree)
    → IsTreeOf next t
    → size t ≤ fuel
    → (r : List ℕ) × (walk_queue (below_cut next cut) pick fuel (root t ∷ []) [] ≡ some r)
      × ((x : ℕ) → In x r ↔ Finds (below_cut next cut) pick (root t) x)
walk_queue-below_cut next cut pick fuel t is enough =
    let smaller = size-prune next cut t in
    let pruned = IsTreeOf-prune next cut t is in
    let (r, e, counted) =
      walk_queue-picked (below_cut next cut) pick fuel (prune next cut t) pruned
        (ground (arith, smaller)) in
    (
      r,
      rw (root-prune next cut t) at e,
      λ x.
          let many = counted x in
          let left = In-count x r in
          let right = In-count x (picked (below_cut next cut) pick (prune next cut t)) in
          (
            λ i.
                subst (λ y. Finds (below_cut next cut) pick y x) (root-prune next cut t)
                  (picked-Finds (below_cut next cut) pick (prune next cut t) x pruned
                    (right.1 (rw many at left.0 i))),
            λ f. left.1 (
                rw many (
                  right.0 (
                    Finds-picked (below_cut next cut) pick (prune next cut t) x pruned (
                      subst (λ y. Finds (below_cut next cut) pick y x) (sym (root-prune next cut t))
                        f)))),
          ),
    )
