-- ===== src/Prelude/Walk.antt =====
-- Walks of a tree with a queue or a stack of what is to be visited: what a visit selects is kept, and
-- what it leads to is pushed. The fuel counts the visits.
pub mod Found
use Prim.Native.Nat.{ℕ, zero, suc, ◌+◌, ◌≤◌}
use mathlib.Core.Path.{◌≡◌, refl, sym, ◌∙◌, ap, subst}
use mathlib.Core.Logic.{inl, inr}
use mathlib.Core.Bool.{Bool, true, false}
use mathlib.Core.Option.{Option, none, some}
use mathlib.Core.List.{List, [], ◌∷◌, ◌++◌, append_assoc, append-nil}
use native.Mathlib.Omega.{arith}
use apac.Prelude.Tests.{◌==◌, if◌then◌else◌, Bool-cases}
use apac.Prelude.Search.{push_all}

-- How often a number stands in a list.
abbrev pub count : ℕ → List ℕ → ℕ
count x [] = 0
count x (y ∷ ys) = let rest = count x ys in if x == y then suc rest else rest

pub count_append : (x : ℕ) (ys zs : List ℕ) → count x (ys ++ zs) ≡ count x ys + count x zs
count_append x [] zs = ground arith
count_append x (y ∷ ys) zs = let rest = count_append x ys zs in ground (arith, rest)

mutual
  pub data Tree : Type 0 where
    tree : ℕ → Trees → Tree

  pub data Trees : Type 0 where
    no_trees : Trees
    branch : Tree → Trees → Trees

abbrev pub root : Tree → ℕ
root (tree s ts) = s

abbrev pub roots : Trees → List ℕ
roots no_trees = []
roots (branch t ts) = root t ∷ roots ts

abbrev mutual
  pub size : Tree → ℕ
  size (tree s ts) = suc (sizes ts)

  pub sizes : Trees → ℕ
  sizes no_trees = 0
  sizes (branch t ts) = size t + sizes ts

abbrev append_trees : Trees → Trees → Trees
append_trees no_trees us = us
append_trees (branch t ts) us = branch t (append_trees ts us)

abbrev pub push_trees : Trees → Trees → Trees
push_trees no_trees us = us
push_trees (branch t ts) us = push_trees ts (branch t us)

module _ (next : ℕ → List ℕ) where
  -- The tree is what `next` unfolds to from its root.
  abbrev mutual
    pub IsTreeOf : Tree → Type 0
    IsTreeOf (tree s ts) = (roots ts ≡ next s) × AreTreesOf ts

    pub AreTreesOf : Trees → Type 0
    AreTreesOf no_trees = Unit
    AreTreesOf (branch t ts) = IsTreeOf t × AreTreesOf ts

  AreTreesOf-append :
      (ts us : Trees) → AreTreesOf ts → AreTreesOf us → AreTreesOf (append_trees ts us)
  AreTreesOf-append no_trees us a b = b
  AreTreesOf-append (branch t ts) us a b = (a.0, AreTreesOf-append ts us a.1 b)

  pub AreTreesOf-push :
      (ts us : Trees) → AreTreesOf ts → AreTreesOf us → AreTreesOf (push_trees ts us)
  AreTreesOf-push no_trees us a b = b
  AreTreesOf-push (branch t ts) us a b = AreTreesOf-push ts (branch t us) a.1 (a.0, b)

module _ (next : ℕ → List ℕ) (pick : ℕ → Bool) where
  abbrev pub visit_back : List ℕ → ℕ → List ℕ
  visit_back acc s = if pick s then acc ++ s ∷ [] else acc

  abbrev pub visit_front : ℕ → List ℕ → List ℕ
  visit_front s acc = if pick s then s ∷ acc else acc

  -- `none` is out of fuel.
  unfoldable pub walk_queue : ℕ → List ℕ → List ℕ → Option (List ℕ)
  walk_queue fuel [] acc = some acc
  walk_queue zero (s ∷ queue) acc = none
  walk_queue (suc fuel) (s ∷ queue) acc = walk_queue fuel (queue ++ next s) (visit_back acc s)

  unfoldable pub walk_stack : ℕ → List ℕ → List ℕ → Option (List ℕ)
  walk_stack fuel [] acc = some acc
  walk_stack zero (s ∷ stack) acc = none
  walk_stack (suc fuel) (s ∷ stack) acc =
      walk_stack fuel (push_all (next s) stack) (visit_front s acc)

  -- What is selected in the tree, each node after its children.
  abbrev mutual
    pub picked : Tree → List ℕ
    picked (tree s ts) = picked_all ts ++ visit_front s []

    pub picked_all : Trees → List ℕ
    picked_all no_trees = []
    picked_all (branch t ts) = picked t ++ picked_all ts

  -- The stack's trees, the last first.
  abbrev picked_stack : Trees → List ℕ
  picked_stack no_trees = []
  picked_stack (branch t ts) = picked_stack ts ++ picked t

  picked_stack-push :
      (ts us : Trees) → picked_stack (push_trees ts us) ≡ picked_stack us ++ picked_all ts
  picked_stack-push no_trees us = sym (append-nil (picked_stack us))
  picked_stack-push (branch t ts) us =
      picked_stack-push ts (branch t us) ∙ append_assoc (picked_stack us) (picked t) (picked_all ts)

  count-picked_append :
      (x : ℕ) (ts us : Trees)
      → count x (picked_all (append_trees ts us))
        ≡ count x (picked_all ts) + count x (picked_all us)
  count-picked_append x no_trees us = ground arith
  count-picked_append x (branch t ts) us =
      let rest = count-picked_append x ts us in
      let whole = count_append x (picked t) (picked_all (append_trees ts us)) in
      let part = count_append x (picked t) (picked_all ts) in ground (arith, rest, whole, part)

  count-visit_back :
      (x : ℕ) (acc : List ℕ) (s : ℕ)
      → count x (visit_back acc s) ≡ count x acc + count x (visit_front s [])
  count-visit_back x acc s = elim (Bool-cases (pick s)) [
    | inl e ↦ rw e (count_append x acc (s ∷ []))
    | inr e ↦ rw e (ground arith)
  ]

roots-append : (ts us : Trees) → roots (append_trees ts us) ≡ roots ts ++ roots us
roots-append no_trees us = refl
roots-append (branch t ts) us = ap (λ l. root t ∷ l) (roots-append ts us)

pub roots-push : (ts us : Trees) → roots (push_trees ts us) ≡ push_all (roots ts) (roots us)
roots-push no_trees us = refl
roots-push (branch t ts) us = roots-push ts (branch t us)

sizes-append : (ts us : Trees) → sizes (append_trees ts us) ≡ sizes ts + sizes us
sizes-append no_trees us = ground arith
sizes-append (branch t ts) us = let rest = sizes-append ts us in ground (arith, rest)

pub sizes-push : (ts us : Trees) → sizes (push_trees ts us) ≡ sizes ts + sizes us
sizes-push no_trees us = ground arith
sizes-push (branch t ts) us = let rest = sizes-push ts (branch t us) in ground (arith, rest)

module _ (next : ℕ → List ℕ) (pick : ℕ → Bool) where
  visit_front-append :
      (s : ℕ) (acc : List ℕ) → visit_front next pick s [] ++ acc ≡ visit_front next pick s acc
  visit_front-append s acc = elim (Bool-cases (pick s)) [ inl e ↦ rw e refl | inr e ↦ rw e refl ]

  walk_stack-all :
      (fuel : ℕ) (ts : Trees) (acc : List ℕ)
      → AreTreesOf next ts
      → sizes ts ≤ fuel
      → walk_stack next pick fuel (roots ts) acc ≡ some (picked_stack next pick ts ++ acc)
  unfolding walk_stack
  walk_stack-all fuel no_trees acc are enough = refl
  walk_stack-all zero (branch (tree s ts) us) acc are enough = absurd (ground arith)
  walk_stack-all (suc fuel) (branch (tree s ts) us) acc are enough =
      let ih =
        walk_stack-all fuel (push_trees ts us) (visit_front next pick s acc)
          (AreTreesOf-push next ts us are.0.1 are.1)
          (let all = sizes-push ts us in ground (arith, all)) in
      let stacked = picked_stack next pick us in
      let below = picked_all next pick ts in
      let own = visit_front next pick s [] in
      let regroup : (stacked ++ below) ++ visit_front next pick s acc
          ≡ (stacked ++ (below ++ own)) ++ acc =
        append_assoc stacked below (visit_front next pick s acc)
        ∙ ap (λ l. stacked ++ (below ++ l)) (sym (visit_front-append s acc))
        ∙ ap (λ l. stacked ++ l) (sym (append_assoc below own acc))
        ∙ sym (append_assoc stacked (below ++ own) acc) in
      (rw (roots-push ts us, are.0.0, picked_stack-push next pick ts us) at ih) ∙ ap some regroup

  walk_queue-all :
      (fuel : ℕ) (ts : Trees) (acc : List ℕ)
      → AreTreesOf next ts
      → sizes ts ≤ fuel
      → (r : List ℕ) × (walk_queue next pick fuel (roots ts) acc ≡ some r)
        × ((x : ℕ) → count x r ≡ count x acc + count x (picked_all next pick ts))
  unfolding walk_queue
  walk_queue-all fuel no_trees acc are enough = (acc, refl, λ x. ground arith)
  walk_queue-all zero (branch (tree s ts) us) acc are enough = absurd (ground arith)
  walk_queue-all (suc fuel) (branch (tree s ts) us) acc are enough =
      let ih =
        walk_queue-all fuel (append_trees us ts) (visit_back next pick acc s)
          (AreTreesOf-append next us ts are.1 are.0.1)
          (let all = sizes-append us ts in ground (arith, all)) in
      (
        ih.0,
        rw (roots-append us ts, are.0.0) at ih.1,
        λ x.
            let counted = ih.2 x in
            let now = count-visit_back next pick x acc s in
            let both = count-picked_append next pick x us ts in
            let own = count_append x (picked_all next pick ts) (visit_front next pick s []) in
            let whole =
              count_append x (picked_all next pick ts ++ visit_front next pick s [])
                (picked_all next pick us) in
            omega arith,
      )

  pub walk_stack-picked :
      (fuel : ℕ) (t : Tree)
      → IsTreeOf next t
      → size t ≤ fuel
      → walk_stack next pick fuel (root t ∷ []) [] ≡ some (picked next pick t)
  walk_stack-picked fuel t is enough =
      walk_stack-all fuel (branch t no_trees) [] (is, tt) (ground arith)
      ∙ ap some (append-nil (picked next pick t))

  pub walk_queue-picked :
      (fuel : ℕ) (t : Tree)
      → IsTreeOf next t
      → size t ≤ fuel
      → (r : List ℕ) × (walk_queue next pick fuel (root t ∷ []) [] ≡ some r)
        × ((x : ℕ) → count x r ≡ count x (picked next pick t))
  walk_queue-picked fuel t is enough =
      let (r, e, counted) = walk_queue-all fuel (branch t no_trees) [] (is, tt) (ground arith) in
      (r, e, λ x. let many = rw (append-nil (picked next pick t)) at counted x in omega arith)
