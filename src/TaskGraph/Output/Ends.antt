-- ===== src/TaskGraph/Output/Ends.antt =====
-- `isPragmaValid` (OutputHandler.cpp) ends, and what it decides then.
use apac.Prelude.{
  ℕ, zero, suc, ◌≤◌, ◌≡◌, refl, ◌↔◌, inl, inr, Bool, true, false, ◌||◌, Option, none, some, [], ◌∷◌,
}
use apac.Prelude.{In, arith, Bool-cases, Returns, Returns-value, Returns-if}
use apac.Prelude.Maps.{keys}
use mathlib.Core.Path.{subst}
use apac.Prelude.Walk.{
  Tree, Trees, tree, no_trees, branch, root, roots, size, sizes, IsTreeOf, AreTreesOf, push_trees,
  AreTreesOf-push, roots-push, sizes-push,
}
use apac.TaskGraph.Node.{Heap}
use apac.TaskGraph.StmtOrder.{StmtOrder, Group, get_node}
use apac.TaskGraph.Output.{
  Source, PragmaStatus, new_status, find_call, has_function_call_in, if_status, single_status,
  group_status, call_status, is_pragma_valid,
}
use apac.TaskGraph.Output.Calls.{GroupHasCall}
use apac.TaskGraph.Output.Status.{MayBeTask, is_pragma_valid-MayBeTask}

module _ (src : Source) where
  find_call-enough :
      (fuel : ℕ) (ts : Trees)
      → AreTreesOf src.ast.children ts
      → sizes ts ≤ fuel
      → (b : Bool) × (find_call src fuel (roots ts) ≡ some b)
  unfolding find_call
  find_call-enough fuel no_trees are enough = (false, refl)
  find_call-enough zero (branch (tree s ts) us) are enough = absurd (ground arith)
  find_call-enough (suc fuel) (branch (tree s ts) us) are enough =
      elim (Bool-cases (src.ast.is_call_expr s)) [
        | inl call ↦ (true, rw (call, find_call) refl)
        | inr no_call ↦
            let all = sizes-push ts us in
            let (b, e) =
              find_call-enough fuel (push_trees ts us)
                (AreTreesOf-push src.ast.children ts us are.0.1 are.1) (ground (arith, all)) in
            (b, rw (no_call, find_call) (rw (roots-push ts us, are.0.0) at e))
      ]

  -- The statement is a tree of at most so many nodes.
  abbrev pub IsSmall : ℕ → ℕ → Type 0
  IsSmall fuel s = (t : Tree) × (root t ≡ s) × IsTreeOf src.ast.children t × (size t ≤ fuel)

  has_function_call_in-enough :
      (fuel : ℕ) (group : Group)
      → ((s : ℕ) → In s (keys group) → IsSmall fuel s)
      → (b : Bool) × (has_function_call_in src fuel group ≡ some b)
  unfolding has_function_call_in
  has_function_call_in-enough fuel [] small = (false, refl)
  has_function_call_in-enough fuel ((instr, sub) ∷ group) small =
      let (t, at, is, fits) = small instr (inl refl) in
      let (b, e) = find_call-enough fuel (branch t no_trees) (is, tt) (ground arith) in
      let (b', e') = has_function_call_in-enough fuel group (λ s i. small s (inr i)) in
      continued b (subst (λ s. find_call src fuel (s ∷ []) ≡ some b) at e) b' e'
    where
      continued :
          (b : Bool)
          → find_call src fuel (instr ∷ []) ≡ some b
          → (b' : Bool) → has_function_call_in src fuel group ≡ some b'
          → (c : Bool) × (has_function_call_in src fuel ((instr, sub) ∷ group) ≡ some c)
      continued true e b' e' = (true, rw (e, has_function_call_in) refl)
      continued false e b' e' = (b', rw (e, has_function_call_in) e')

  if_status-Returns :
      (h : Heap) (o : StmtOrder) (instr n : ℕ) (p : PragmaStatus)
      → get_node instr o ≡ some n
      → Returns (if_status src h o instr p)
  if_status-Returns h o instr n p node = rw (node, if_status) (Returns-value _)

  single_status-Returns :
      (h : Heap) (o : StmtOrder) (instr n : ℕ) (sub : Option ℕ) (p : PragmaStatus)
      → get_node instr o ≡ some n
      → Returns (single_status src h o (instr, sub) p)
  unfolding single_status
  single_status-Returns h o instr n none p node =
      Returns-if (src.is_decl_stmt instr) _ _ (Returns-value _) (
        Returns-if (src.is_cxx_delete_expr instr || src.is_goto_stmt instr) _ _ (Returns-value _)
          (Returns-value _))
  single_status-Returns h o instr n (some k) p node =
      Returns-if (src.is_decl_stmt instr) _ _ (Returns-value _) (
        Returns-if (src.is_cxx_delete_expr instr || src.is_goto_stmt instr) _ _ (Returns-value _) (
          Returns-if (src.clang.is_if_stmt instr) _ _ (if_status-Returns h o instr n p node)
            (Returns-value _)))

  group_status-Returns :
      (h : Heap) (o : StmtOrder) (group : Group) (p : PragmaStatus)
      → ((s : ℕ) → In s (keys group) → (n : ℕ) × (get_node s o ≡ some n))
      → Returns (group_status src h o group p)
  group_status-Returns h o [] p nodes = Returns-value p
  group_status-Returns h o ((instr, sub) ∷ []) p nodes =
      let (n, node) = nodes instr (inl refl) in single_status-Returns h o instr n sub p node
  group_status-Returns h o (a ∷ b ∷ group) p nodes = Returns-value p

  call_status-Returns :
      (fuel : ℕ) (group : Group) (p : PragmaStatus)
      → ((s : ℕ) → In s (keys group) → IsSmall fuel s)
      → Returns (call_status src fuel group p)
  call_status-Returns fuel group p small =
      let (b, e) = has_function_call_in-enough fuel group small in
      Returns-if p.is_task_valid _ _ (rw (e, call_status) (Returns-value _)) (Returns-value p)

  is_pragma_valid-Returns :
      (fuel : ℕ) (h : Heap) (o : StmtOrder) (group : Group)
      → ((s : ℕ) → In s (keys group) → IsSmall fuel s)
      → ((s : ℕ) → In s (keys group) → (n : ℕ) × (get_node s o ≡ some n))
      → (p' : PragmaStatus) × (is_pragma_valid src fuel h o group new_status ≡ some p')
  unfolding is_pragma_valid
  is_pragma_valid-Returns fuel h o [] small nodes = (new_status, refl)
  is_pragma_valid-Returns fuel h o (instr ∷ group) small nodes =
      let (p, e) = group_status-Returns h o (instr ∷ group) new_status nodes in
      let (p', e') = call_status-Returns fuel (instr ∷ group) p small in
      (p', rw (e, is_pragma_valid) e')

  -- Where each statement of a group is a tree of at most so many nodes as there is fuel, and has a node
  -- of the graph, isPragmaValid ends: the group gets a task exactly if it may be one (it has not exactly
  -- one statement, or this is no declaration, no delete and no goto and has no scope of its own), and
  -- the task increments the depth exactly if it may be one and a call stands in one of its statements.
  pub is_pragma_valid-decided :
      (fuel : ℕ) (h : Heap) (o : StmtOrder) (group : Group)
      → ((s : ℕ) → In s (keys group) → IsSmall fuel s)
      → ((s : ℕ) → In s (keys group) → (n : ℕ) × (get_node s o ≡ some n))
      → (p' : PragmaStatus) × (is_pragma_valid src fuel h o group new_status ≡ some p')
        × ((p'.is_task_valid ≡ true) ↔ MayBeTask src group)
        × ((p'.has_function_call ≡ true) ↔ (MayBeTask src group × GroupHasCall src group))
  is_pragma_valid-decided fuel h o group small nodes =
      let (p', e) = is_pragma_valid-Returns fuel h o group small nodes in
      let (task, calls) = is_pragma_valid-MayBeTask src fuel h o group p' e in (p', e, task, calls)
