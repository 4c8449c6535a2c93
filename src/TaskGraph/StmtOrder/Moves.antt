-- ===== src/TaskGraph/StmtOrder/Moves.antt =====
-- `addInstructionToManager` and `moveInstruction` (InstructionsOrderManager.hpp and .cpp).
use apac.Prelude.{ℕ, ◌≡◌, refl, ◌≢◌, ◌∙◌, ◌⊎◌, sym, ap, inl, inr, Bool, true, false}
use apac.Prelude.{Option, none, some, [], ◌∷◌, if◌then◌else◌, ==-self, ==-ne}
use apac.Prelude.{Option-cases, Bool-cases, ℕ-cases, arith, ltb}
use mathlib.Core.Path.{subst}
use apac.Prelude.Maps.{has_key, SearchMap}
use apac.TaskGraph.Instruction.{Clang}
use apac.Prelude.{some_inj, none≢some, if_true}
use apac.TaskGraph.StmtOrder.{
  StmtOrder, Orders, Group, insert_new, insert_in_group, move_to_group_of, move_instruction,
  add_instruction_to_manager, make_shared, sub_order,
}
use apac.TaskGraph.StmtOrder.Groups.{
  InGroup, IsLinked, IsCounted, moved, moved-IsLinked, links-move_group, insert_in_group-other,
  insert_in_group_self,
}

module _ (clang : Clang) where
  -- The two keys have groups, which differ.
  abbrev pub AreApart : ℕ → ℕ → StmtOrder → Type 0
  AreApart key1 key2 o =
      (g1 : ℕ) × (g2 : ℕ) × (o.instruction_links key1 ≡ some g1)
      × (o.instruction_links key2 ≡ some g2)
      × (g1 ≢ g2)

  -- What the move does where the keys are apart: a whole group goes to the other.
  move_to_group_of-moved :
      (key new_key : ℕ) (o : StmtOrder) (old new : ℕ) (group there : Group)
      → o.instruction_links key ≡ some old
      → o.instruction_links new_key ≡ some new
      → o.instruction_groups old ≡ some group
      → o.instruction_groups new ≡ some there
      → move_to_group_of clang key new_key o ≡ moved clang group old new o
  move_to_group_of-moved key new_key o old new group there e1 e2 e3 e4 =
      rw (e1, move_to_group_of) (rw e2 (rw e3 (rw e4 refl)))

  same_branches : {A : Type 0} {x : A} (b : Bool) → (if b then x else x) ≡ x
  same_branches true = refl
  same_branches false = refl

  move_to_group_of-IsLinked :
      (key new_key : ℕ) (o : StmtOrder)
      → IsLinked o
      → AreApart key new_key o
      → IsLinked (move_to_group_of clang key new_key o)
        × ((g : ℕ) × ((move_to_group_of clang key new_key o).instruction_links key ≡ some g)
            × ((move_to_group_of clang key new_key o).instruction_links new_key ≡ some g))
  move_to_group_of-IsLinked key new_key o linked (old, new, e1, e2, ne) =
      let (group, e3, here) = linked key old e1 in
      let (there, e4, there_new) = linked new_key new e2 in
      let step = move_to_group_of-moved key new_key o old new group there e1 e2 e3 e4 in
      let link_new : (if has_key new_key group then some new else o.instruction_links new_key)
          ≡ some new =
        rw e2 (same_branches (has_key new_key group)) in
      subst
        (λ (x : StmtOrder).
          IsLinked x
          × ((g : ℕ) × (x.instruction_links key ≡ some g) × (x.instruction_links new_key ≡ some g)))
        (sym step)
        (
          moved-IsLinked clang group there old new o linked ne e3 e4,
          (
            new,
            links-move_group clang group new o key ∙ if_true _ _ here,
            links-move_group clang group new o new_key ∙ link_new,
          ),
        )

  -- If each statement stands in the group that it is linked to, and the two keys have groups that
  -- differ, then after `moveInstruction` this is still so, and both keys are linked to one group.
  pub move_instruction-IsLinked :
      (key1 key2 : ℕ) (o : StmtOrder)
      → IsLinked o
      → AreApart key1 key2 o
      → IsLinked (move_instruction clang (some key1) (some key2) o)
        × ((g : ℕ) × ((move_instruction clang (some key1) (some key2) o).instruction_links key1
              ≡ some g)
            × ((move_instruction clang (some key1) (some key2) o).instruction_links key2 ≡ some g))
  unfolding move_instruction
  move_instruction-IsLinked key1 key2 o linked apart =
      elim (Bool-cases (ltb (clang.begin_loc key2) (clang.begin_loc key1))) [
        | inl e ↦
            let (g1, g2, e1, e2, ne) = apart in
            let both =
              move_to_group_of-IsLinked key2 key1 o linked (g2, g1, e2, e1, λ q. ne (sym q)) in
            rw (e, move_instruction) (both.0, (both.1.0, both.1.2, both.1.1))
        | inr e ↦ rw (e, move_instruction) (move_to_group_of-IsLinked key1 key2 o linked apart)
      ]

  -- A group that is not there is made with one statement.
  pub new_group :
      (c : ℕ) (a : ℕ × Option ℕ) (m : SearchMap Group)
      → m c ≡ none
      → insert_in_group clang c a (insert_new c [] m) c ≡ some (a ∷ [])
  new_group c a m free =
      insert_in_group_self clang c a (insert_new c [] m) []
        (rw (free, insert_new) (rw (==-self c) refl))

  old_group :
      (c k : ℕ) (a : ℕ × Option ℕ) (m : SearchMap Group)
      → m c ≡ none
      → k ≢ c
      → insert_in_group clang c a (insert_new c [] m) k ≡ m k
  old_group c k a m free ne =
      insert_in_group-other clang c k a (insert_new c [] m) ne
      ∙ rw (free, insert_new) (rw (==-ne k c ne) refl)

  -- The links that `insert` leaves.
  insert_new-cases :
      (k c s g : ℕ) (m : SearchMap ℕ)
      → insert_new k c m s ≡ some g
      → (m s ≡ some g) ⊎ (s ≡ k) × (c ≡ g)
  insert_new-cases k c s g m e = elim (Option-cases (m k)) [
    | inl q ↦ elim (ℕ-cases s k) [
      | inl same ↦ inr (same, some_inj (rw (q, insert_new, same, ==-self k) at e))
      | inr ne ↦ inl (rw (q, insert_new, ==-ne s k ne) at e)
    ]
    | inr (x, q) ↦ inl (rw (q, insert_new) at e)
  ]

  -- If each statement stands in the group that it is linked to, and the numbers of the groups lie
  -- below the counter, then both still hold after `addInstructionToManager`.
  pub add_instruction_to_manager-IsLinked :
      (key : ℕ) (o : StmtOrder) (orders : Orders)
      → IsLinked o
      → IsCounted o
      → IsLinked (add_instruction_to_manager clang key o orders).0
        × IsCounted (add_instruction_to_manager clang key o orders).0
  unfolding add_instruction_to_manager
  add_instruction_to_manager-IsLinked key o orders linked counted =
      let c = o.group_counter in
      let free : o.instruction_groups c ≡ none = counted c (ground arith) in
      let a : ℕ × Option ℕ = (key, (make_shared (sub_order clang key) orders).0) in
      (
        λ s g l. elim (insert_new-cases key c s g o.instruction_links l) [
          | inl old ↦
              let (group, at, there) = linked s g old in
              let ne : g ≢ c = λ e. none≢some (sym free ∙ ap o.instruction_groups (sym e) ∙ at) in
              (group, old_group c g a o.instruction_groups free ne ∙ at, there)
          | inr (same, at_c) ↦
              subst (InGroup (add_instruction_to_manager clang key o orders).0 s) at_c
                (a ∷ [], new_group c a o.instruction_groups free, ground arith)
        ],
        λ g above.
            old_group c g a o.instruction_groups free (ground arith) ∙ counted g (ground arith),
      )
