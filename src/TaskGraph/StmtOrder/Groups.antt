-- ===== src/TaskGraph/StmtOrder/Groups.antt =====
-- The groups of statements (InstructionsOrderManager.hpp and .cpp): the links agree with them.
use apac.Prelude.{ℕ, ◌≤◌, ◌≡◌, refl, ◌≢◌, ◌∙◌, sym, ap, inl, inr, true, ◌||◌}
use apac.Prelude.{Option, none, some, [], ◌∷◌, if◌then◌else◌, ◌==◌, ==-self, ==-ne}
use apac.Prelude.{Option-cases, Bool-cases, ℕ-cases, arith}
use mathlib.Core.Bool.{true≢false}
use mathlib.Core.Path.{subst}
use apac.Prelude.Maps.{has_key, SearchMap}
use apac.TaskGraph.Instruction.{Clang}
use apac.Prelude.{some_inj, if_true, if_false}
use apac.TaskGraph.StmtOrder.{
  StmtOrder, Group, insert_statement, insert_in_group, move_group, erase_group,
}

-- The statement stands in the group.
abbrev pub InGroup : StmtOrder → ℕ → ℕ → Type 0
InGroup o s g = (group : Group) × (o.instruction_groups g ≡ some group) × (has_key s group ≡ true)

-- Each statement stands in the group that it is linked to.
abbrev pub IsLinked : StmtOrder → Type 0
IsLinked o = (s g : ℕ) → o.instruction_links s ≡ some g → InGroup o s g

-- The numbers of the groups that there are lie below the counter.
abbrev pub IsCounted : StmtOrder → Type 0
IsCounted o = (g : ℕ) → o.group_counter ≤ g → o.instruction_groups g ≡ none

module _ (clang : Clang) where
  has_key-insert_statement :
      (a : ℕ × Option ℕ) (g : Group) (s : ℕ)
      → has_key s (insert_statement clang a g) ≡ ((a.0 == s) || has_key s g)
  has_key-insert_statement a [] s = refl
  has_key-insert_statement a (b ∷ g) s = ground (arith, has_key-insert_statement a g s)

  pub insert_in_group-other :
      (g k : ℕ) (a : ℕ × Option ℕ) (m : SearchMap Group)
      → k ≢ g
      → insert_in_group clang g a m k ≡ m k
  insert_in_group-other g k a m ne = elim (Option-cases (m g)) [
    | inl e ↦ rw (e, insert_in_group) refl
    | inr (group, e) ↦ rw (e, insert_in_group) (rw (==-ne k g ne) refl)
  ]

  pub insert_in_group_self :
      (g : ℕ) (a : ℕ × Option ℕ) (m : SearchMap Group) (group : Group)
      → m g ≡ some group
      → insert_in_group clang g a m g ≡ some (insert_statement clang a group)
  insert_in_group_self g a m group e = rw (e, insert_in_group) (rw (==-self g) refl)

  -- The links after the loop over a group.
  pub links-move_group :
      (group : Group) (to : ℕ) (o : StmtOrder) (s : ℕ)
      → (move_group clang group to o).instruction_links s
        ≡ (if has_key s group then some to else o.instruction_links s)
  links-move_group [] to o s = refl
  links-move_group (a ∷ group) to o s = links-move_group group to _ s ∙ ground arith

  other_groups-move_group :
      (group : Group) (to : ℕ) (o : StmtOrder) (k : ℕ)
      → k ≢ to
      → (move_group clang group to o).instruction_groups k ≡ o.instruction_groups k
  other_groups-move_group [] to o k ne = refl
  other_groups-move_group (a ∷ group) to o k ne =
      other_groups-move_group group to _ k ne ∙ insert_in_group-other to k a o.instruction_groups ne

  -- The group that the loop moves to: it gets the statements of the other.
  group-move_group :
      (group : Group) (to : ℕ) (o : StmtOrder) (there : Group)
      → o.instruction_groups to ≡ some there
      → (g : Group) × ((move_group clang group to o).instruction_groups to ≡ some g)
        × ((s : ℕ) → has_key s g ≡ (has_key s group || has_key s there))
  group-move_group [] to o there e = (there, e, λ s. refl)
  group-move_group (a ∷ group) to o there e =
      let (g, at, keys) =
        group-move_group group to _ (insert_statement clang a there)
          (insert_in_group_self to a o.instruction_groups there e) in
      (g, at, λ s. keys s ∙ let q = has_key-insert_statement a there s in ground (arith, q))

  -- The order after a group is moved.
  abbrev pub moved : Group → ℕ → ℕ → StmtOrder → StmtOrder
  moved group old new o = erase_group clang old (move_group clang group new o)

  pub moved-IsLinked :
      (group there : Group) (old new : ℕ) (o : StmtOrder)
      → IsLinked o
      → old ≢ new
      → o.instruction_groups old ≡ some group
      → o.instruction_groups new ≡ some there
      → IsLinked (moved group old new o)
  moved-IsLinked group there old new o linked ne at_old at_new s g l =
      let (g', at, keys) = group-move_group group new o there at_new in
      let now : (moved group old new o).instruction_groups new ≡ some g' =
        if_false _ _ (==-ne new old (λ e. ne (sym e))) ∙ at in
      elim (Bool-cases (has_key s group)) [
        | inl i ↦
            let here : new ≡ g =
              some_inj (sym (links-move_group group new o s ∙ if_true _ _ i) ∙ l) in
            subst (InGroup (moved group old new o) s) here
              (g', now, keys s ∙ ap (λ b. b || has_key s there) i)
        | inr i ↦
            let before : o.instruction_links s ≡ some g =
              sym (links-move_group group new o s ∙ if_false _ _ i) ∙ l in
            let (h, at_g, there_s) = linked s g before in
            elim (ℕ-cases g old) [
              | inl e ↦
                  let same : h ≡ group = some_inj (sym at_g ∙ ap o.instruction_groups e ∙ at_old) in
                  absurd (true≢false (sym there_s ∙ ap (has_key s) same ∙ i))
              | inr ne_old ↦ elim (ℕ-cases g new) [
                | inl e ↦
                    let same : h ≡ there =
                      some_inj (sym at_g ∙ ap o.instruction_groups e ∙ at_new) in
                    subst (InGroup (moved group old new o) s) (sym e)
                      (g', now, keys s ∙ ground arith)
                | inr ne_new ↦ (
                  h,
                  if_false _ _ (==-ne g old ne_old)
                      ∙ other_groups-move_group group new o g ne_new
                      ∙ at_g,
                  there_s,
                )
              ]
            ]
      ]
