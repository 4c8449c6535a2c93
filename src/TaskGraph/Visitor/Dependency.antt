-- ===== src/TaskGraph/Visitor/Dependency.antt =====
-- What addDependencyRead and addDependencyWrite (ASTTaskGraphVisitor.hpp) record.
use apac.Prelude.{
  ℕ, ◌≡◌, refl, sym, ap, ◌∙◌, ◌<◌, true, false, inl, inr, Option, none, some, List, [], ◌∷◌,
}
use apac.Prelude.{
  foldl, ◌==◌, ==_iff, length, In, contains, contains_iff, Bool-cases, Option-cases, if_true,
  if_false, arith,
}
use apac.Prelude.Maps.{lookup, put, lookup-put}
use apac.TaskGraph.Instruction.{NodeDependency, Dependencies}
use apac.TaskGraph.AliasTable.Aliases.{Store}
use apac.TaskGraph.AliasTable.Queries.{get_aliases}
use apac.TaskGraph.AliasTable.Queries.Closure.{Step, Aliases, get_aliases-Aliases}
use apac.TaskGraph.Visitor.{read_alias, write_alias, add_dependency_read, add_dependency_write}

-- The flags after an access, by those before.
abbrev pub mark_read : Option NodeDependency → NodeDependency
mark_read none = record { is_read = true; is_write = false }
mark_read (some d) = record { is_read = true; is_write = d.is_write }

abbrev pub mark_write : Option NodeDependency → NodeDependency
mark_write none = record { is_read = false; is_write = true }
mark_write (some d) = record { is_read = d.is_read; is_write = true }

module _ (mark : Option NodeDependency → NodeDependency) where
  abbrev mark_alias : Dependencies → ℕ → Dependencies
  mark_alias deps e = put e (mark (lookup e deps)) deps

  -- What stands for an element after the elements of a list are marked.
  abbrev Marked : Dependencies → List ℕ → ℕ → Type 0
  Marked deps xs j =
      (In j xs → lookup j (foldl mark_alias deps xs) ≡ some (mark (lookup j deps)))
      × ((¬ In j xs) → lookup j (foldl mark_alias deps xs) ≡ lookup j deps)

  lookup-mark_alias :
      (again : (o : Option NodeDependency) → mark (some (mark o)) ≡ mark o) (xs : List ℕ)
      (deps : Dependencies) (j : ℕ)
      → Marked deps xs j
  lookup-mark_alias again [] deps j = (λ i. absurd i, λ out. refl)
  lookup-mark_alias again (x ∷ xs) deps j =
      let (in_rest, out_rest) = lookup-mark_alias again xs (mark_alias deps x) j in
      let first = lookup-put x j (mark (lookup x deps)) deps in
      elim (Bool-cases (x == j)) [
        | inl e ↦
            let same : x ≡ j = (==_iff x j).0 e in
            let now : lookup j (mark_alias deps x) ≡ some (mark (lookup j deps)) =
              first ∙ if_true _ _ e ∙ ap (λ k. some (mark (lookup k deps))) same in
            (
              λ i. elim (Bool-cases (contains j xs)) [
                | inl c ↦
                    in_rest ((contains_iff j xs).0 c)
                    ∙ ap (λ o. some (mark o)) now
                    ∙ ap some (again (lookup j deps))
                | inr c ↦ out_rest (λ k. let both = (contains_iff j xs).1 k in cc) ∙ now
              ],
              λ out. absurd (out (inl (sym same))),
            )
        | inr e ↦
            let now : lookup j (mark_alias deps x) ≡ lookup j deps = first ∙ if_false _ _ e in
            (
              λ i. elim i [
                | inl same ↦ let both = (==_iff x j).1 (sym same) in absurd (ground arith)
                | inr later ↦ in_rest later ∙ ap (λ o. some (mark o)) now
              ],
              λ out. out_rest (λ i. out (inr i)) ∙ now,
            )
      ]

  foldl-mark_alias :
      (f : Dependencies → ℕ → Dependencies)
      → ((deps : Dependencies) (e : ℕ) → f deps e ≡ mark_alias deps e)
      → (xs : List ℕ) (deps : Dependencies) → foldl f deps xs ≡ foldl mark_alias deps xs
  foldl-mark_alias f same [] deps = refl
  foldl-mark_alias f same (x ∷ xs) deps =
      ap (λ d. foldl f d xs) (same deps x) ∙ foldl-mark_alias f same xs (mark_alias deps x)

read_alias-mark_alias :
    (deps : Dependencies) (e : ℕ) → read_alias deps e ≡ mark_alias mark_read deps e
read_alias-mark_alias deps e = elim (Option-cases (lookup e deps)) [
  | inl q ↦ rw (q, read_alias) refl
  | inr (d, q) ↦ rw (q, read_alias) refl
]

write_alias-mark_alias :
    (deps : Dependencies) (e : ℕ) → write_alias deps e ≡ mark_alias mark_write deps e
write_alias-mark_alias deps e = elim (Option-cases (lookup e deps)) [
  | inl q ↦ rw (q, write_alias) refl
  | inr (d, q) ↦ rw (q, write_alias) refl
]

mark_read_again : (o : Option NodeDependency) → mark_read (some (mark_read o)) ≡ mark_read o
mark_read_again none = refl
mark_read_again (some d) = refl

mark_write_again : (o : Option NodeDependency) → mark_write (some (mark_write o)) ≡ mark_write o
mark_write_again none = refl
mark_write_again (some d) = refl

module _ (s : Store) (d : ℕ) (deps : Dependencies) where
  -- The result has the flags of an access for the aliases of the element, and for no other.
  abbrev pub IsMarked : (Option NodeDependency → NodeDependency) → Option Dependencies → Type 0
  IsMarked mark o =
      (r : Dependencies) × (o ≡ some r)
      × ((j : ℕ)
          → (Aliases s d j → lookup j r ≡ some (mark (lookup j deps)))
            × ((¬ Aliases s d j) → lookup j r ≡ lookup j deps))

  mark_aliases :
      (mark : Option NodeDependency → NodeDependency) (f : Dependencies → ℕ → Dependencies)
      (us : List ℕ) (fuel : ℕ)
      → ((o : Option NodeDependency) → mark (some (mark o)) ≡ mark o)
      → ((m : Dependencies) (e : ℕ) → f m e ≡ mark_alias mark m e)
      → ((x y : ℕ) → In x us → Step s x y → In y us)
      → In d us
      → length us < fuel
      → (aliases : List ℕ) × (get_aliases s fuel d ≡ some aliases)
        × IsMarked mark (some (foldl f deps aliases))
  mark_aliases mark f us fuel again same stays inside enough =
      let (aliases, e, all) = get_aliases-Aliases s us fuel d stays inside enough in
      (
        aliases,
        e,
        (
          foldl (mark_alias mark) deps aliases,
          ap some (foldl-mark_alias mark f same aliases deps),
          λ j.
              let (here, elsewhere) = lookup-mark_alias mark again aliases deps j in
              (λ a. here ((all j).1 a), λ out. elsewhere (λ i. out ((all j).0 i))),
        ),
      )

  -- Where a list has the aliases of its members as members, and the element is one of them, more fuel
  -- than the list is long is enough for addDependencyRead and addDependencyWrite: these set the flag
  -- for the element's aliases, keep the other flag, and change nothing for what is no alias.
  pub add_dependency-IsMarked :
      (us : List ℕ) (fuel : ℕ)
      → ((x y : ℕ) → In x us → Step s x y → In y us)
      → In d us
      → length us < fuel
      → IsMarked mark_read (add_dependency_read s fuel deps d)
        × IsMarked mark_write (add_dependency_write s fuel deps d)
  unfolding add_dependency_read add_dependency_write
  add_dependency-IsMarked us fuel stays inside enough =
      let (rs, q, read) =
        mark_aliases mark_read read_alias us fuel mark_read_again read_alias-mark_alias stays inside
          enough in
      let (ws, q', write) =
        mark_aliases mark_write write_alias us fuel mark_write_again write_alias-mark_alias stays
          inside enough in
      (rw (q, add_dependency_read) read, rw (q', add_dependency_write) write)
