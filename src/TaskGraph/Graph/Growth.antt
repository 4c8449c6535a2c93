-- ===== src/TaskGraph/Graph/Growth.antt =====
-- What one call of `handleInstructionDeps` (Graph.cpp) keeps and adds: links and buffer entries are
-- never lost, and every one that the dependencies call for is made.
use apac.Prelude.{ℕ, ◌≡◌, inl, inr, Bool, true, false, List}
use apac.Prelude.{foldl, ◌==◌, In, In-append_left, foldl_inv}
use apac.Prelude.{Bool-cases, Option-cases}
use apac.TaskGraph.Instruction.{NodeDependency, Dependencies}
use apac.TaskGraph.Node.Link.{Link, add_link-Link_keep}
use apac.TaskGraph.Graph.{
  Elements, Uses, Scan, push_read, push_write, push_erase, link_from, link_read, link_write,
  visit_parent, visit_child, visit_dep,
}

pub record Grows (s t : Scan) : Type 0 where
  pub links : (m k : ℕ) → Link s.heap m k → Link t.heap m k
  pub read : (x : ℕ × ℕ) → In x s.data_read_buffer → In x t.data_read_buffer
  pub written : (x : ℕ × ℕ) → In x s.data_write_buffer → In x t.data_write_buffer
  pub erased : (e : ℕ) → In e s.data_read_erase_buffer → In e t.data_read_erase_buffer

Grows-refl : (s : Scan) → Grows s s
Grows-refl s = record { links = λ m k l. l; read = λ x i. i; written = λ x i. i; erased = λ e i. i }

Grows-trans : {s t u : Scan} → Grows s t → Grows t u → Grows s u
Grows-trans g h = record {
  links = λ m k l. h.links m k (g.links m k l);
  read = λ x i. h.read x (g.read x i);
  written = λ x i. h.written x (g.written x i);
  erased = λ e i. h.erased e (g.erased e i);
}

pub push_read-Grows : (n e : ℕ) (s : Scan) → Grows s (push_read n e s)
push_read-Grows n e s = record {
  links = λ m k l. l;
  read = λ x i. In-append_left x s.data_read_buffer _ i;
  written = λ x i. i;
  erased = λ e i. i;
}

push_write-Grows : (n e : ℕ) (s : Scan) → Grows s (push_write n e s)
push_write-Grows n e s = record {
  links = λ m k l. l;
  read = λ x i. i;
  written = λ x i. In-append_left x s.data_write_buffer _ i;
  erased = λ e i. i;
}

push_erase-Grows : (e : ℕ) (s : Scan) → Grows s (push_erase e s)
push_erase-Grows e s = record {
  links = λ m k l. l;
  read = λ x i. i;
  written = λ x i. i;
  erased = λ x i. In-append_left x s.data_read_erase_buffer _ i;
}

pub foldl-Grows :
    {A : Type 0} (f : Scan → A → Scan) (xs : List A) (s : Scan)
    → ((t : Scan) (x : A) → Grows t (f t x))
    → Grows s (foldl f s xs)
foldl-Grows f xs s step =
    foldl_inv f (λ t. Grows s t) xs s (λ t x _ g. Grows-trans g (step t x)) (Grows-refl s)

module _ (table : Elements) (uses : Uses) (node : ℕ) where
  pub link_from-Grows :
      (r w : Bool) (d e : ℕ) (s : Scan) (m : ℕ) → Grows s (link_from table uses node r w d e s m)
  unfolding link_from
  link_from-Grows r w d e s m = elim (Bool-cases (m == node)) [
    | inl same ↦ rw same (Grows-refl s)
    | inr other ↦ rw other (record {
      links = add_link-Link_keep s.heap m m node r w _;
      read = λ x i. i;
      written = λ x i. i;
      erased = λ x i. i;
    })
  ]

  pub link_read-Grows : (d e : ℕ) (s : Scan) → Grows s (link_read table uses node d e s)
  unfolding link_read
  link_read-Grows d e s = elim (Option-cases (uses.writes e)) [
    | inl unwritten ↦ rw (unwritten, link_read) (Grows-refl s)
    | inr (m, by_m) ↦ rw (by_m, link_read) (link_from-Grows true false d e s m)
  ]

  pub link_write-Grows : (d e : ℕ) (s : Scan) → Grows s (link_write table uses node d e s)
  unfolding link_write
  link_write-Grows d e s = elim (Option-cases (uses.reads e)) [
    | inl unread ↦ elim (Option-cases (uses.writes e)) [
      | inl unwritten ↦ rw (unread, link_write) (rw (unwritten, link_write) (Grows-refl s))
      | inr (m, by_m) ↦
          rw (unread, link_write) (rw (by_m, link_write) (link_from-Grows false true d e s m))
    ]
    | inr (ms, by_ms) ↦
        rw (by_ms, link_write)
          (Grows-trans (foldl-Grows _ ms s (link_from-Grows false true d e)) (push_erase-Grows e _))
  ]

  pub visit_parent-Grows :
      (dep : ℕ × NodeDependency) (s : Scan) (e : ℕ) → Grows s (visit_parent table uses node dep s e)
  unfolding visit_parent
  visit_parent-Grows dep s e = elim (Bool-cases dep.1.is_read) [
    | inl yes_read ↦
        rw yes_read (Grows-trans (link_read-Grows dep.0 e s) (push_read-Grows node e _))
    | inr not_read ↦ rw not_read (Grows-refl s)
  ]

  -- The three steps of `visit_child`, on the two flags.
  pub visit_child-cases :
      (P : Scan → Type 0) (dep : ℕ × NodeDependency) (s : Scan) (e : ℕ)
      → (dep.1.is_read ≡ false → dep.1.is_write ≡ false → P s)
      → (dep.1.is_read ≡ true
          → dep.1.is_write ≡ false
          → P (push_read node e (link_read table uses node dep.0 e s)))
      → (dep.1.is_read ≡ false
          → dep.1.is_write ≡ true
          → P (push_write node e (link_write table uses node dep.0 e s)))
      → (dep.1.is_read ≡ true
          → dep.1.is_write ≡ true
          → P (
              push_read node e (
                push_write node e
                  (link_write table uses node dep.0 e (link_read table uses node dep.0 e s)))))
      → P (visit_child table uses node dep s e)
  unfolding visit_child
  visit_child-cases P dep s e neither read write both = elim (Bool-cases dep.1.is_read) [
    | inl r ↦ elim (Bool-cases dep.1.is_write) [
      | inl w ↦ rw r (rw w (both r w))
      | inr w ↦ rw r (rw w (read r w))
    ]
    | inr r ↦ elim (Bool-cases dep.1.is_write) [
      | inl w ↦ rw r (rw w (write r w))
      | inr w ↦ rw r (rw w (neither r w))
    ]
  ]

  pub visit_child-Grows :
      (dep : ℕ × NodeDependency) (s : Scan) (e : ℕ) → Grows s (visit_child table uses node dep s e)
  visit_child-Grows dep s e =
      visit_child-cases (Grows s) dep s e (λ _ _. Grows-refl s)
        (λ _ _. Grows-trans (link_read-Grows dep.0 e s) (push_read-Grows node e _))
        (λ _ _. Grows-trans (link_write-Grows dep.0 e s) (push_write-Grows node e _))
        (λ _ _. Grows-trans (link_read-Grows dep.0 e s) (
          Grows-trans (link_write-Grows dep.0 e _)
            (Grows-trans (push_write-Grows node e _) (push_read-Grows node e _))))

  pub visit_dep-Grows :
      (s : Scan) (dep : ℕ × NodeDependency) → Grows s (visit_dep table uses node s dep)
  unfolding visit_dep
  visit_dep-Grows s dep =
      Grows-trans (foldl-Grows _ (table.parents dep.0) s (visit_parent-Grows dep))
        (foldl-Grows _ (table.children dep.0) _ (visit_child-Grows dep))

  pub visit_deps-Grows :
      (deps : Dependencies) (s : Scan) → Grows s (foldl (visit_dep table uses node) s deps)
  visit_deps-Grows deps s = foldl-Grows _ deps s visit_dep-Grows
