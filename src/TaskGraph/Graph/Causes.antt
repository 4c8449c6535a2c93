-- ===== src/TaskGraph/Graph/Causes.antt =====
-- What one call of `handleInstructionDeps` (Graph.cpp) does at most: each new link and each buffer
-- entry has its cause among the dependencies.
use apac.Prelude.{ℕ, ◌≡◌, ◌≢◌, ◌⊎◌, inl, inr, Bool, true, false, some, List}
use apac.Prelude.{foldl, ◌==◌, arith, In, In-snoc, foldl_inv, Bool-cases, Option-cases}
use apac.TaskGraph.Instruction.{NodeDependency, Dependencies}
use apac.TaskGraph.Node.{Heap}
use apac.TaskGraph.Node.Link.{Link, add_link-Link}
use apac.TaskGraph.Graph.{
  Elements, Uses, Scan, push_read, push_write, push_erase, link_from, link_read, link_write,
  visit_parent, visit_child, visit_dep,
}
use apac.TaskGraph.Graph.Growth.{visit_child-cases}
use apac.TaskGraph.Graph.Done.{Reads, Writes}

-- Why an instruction with the dependencies `deps` comes after `m`.
abbrev pub Cause : Elements → Uses → Dependencies → ℕ → Type 0
Cause table uses deps m =
    (e : ℕ) × (Reads table deps e × (uses.writes e ≡ some m)
      ⊎ Writes table deps e
        × (((ms : List ℕ) × (uses.reads e ≡ some ms) × In m ms) ⊎ (uses.writes e ≡ some m)))

module _ (table : Elements) (uses : Uses) (node : ℕ) (deps : Dependencies) (h : Heap) where
  pub record Only (s : Scan) : Type 0 where
    pub links :
        (m k : ℕ) → Link s.heap m k → Link h m k ⊎ (k ≡ node) × (m ≢ node) × Cause table uses deps m
    pub read : (x : ℕ × ℕ) → In x s.data_read_buffer → (x.0 ≡ node) × Reads table deps x.1
    pub written : (x : ℕ × ℕ) → In x s.data_write_buffer → (x.0 ≡ node) × Writes table deps x.1
    pub erased : (e : ℕ) → In e s.data_read_erase_buffer → Writes table deps e

  push_read-Only : (e : ℕ) (s : Scan) → Reads table deps e → Only s → Only (push_read node e s)
  push_read-Only e s cause o = record {
    links = o.links;
    read = λ x i. elim (In-snoc x (node, e) s.data_read_buffer i) [
      | inl old ↦ o.read x old
      | inr new ↦ (λ j. (new j).0, rw new cause)
    ];
    written = o.written;
    erased = o.erased;
  }

  push_write-Only : (e : ℕ) (s : Scan) → Writes table deps e → Only s → Only (push_write node e s)
  push_write-Only e s cause o = record {
    links = o.links;
    read = o.read;
    written = λ x i. elim (In-snoc x (node, e) s.data_write_buffer i) [
      | inl old ↦ o.written x old
      | inr new ↦ (λ j. (new j).0, rw new cause)
    ];
    erased = o.erased;
  }

  push_erase-Only : (e : ℕ) (s : Scan) → Writes table deps e → Only s → Only (push_erase e s)
  push_erase-Only e s cause o = record {
    links = o.links;
    read = o.read;
    written = o.written;
    erased = λ x i. elim (In-snoc x e s.data_read_erase_buffer i) [
      | inl old ↦ o.erased x old
      | inr new ↦ rw new cause
    ];
  }

  link_from-Only :
      (r w : Bool) (d e : ℕ) (s : Scan) (m : ℕ)
      → Cause table uses deps m
      → Only s
      → Only (link_from table uses node r w d e s m)
  unfolding link_from
  link_from-Only r w d e s m cause o = elim (Bool-cases (m == node)) [
    | inl same ↦ rw same o
    | inr other ↦ rw other (record {
      links = λ i k l. elim (add_link-Link s.heap m m node r w _ i k l) [
        | inl old ↦ o.links i k old
        | inr new ↦ inr (new.1, ground arith, rw (new.0) cause)
      ];
      read = o.read;
      written = o.written;
      erased = o.erased;
    })
  ]

  link_read-Only :
      (d e : ℕ) (s : Scan) → Reads table deps e → Only s → Only (link_read table uses node d e s)
  unfolding link_read
  link_read-Only d e s cause o = elim (Option-cases (uses.writes e)) [
    | inl unwritten ↦ rw (unwritten, link_read) o
    | inr (m, by_m) ↦
        rw (by_m, link_read) (link_from-Only true false d e s m (e, inl (cause, by_m)) o)
  ]

  link_write-Only :
      (d e : ℕ) (s : Scan) → Writes table deps e → Only s → Only (link_write table uses node d e s)
  unfolding link_write
  link_write-Only d e s cause o = elim (Option-cases (uses.reads e)) [
    | inl unread ↦ elim (Option-cases (uses.writes e)) [
      | inl unwritten ↦ rw (unread, link_write) (rw (unwritten, link_write) o)
      | inr (m, by_m) ↦
          rw (unread, link_write)
            (rw (by_m, link_write) (link_from-Only false true d e s m (e, inr (cause, inr by_m)) o))
    ]
    | inr (ms, by_ms) ↦
        rw (by_ms, link_write)
          (push_erase-Only e _ cause (
            foldl_inv _ Only ms s
              (λ t m i. link_from-Only false true d e t m (e, inr (cause, inl (ms, by_ms, i)))) o))
  ]

  visit_parent-Only :
      (dep : ℕ × NodeDependency) (s : Scan) (e : ℕ)
      → In dep deps
      → In e (table.parents dep.0)
      → Only s
      → Only (visit_parent table uses node dep s e)
  unfolding visit_parent
  visit_parent-Only dep s e i at o = elim (Bool-cases dep.1.is_read) [
    | inl r ↦
        let cause : Reads table deps e = (dep, i, r, inl at) in
        rw r (push_read-Only e _ cause (link_read-Only dep.0 e s cause o))
    | inr nr ↦ rw nr o
  ]

  visit_child-Only :
      (dep : ℕ × NodeDependency) (s : Scan) (e : ℕ)
      → In dep deps
      → In e (table.children dep.0)
      → Only s
      → Only (visit_child table uses node dep s e)
  visit_child-Only dep s e i at o =
      visit_child-cases table uses node Only dep s e (λ _ _. o)
        (λ r _.
          push_read-Only e _ (dep, i, r, inr at) (link_read-Only dep.0 e s (dep, i, r, inr at) o))
        (λ _ w. push_write-Only e _ (dep, i, w, at) (link_write-Only dep.0 e s (dep, i, w, at) o))
        (λ r w.
          push_read-Only e _ (dep, i, r, inr at)
            (push_write-Only e _ (dep, i, w, at)
              (link_write-Only dep.0 e _ (dep, i, w, at)
                (link_read-Only dep.0 e s (dep, i, r, inr at) o))))

  visit_dep-Only :
      (s : Scan) (dep : ℕ × NodeDependency)
      → In dep deps
      → Only s
      → Only (visit_dep table uses node s dep)
  unfolding visit_dep
  visit_dep-Only s dep i o =
      foldl_inv _ Only (table.children dep.0) _ (λ t e at. visit_child-Only dep t e i at)
        (foldl_inv _ Only (table.parents dep.0) s (λ t e at. visit_parent-Only dep t e i at) o)

  pub visit_deps-Only : (s : Scan) → Only s → Only (foldl (visit_dep table uses node) s deps)
  visit_deps-Only s o = foldl_inv _ Only deps s visit_dep-Only o
