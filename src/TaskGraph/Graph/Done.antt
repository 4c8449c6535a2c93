-- ===== src/TaskGraph/Graph/Done.antt =====
-- What one call of `handleInstructionDeps` (Graph.cpp) surely does: the links and the buffer entries
-- that the dependencies call for.
use apac.Prelude.{ℕ, ◌≡◌, ◌≢◌, ◌⊎◌, inl, inr, Bool, true, false, none, some, List}
use apac.Prelude.{foldl, In, In-snoc_self, foldl_hit, ==-ne}
use apac.TaskGraph.Instruction.{NodeDependency, Dependencies}
use apac.TaskGraph.Node.Link.{Link, add_link-Link_new}
use apac.TaskGraph.Graph.{
  Elements, Uses, Scan, push_read, push_write, push_erase, link_from, link_read, link_write,
  visit_parent, visit_child, visit_dep,
}
use apac.TaskGraph.Graph.Growth.{
  Grows, foldl-Grows, push_read-Grows, link_from-Grows, link_write-Grows, visit_parent-Grows,
  visit_child-cases, visit_child-Grows, visit_dep-Grows,
}

push_erase-In : (e : ℕ) (s : Scan) → In e (push_erase e s).data_read_erase_buffer
push_erase-In e s = In-snoc_self e s.data_read_erase_buffer

-- Some dependency of `deps` reads the element `e`; some dependency writes it.
abbrev pub Reads : Elements → Dependencies → ℕ → Type 0
Reads table deps e =
    (d : ℕ × NodeDependency) × In d deps
    × (d.1.is_read ≡ true)
    × (In e (table.parents d.0) ⊎ In e (table.children d.0))

abbrev pub Writes : Elements → Dependencies → ℕ → Type 0
Writes table deps e =
    (d : ℕ × NodeDependency) × In d deps × (d.1.is_write ≡ true) × In e (table.children d.0)

module _ (table : Elements) (uses : Uses) (node : ℕ) where
  -- All that a read of `e` calls for has been done.
  pub record ReadDone (e : ℕ) (s : Scan) : Type 0 where
    pub link : (m : ℕ) → uses.writes e ≡ some m → m ≢ node → Link s.heap m node
    pub buffered : In (node, e) s.data_read_buffer

  -- All that a write of `e` calls for has been done.
  pub record WriteDone (e : ℕ) (s : Scan) : Type 0 where
    pub after_readers :
        (ms : List ℕ) (m : ℕ) → uses.reads e ≡ some ms → In m ms → m ≢ node → Link s.heap m node
    pub after_writer :
        uses.reads e ≡ none → (m : ℕ) → uses.writes e ≡ some m → m ≢ node → Link s.heap m node
    pub buffered : In (node, e) s.data_write_buffer
    pub erased : (ms : List ℕ) → uses.reads e ≡ some ms → In e s.data_read_erase_buffer

  ReadDone-Grows : (e : ℕ) {s t : Scan} → Grows s t → ReadDone e s → ReadDone e t
  ReadDone-Grows e g d = record {
    link = λ m by_m ne. g.links m node (d.link m by_m ne);
    buffered = g.read _ d.buffered;
  }

  WriteDone-Grows : (e : ℕ) {s t : Scan} → Grows s t → WriteDone e s → WriteDone e t
  WriteDone-Grows e g d = record {
    after_readers = λ ms m by_ms i ne. g.links m node (d.after_readers ms m by_ms i ne);
    after_writer = λ unread m by_m ne. g.links m node (d.after_writer unread m by_m ne);
    buffered = g.written _ d.buffered;
    erased = λ ms by_ms. g.erased e (d.erased ms by_ms);
  }

  link_from-Link :
      (r w : Bool) (d e : ℕ) (s : Scan) (m : ℕ)
      → m ≢ node
      → Link (link_from table uses node r w d e s m).heap m node
  unfolding link_from
  link_from-Link r w d e s m ne = rw (==-ne m node ne) (add_link-Link_new s.heap m m node r w _)

  link_read-ReadDone :
      (d e : ℕ) (s : Scan) → ReadDone e (push_read node e (link_read table uses node d e s))
  unfolding link_read
  link_read-ReadDone d e s = record {
    link = λ m by_m ne. rw (by_m, link_read) (link_from-Link true false d e s m ne);
    buffered = In-snoc_self _ (link_read table uses node d e s).data_read_buffer;
  }

  link_write-WriteDone :
      (d e : ℕ) (s : Scan) → WriteDone e (push_write node e (link_write table uses node d e s))
  unfolding link_write
  link_write-WriteDone d e s = record {
    after_readers = λ ms m by_ms i ne.
        rw (by_ms, link_write)
          (foldl_hit _ (λ t. Link t.heap m node) ms s m
            (λ t n l. (link_from-Grows table uses node false true d e t n).links m node l)
            (λ t. link_from-Link false true d e t m ne) i);
    after_writer = λ unread m by_m ne.
        rw (unread, link_write) (rw (by_m, link_write) (link_from-Link false true d e s m ne));
    buffered = In-snoc_self _ (link_write table uses node d e s).data_write_buffer;
    erased = λ ms by_ms.
        rw (by_ms, link_write)
          (push_erase-In e (foldl (link_from table uses node false true d e) s ms));
  }

  visit_parent-ReadDone :
      (dep : ℕ × NodeDependency) (s : Scan) (e : ℕ)
      → dep.1.is_read ≡ true
      → ReadDone e (visit_parent table uses node dep s e)
  unfolding visit_parent
  visit_parent-ReadDone dep s e r = rw r (link_read-ReadDone dep.0 e s)

  visit_child-ReadDone :
      (dep : ℕ × NodeDependency) (s : Scan) (e : ℕ)
      → dep.1.is_read ≡ true
      → ReadDone e (visit_child table uses node dep s e)
  visit_child-ReadDone dep s e r =
      visit_child-cases table uses node (ReadDone e) dep s e (λ nr _. cc)
        (λ _ _. link_read-ReadDone dep.0 e s) (λ nr _. cc)
        (λ _ _. record {
          link = λ m by_m ne.
              (link_write-Grows table uses node dep.0 e _).links m node
                ((link_read-ReadDone dep.0 e s).link m by_m ne);
          buffered =
              In-snoc_self _
                (link_write table uses node dep.0 e
                  (link_read table uses node dep.0 e s)).data_read_buffer;
        })

  visit_child-WriteDone :
      (dep : ℕ × NodeDependency) (s : Scan) (e : ℕ)
      → dep.1.is_write ≡ true
      → WriteDone e (visit_child table uses node dep s e)
  visit_child-WriteDone dep s e w =
      visit_child-cases table uses node (WriteDone e) dep s e (λ _ nw. cc) (λ _ nw. cc)
        (λ _ _. link_write-WriteDone dep.0 e s)
        (λ _ _.
          WriteDone-Grows e (push_read-Grows node e _)
            (link_write-WriteDone dep.0 e (link_read table uses node dep.0 e s)))

  visit_dep-ReadDone :
      (s : Scan) (dep : ℕ × NodeDependency) (e : ℕ)
      → dep.1.is_read ≡ true
      → In e (table.parents dep.0) ⊎ In e (table.children dep.0)
      → ReadDone e (visit_dep table uses node s dep)
  unfolding visit_dep
  visit_dep-ReadDone s dep e r (inl p) =
      ReadDone-Grows e
        (foldl-Grows _ (table.children dep.0) _ (visit_child-Grows table uses node dep))
        (foldl_hit _ (ReadDone e) (table.parents dep.0) s e
          (λ t x. ReadDone-Grows e (visit_parent-Grows table uses node dep t x))
          (λ t. visit_parent-ReadDone dep t e r) p)
  visit_dep-ReadDone s dep e r (inr c) =
      foldl_hit _ (ReadDone e) (table.children dep.0) _ e
        (λ t x. ReadDone-Grows e (visit_child-Grows table uses node dep t x))
        (λ t. visit_child-ReadDone dep t e r) c

  visit_dep-WriteDone :
      (s : Scan) (dep : ℕ × NodeDependency) (e : ℕ)
      → dep.1.is_write ≡ true
      → In e (table.children dep.0)
      → WriteDone e (visit_dep table uses node s dep)
  unfolding visit_dep
  visit_dep-WriteDone s dep e w c =
      foldl_hit _ (WriteDone e) (table.children dep.0) _ e
        (λ t x. WriteDone-Grows e (visit_child-Grows table uses node dep t x))
        (λ t. visit_child-WriteDone dep t e w) c

  pub visit_deps-ReadDone :
      (deps : Dependencies) (s : Scan) (e : ℕ)
      → Reads table deps e
      → ReadDone e (foldl (visit_dep table uses node) s deps)
  visit_deps-ReadDone deps s e (d, i, r, at) =
      foldl_hit _ (ReadDone e) deps s d
        (λ t x. ReadDone-Grows e (visit_dep-Grows table uses node t x))
        (λ t. visit_dep-ReadDone t d e r at) i

  pub visit_deps-WriteDone :
      (deps : Dependencies) (s : Scan) (e : ℕ)
      → Writes table deps e
      → WriteDone e (foldl (visit_dep table uses node) s deps)
  visit_deps-WriteDone deps s e (d, i, w, at) =
      foldl_hit _ (WriteDone e) deps s d
        (λ t x. WriteDone-Grows e (visit_dep-Grows table uses node t x))
        (λ t. visit_dep-WriteDone t d e w at) i
