-- ===== src/TaskGraph/Clauses/Grows.antt =====
-- What a run over the nodes of graphs keeps while it computes `inout` clauses.
use apac.Prelude.{ℕ, ◌≡◌, ◌≢◌, refl, sym, ap, ◌∙◌, ◌⊎◌, inl, inr, Bool, true, ◌&&◌, ◌||◌}
use apac.Prelude.{Option, some, List, [], ◌∷◌, In, any, ==-self, ==-ne, ℕ-cases}
use apac.Prelude.{Option-cases, some_inj, none≢some}
use mathlib.Core.Path.{subst}
use apac.TaskGraph.AliasArg.{AliasArg}
use apac.TaskGraph.Instruction.{NodeDependency, Dependencies}
use apac.TaskGraph.Node.{Heap, Node, Graph, touches, is_in_out, compute_in_out_in_dep}
use apac.TaskGraph.Node.Depend.{In-in_out_dep}
use apac.TaskGraph.Clauses.{each}

-- A node without its clauses.
abbrev bare : Node → Node
bare node = record node { in_out_dep = []; in_dep = [] }

-- All but the clauses is the same.
abbrev pub AreSame : Heap → Heap → Type 0
AreSame h r = (m : ℕ) → bare (h m) ≡ bare (r m)

-- The node stands in a graph of these nodes, or in a subgraph of one of them.
pub data Inside (h : Heap) : List ℕ → ℕ → Type 0 where
  node_of : {ns : List ℕ} {n : ℕ} → In n ns → Inside h ns n
  below :
      {ns : List ℕ} {n : ℕ} (m : ℕ) (g : Graph)
      → In m ns
      → In g (h m).graph
      → Inside h g.nodes n
      → Inside h ns n

pub graph_same : (h r : Heap) → AreSame h r → (m : ℕ) → (h m).graph ≡ (r m).graph
graph_same h r same m = ap (λ (n : Node). n.graph) (same m)

pub Inside-AreSame :
    (h r : Heap) → AreSame h r → (ns : List ℕ) (n : ℕ) → Inside h ns n → Inside r ns n
Inside-AreSame h r same ns n (node_of i) = node_of i
Inside-AreSame h r same ns n (below m g i j inside) =
    below m g i (subst (In g) (graph_same h r same m) j) (Inside-AreSame h r same g.nodes n inside)

module _ (args : ℕ → AliasArg) where
  -- The element is a dependency of the node that `isInOut` accepts.
  abbrev pub IsMarked : Heap → ℕ → ℕ → Type 0
  IsMarked h n a =
      (d : NodeDependency) × In (a, d) (h n).dependencies × (is_in_out args h (h n) (a, d) ≡ true)

  is_in_out_same :
      (h r : Heap)
      → AreSame h r
      → (n : ℕ) (dep : ℕ × NodeDependency) → is_in_out args h (h n) dep ≡ is_in_out args r (r n) dep
  is_in_out_same h r same n dep =
      ap2
        (λ (node : Node) (deps : ℕ → Dependencies).
          dep.1.is_write
          && (node.is_looped
              || (any (λ (l : ℕ × Dependencies). touches args dep.0 l.1) node.next
                  || any (λ p. touches args dep.0 (deps p)) node.prev)))
        (same n) (λ i p. ap (λ (x : Node). x.dependencies) (same p) i)
    where
      ap2 :
          (f : Node → (ℕ → Dependencies) → Bool) {x y : Node} {u v : ℕ → Dependencies}
          → x ≡ y
          → u ≡ v
          → f x u ≡ f y v
      ap2 f p q i = f (p i) (q i)

  pub IsMarked-AreSame : (h r : Heap) → AreSame h r → (n a : ℕ) → IsMarked h n a → IsMarked r n a
  IsMarked-AreSame h r same n a (d, i, test) = (
    d,
    subst (In (a, d)) (ap (λ (x : Node). x.dependencies) (same n)) i,
    sym (is_in_out_same h r same n (a, d)) ∙ test,
  )

  -- The `inout` elements grow by marked elements only.
  pub record Grows (h r : Heap) : Type 0 where
    pub same : AreSame h r
    pub kept : (m a : ℕ) → In a (h m).in_out_dep → In a (r m).in_out_dep
    pub only : (m a : ℕ) → In a (r m).in_out_dep → In a (h m).in_out_dep ⊎ IsMarked h m a

  pub Grows-refl : (h : Heap) → Grows h h
  Grows-refl h = record { same = λ m. refl; kept = λ m a i. i; only = λ m a i. inl i }

  pub Grows-trans : {h g r : Heap} → Grows h g → Grows g r → Grows h r
  Grows-trans {h} {g} {r} p q = record {
    same = λ m. p.same m ∙ q.same m;
    kept = λ m a i. q.kept m a (p.kept m a i);
    only = λ m a i. elim (q.only m a i) [
      | inl old ↦ p.only m a old
      | inr new ↦ inr (IsMarked-AreSame g h (λ k. sym (p.same k)) m a new)
    ];
  }

  compute_other : (h : Heap) (n m : ℕ) → m ≢ n → compute_in_out_in_dep args h n m ≡ h m
  unfolding compute_in_out_in_dep
  compute_other h n m ne = rw (==-ne m n ne) refl

  compute_same : (h : Heap) (n : ℕ) → bare (h n) ≡ bare (compute_in_out_in_dep args h n n)
  unfolding compute_in_out_in_dep
  compute_same h n = rw (==-self n) refl

  pub compute-Grows : (h : Heap) (n : ℕ) → Grows h (compute_in_out_in_dep args h n)
  compute-Grows h n = record {
    same = λ m. elim (ℕ-cases m n) [
      | inl e ↦ rw e (compute_same h n)
      | inr ne ↦ rw (compute_other h n m ne) refl
    ];
    kept = λ m a i. elim (ℕ-cases m n) [
      | inl e ↦ rw e ((In-in_out_dep args h n a).1 (inl (rw e at i)))
      | inr ne ↦ rw (compute_other h n m ne) i
    ];
    only = λ m a i. elim (ℕ-cases m n) [
      | inl e ↦ rw e ((In-in_out_dep args h n a).0 (rw e at i))
      | inr ne ↦ inl (rw (compute_other h n m ne) at i)
    ];
  }

  pub each-Grows :
      {A : Type 0} (f : A → Heap → Option Heap)
      → ((x : A) (h r : Heap) → f x h ≡ some r → Grows h r)
      → (xs : List A) (h r : Heap) → each f xs h ≡ some r
      → Grows h r
  each-Grows f step [] h r e = subst (Grows h) (some_inj e) (Grows-refl h)
  each-Grows f step (x ∷ xs) h r e = elim (Option-cases (f x h)) [
    | inl q ↦ absurd (none≢some (rw (q, each) at e))
    | inr (g, q) ↦ Grows-trans (step x h g q) (each-Grows f step xs g r (rw (q, each) at e))
  ]

  -- The run at a member, between those before and after it.
  pub record RunAt {A : Type 0} (f : A → Heap → Option Heap) (x : A) (h r : Heap) : Type 0 where
    pub before : Heap
    pub after : Heap
    pub run : f x before ≡ some after
    pub up_to : Grows h before
    pub from : Grows after r

  pub each-RunAt :
      {A : Type 0} (f : A → Heap → Option Heap)
      → ((x : A) (h r : Heap) → f x h ≡ some r → Grows h r)
      → (xs : List A) (x : A) (h r : Heap) → In x xs
      → each f xs h ≡ some r
      → RunAt f x h r
  each-RunAt f step [] x h r i e = absurd i
  each-RunAt f step (y ∷ xs) x h r i e = elim (Option-cases (f y h)) [
    | inl q ↦ absurd (none≢some (rw (q, each) at e))
    | inr (g, q) ↦
        let rest = rw (q, each) at e in
        elim i [
          | inl at_y ↦ record {
            before = h;
            after = g;
            run = rw at_y q;
            up_to = Grows-refl h;
            from = each-Grows f step xs g r rest;
          }
          | inr later ↦
              let there = each-RunAt f step xs x g r later rest in
              record {
                before = there.before;
                after = there.after;
                run = there.run;
                up_to = Grows-trans (step y h g q) there.up_to;
                from = there.from;
              }
        ]
  ]
