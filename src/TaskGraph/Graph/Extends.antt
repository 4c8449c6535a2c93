-- ===== src/TaskGraph/Graph/Extends.antt =====
-- How the state of the construction grows: the nodes handled so far, and those still to come.
use apac.Prelude.{ℕ, ◌≤◌, ◌<◌, refl, sym, ap, ◌⊎◌, inl, inr, List, [], ◌∷◌, arith, In}
use mathlib.Core.Path.{subst}
use apac.TaskGraph.Instruction.{Dependencies}
use apac.TaskGraph.Node.{Graph, Heap}
use apac.TaskGraph.Node.Link.{Link}
use apac.TaskGraph.Graph.{
  Elements, Uses, Linking, World, no_uses, or_empty, handle_instruction_deps, add_subgraph,
}
use apac.TaskGraph.Graph.Handled.{handle_instruction_deps-Handled}
use apac.TaskGraph.Graph.Causes.{Cause}
use apac.TaskGraph.Graph.Order.{History, Known, Inv, Inv-mono, Inv-step, writer-Known, reader-Known}
use apac.TaskGraph.Graph.Alloc.{Distinct, Created, add_subgraph-Link}

-- The state before the nodes `ns` are handled.
pub record Ready (table : Elements) (hist : History) (ns : List ℕ) (w : World) (uses : Uses)
    : Type 0 where
  pub inv : Inv table hist (record { heap = w.heap; uses = uses })
  pub bounded : (m : ℕ) → Known hist m → m < w.next_node_id
  pub sources : (m k : ℕ) → Link w.heap m k → m < w.next_node_id
  pub pending : (n : ℕ) → In n ns → (¬ Known hist n) × (n < w.next_node_id)
  pub distinct : Distinct ns

-- What the handling of `ns` has led to.
pub record Extends (table : Elements) (hist : History) (ns : List ℕ) (w w' : World) (uses' : Uses)
    : Type 0 where
  pub hist' : History
  pub more : (m : ℕ) (d : Dependencies) → In (m, d) hist → In (m, d) hist'
  pub new : (m : ℕ) → Known hist' m → Known hist m ⊎ (In m ns ⊎ (w.next_node_id ≤ m))
  pub bounded : (m : ℕ) → Known hist' m → m < w'.next_node_id
  pub sources : (m k : ℕ) → Link w'.heap m k → m < w'.next_node_id
  pub inv : Inv table hist' (record { heap = w'.heap; uses = uses' })
  pub counter : w.next_node_id ≤ w'.next_node_id
  pub links : (m k : ℕ) → Link w.heap m k → Link w'.heap m k

-- The cause of a link is a node handled before.
pub Cause-Known :
    (table : Elements) (hist : History) (l : Linking) (deps : Dependencies) (m : ℕ)
    → Inv table hist l
    → Cause table l.uses deps m
    → Known hist m
Cause-Known table hist l deps m inv (e, inl (r, q)) = writer-Known table inv e m q
Cause-Known table hist l deps m inv (e, inr (w, inl (ms, q, i))) =
    reader-Known table inv e m (subst (In m) (sym (ap or_empty q)) i)
Cause-Known table hist l deps m inv (e, inr (w, inr q)) = writer-Known table inv e m q

-- Empty maps.
pub Inv-empty : (table : Elements) (h : Heap) → Inv table [] (record { heap = h; uses = no_uses })
Inv-empty table h = record {
  writer_known = λ e w q. cc;
  reader_known = λ e m i. absurd i;
  written = λ m d e i. absurd i;
  read = λ m d e i. absurd i;
  reader_after_writer = λ e m w i. absurd i;
  inhabited = λ e ne. absurd (ne refl);
}

module _ (table : Elements) where
  -- One node, its own dependencies.
  unfoldable pub handle_deps-Extends :
      (n : ℕ) (deps : Dependencies) (hist : History) (w : World) (uses : Uses)
      → Ready table hist (n ∷ []) w uses
      → let s' = handle_instruction_deps table n deps (record { heap = w.heap; uses = uses }) in
        Extends table hist (n ∷ []) w (record w { heap = s'.heap }) s'.uses
  handle_deps-Extends n deps hist w uses ready =
      let l : Linking = record { heap = w.heap; uses = uses } in
      let l' = handle_instruction_deps table n deps l in
      let h = handle_instruction_deps-Handled table n deps l in
      let fresh = (ready.pending n (inl refl)).0 in
      record {
        hist' = (n, deps) ∷ hist;
        more = λ m d i. inr i;
        new = λ m known. elim known.1 [
          | inl now ↦ inr (inl (inl (λ j. (now j).0)))
          | inr old ↦ inl (known.0, old)
        ];
        bounded = λ m known. elim known.1 [
          | inl now ↦
              subst (λ x. x < w.next_node_id) (λ j. (sym now j).0) (ready.pending n (inl refl)).1
          | inr old ↦ ready.bounded m (known.0, old)
        ];
        sources = λ m k i. elim (h.no_other_links m k i) [
          | inl old ↦ ready.sources m k old
          | inr new ↦ ready.bounded m (Cause-Known table hist l deps m ready.inv new.2)
        ];
        inv = Inv-step table hist l l' n deps ready.inv fresh h;
        counter = omega arith;
        links = h.links;
      }

  -- Handling goes on with the remaining nodes.
  pub Ready-next :
      (n : ℕ) (ns : List ℕ) (hist : History) (w w' : World) (uses uses' : Uses)
      → Ready table hist (n ∷ ns) w uses
      → (x : Extends table hist (n ∷ []) w w' uses') → Ready table x.hist' ns w' uses'
  Ready-next n ns hist w w' uses uses' ready x = record {
    inv = x.inv;
    bounded = x.bounded;
    sources = x.sources;
    pending = λ m i. (
      λ known. elim (x.new m known) [
        | inl old ↦ (ready.pending m (inr i)).0 old
        | inr (inl (inl e)) ↦ ready.distinct.0 (subst (λ y. In y ns) e i)
        | inr (inl (inr none_left)) ↦ absurd none_left
        | inr (inr later) ↦ absurd (omega (arith, (ready.pending m (inr i)).1))
      ],
      omega (arith, (ready.pending m (inr i)).1, x.counter),
    );
    distinct = ready.distinct.1;
  }

  unfoldable pub Extends-trans :
      (n : ℕ) (ns : List ℕ) (hist : History) (w w1 w2 : World) (u1 u2 : Uses)
      → (x : Extends table hist (n ∷ []) w w1 u1) → Extends table x.hist' ns w1 w2 u2
      → Extends table hist (n ∷ ns) w w2 u2
  Extends-trans n ns hist w w1 w2 u1 u2 x y = record {
    hist' = y.hist';
    more = λ m d i. y.more m d (x.more m d i);
    new = λ m known. elim (y.new m known) [
      | inl old ↦ elim (x.new m old) [
        | inl older ↦ inl older
        | inr (inl (inl e)) ↦ inr (inl (inl e))
        | inr (inl (inr none_left)) ↦ absurd none_left
        | inr (inr later) ↦ inr (inr later)
      ]
      | inr (inl i) ↦ inr (inl (inr i))
      | inr (inr later) ↦ inr (inr (omega (arith, x.counter)))
    ];
    bounded = y.bounded;
    sources = y.sources;
    inv = y.inv;
    counter = omega (arith, x.counter, y.counter);
    links = λ m k l. y.links m k (x.links m k l);
  }

  -- A scope begins with the creation of its nodes.
  pub Ready-scope :
      (ns : List ℕ) (hist : History) (w w' : World) (uses : Uses)
      → Ready table hist [] w uses
      → Created w ns w'
      → Ready table hist ns w' uses
  Ready-scope ns hist w w' uses ready c = record {
    inv = Inv-mono table (λ m k l. c.kept m k (ready.sources m k l) l) ready.inv;
    bounded = λ m known. omega (arith, ready.bounded m known, c.counter);
    sources = λ m k l. omega (arith, ready.sources m k (c.no_other_links m k l), c.counter);
    pending = λ n i.
        (λ known. absurd (omega (arith, ready.bounded n known, c.range n i)), (c.range n i).1);
    distinct = c.distinct;
  }

  pub Extends-scope :
      (ns : List ℕ) (hist : History) (w w' w'' : World) (uses u'' : Uses)
      → Ready table hist [] w uses
      → Created w ns w'
      → Extends table hist ns w' w'' u''
      → Extends table hist [] w w'' u''
  Extends-scope ns hist w w' w'' uses u'' ready c x = record {
    hist' = x.hist';
    more = x.more;
    new = λ m known. elim (x.new m known) [
      | inl old ↦ inl old
      | inr (inl i) ↦ inr (inr (c.range m i).0)
      | inr (inr later) ↦ inr (inr (omega (arith, c.counter)))
    ];
    bounded = x.bounded;
    sources = x.sources;
    inv = x.inv;
    counter = omega (arith, x.counter, c.counter);
    links = λ m k l. x.links m k (c.kept m k (ready.sources m k l) l);
  }

  -- A scope with maps of its own (a loop) only adds links.
  pub Extends-apart :
      (hist : History) (w w' : World) (uses u' : Uses)
      → Ready table hist [] w uses
      → Extends table [] [] w w' u'
      → Extends table hist [] w w' uses
  Extends-apart hist w w' uses u' ready x = record {
    hist' = hist;
    more = λ m d i. i;
    new = λ m known. inl known;
    bounded = λ m known. omega (arith, ready.bounded m known, x.counter);
    sources = x.sources;
    inv = Inv-mono table x.links ready.inv;
    counter = x.counter;
    links = x.links;
  }

  pub Ready-apart :
      (hist : History) (w : World) (uses : Uses)
      → Ready table hist [] w uses
      → Ready table [] [] w no_uses
  Ready-apart hist w uses ready = record {
    inv = Inv-empty table w.heap;
    bounded = λ m known. absurd known.1;
    sources = ready.sources;
    pending = λ n i. absurd i;
    distinct = tt;
  }

  pub Extends-add_subgraph :
      (n : ℕ) (g : Graph) (ns : List ℕ) (hist : History) (w w' : World) (u' : Uses)
      → Extends table hist ns w w' u'
      → Extends table hist ns w (add_subgraph n g w') u'
  Extends-add_subgraph n g ns hist w w' u' x = record {
    hist' = x.hist';
    more = x.more;
    new = x.new;
    bounded = x.bounded;
    sources = λ m k l. x.sources m k ((add_subgraph-Link n g w' m k).1 l);
    inv = Inv-mono table (λ m k l. (add_subgraph-Link n g w' m k).0 l) x.inv;
    counter = x.counter;
    links = λ m k l. (add_subgraph-Link n g w' m k).0 (x.links m k l);
  }

  pub Extends-refl :
      (ns : List ℕ) (hist : History) (w : World) (uses : Uses)
      → Ready table hist ns w uses
      → Extends table hist ns w w uses
  Extends-refl ns hist w uses ready = record {
    hist' = hist;
    more = λ m d i. i;
    new = λ m known. inl known;
    bounded = ready.bounded;
    sources = ready.sources;
    inv = ready.inv;
    counter = omega arith;
    links = λ m k l. l;
  }

  pub Ready-head :
      (n : ℕ) (ns : List ℕ) (hist : History) (w : World) (uses : Uses)
      → Ready table hist (n ∷ ns) w uses
      → Ready table hist (n ∷ []) w uses
  Ready-head n ns hist w uses ready = record {
    inv = ready.inv;
    bounded = ready.bounded;
    sources = ready.sources;
    pending = λ m i. elim i [ inl e ↦ ready.pending m (inl e) | inr none_left ↦ absurd none_left ];
    distinct = (λ i. i, tt);
  }
