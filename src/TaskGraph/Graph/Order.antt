-- ===== src/TaskGraph/Graph/Order.antt =====
-- The order that `handleInstructionDeps` (Graph.cpp) builds up over the nodes that share the maps
-- `dataUsedInRead` and `dataUsedInWrite`.
use apac.Prelude.{ℕ, ◌≡◌, ◌≢◌, ◌∙◌, ◌⊎◌, inl, inr, some, List, ◌∷◌}
use apac.Prelude.{In, Option-cases, sym, ap, arith}
use mathlib.Core.Path.{subst}
use apac.TaskGraph.Instruction.{Dependencies}
use apac.TaskGraph.Node.{Heap}
use apac.TaskGraph.Node.Link.{Link, Reaches, one, Reaches-trans, Reaches-mono}
use apac.TaskGraph.Graph.{Elements, Uses, Linking, or_empty, readers_of}
use apac.TaskGraph.Graph.Done.{Reads, Writes}
use apac.TaskGraph.Graph.Flush.{IsInhabited}
use apac.TaskGraph.Graph.Causes.{Cause}
use apac.TaskGraph.Graph.Handled.{Handled}

-- The nodes handled so far, with their dependencies.
abbrev pub History : Type 0
History = List (ℕ × Dependencies)

abbrev pub Known : History → ℕ → Type 0
Known hist m = (d : Dependencies) × In (m, d) hist

-- Both access one element, and one of them writes it.
abbrev pub Conflict : Elements → Dependencies → Dependencies → Type 0
Conflict table d d' =
    (e : ℕ) × (Writes table d e × Reads table d' e
      ⊎ (Writes table d e × Writes table d' e ⊎ Reads table d e × Writes table d' e))

same_node : {w n : ℕ} → some w ≡ some n → w ≡ n
same_node q = ground arith

-- `m` is `w`, or comes before it.
abbrev pub UpTo : Heap → ℕ → ℕ → Type 0
UpTo h m w = (m ≡ w) ⊎ Reaches h m w

UpTo-Reaches : {h : Heap} {m w n : ℕ} → UpTo h m w → Reaches h w n → Reaches h m n
UpTo-Reaches {h} {m} {w} {n} (inl e) p = subst (λ x. Reaches h x n) (sym e) p
UpTo-Reaches (inr q) p = Reaches-trans q p

UpTo-mono :
    {h h' : Heap} {m w : ℕ} → ((i j : ℕ) → Link h i j → Link h' i j) → UpTo h m w → UpTo h' m w
UpTo-mono keep (inl e) = inl e
UpTo-mono keep (inr p) = inr (Reaches-mono keep p)

module _ (table : Elements) where
  pub record Inv (hist : History) (l : Linking) : Type 0 where
    pub writer_known :
        (e w : ℕ)
        → l.uses.writes e ≡ some w
        → (d : Dependencies) × In (w, d) hist × Writes table d e
    pub reader_known :
        (e m : ℕ)
        → In m (readers_of l.uses.reads e)
        → (d : Dependencies) × In (m, d) hist × Reads table d e
    pub written :
        (m : ℕ) (d : Dependencies) (e : ℕ)
        → In (m, d) hist
        → Writes table d e
        → (w : ℕ) × (l.uses.writes e ≡ some w) × UpTo l.heap m w
    pub read :
        (m : ℕ) (d : Dependencies) (e : ℕ)
        → In (m, d) hist
        → Reads table d e
        → In m (readers_of l.uses.reads e)
          ⊎ ((w : ℕ) × (l.uses.writes e ≡ some w) × UpTo l.heap m w)
    pub reader_after_writer :
        (e m w : ℕ) → In m (readers_of l.uses.reads e) → l.uses.writes e ≡ some w → UpTo l.heap w m
    pub inhabited : IsInhabited l.uses.reads

  pub writer-Known :
      {hist : History} {l : Linking}
      → Inv hist l
      → (e w : ℕ) → l.uses.writes e ≡ some w
      → Known hist w
  writer-Known inv e w q = let (d, i, wr) = inv.writer_known e w q in (d, i)

  pub reader-Known :
      {hist : History} {l : Linking}
      → Inv hist l
      → (e m : ℕ) → In m (readers_of l.uses.reads e)
      → Known hist m
  reader-Known inv e m q = let (d, i, rd) = inv.reader_known e m q in (d, i)

  -- More links keep the invariant.
  pub Inv-mono :
      {hist : History} {h h' : Heap} {uses : Uses}
      → ((i j : ℕ) → Link h i j → Link h' i j)
      → Inv hist (record { heap = h; uses = uses })
      → Inv hist (record { heap = h'; uses = uses })
  Inv-mono keep inv = record {
    writer_known = inv.writer_known;
    reader_known = inv.reader_known;
    written = λ m d e i w. let (v, q, p) = inv.written m d e i w in (v, q, UpTo-mono keep p);
    read = λ m d e i r. elim (inv.read m d e i r) [
      | inl now ↦ inl now
      | inr before ↦ inr (before.0, before.1, UpTo-mono keep before.2)
    ];
    reader_after_writer = λ e m w i q. UpTo-mono keep (inv.reader_after_writer e m w i q);
    inhabited = inv.inhabited;
  }

  module _ (hist : History) (l l' : Linking) (node : ℕ) (deps : Dependencies) (inv : Inv hist l)
      (fresh : ¬ Known hist node) (h : Handled table node deps l l') where
    Cause-Conflict :
        (m : ℕ)
        → Cause table l.uses deps m
        → (d : Dependencies) × In (m, d) hist × Conflict table d deps
    Cause-Conflict m (e, inl (rd, q)) =
        let (d, i, wr) = inv.writer_known e m q in (d, i, (e, inl (wr, rd)))
    Cause-Conflict m (e, inr (wr, inl (ms, q, i))) =
        let (d, j, rd) = inv.reader_known e m (subst (In m) (sym (ap or_empty q)) i) in
        (d, j, (e, inr (inr (rd, wr))))
    Cause-Conflict m (e, inr (wr, inr q)) =
        let (d, i, wr') = inv.writer_known e m q in (d, i, (e, inr (inl (wr', wr))))

    other : (m : ℕ) → Known hist m → m ≢ node
    other m known e = fresh (subst (Known hist) e known)

    old_writer-Reaches :
        (e w : ℕ) → l.uses.writes e ≡ some w → Writes table deps e → Reaches l'.heap w node
    old_writer-Reaches e w by_w wr = elim (Option-cases (l.uses.reads e)) [
      | inl unread ↦
          one (h.after_last_writer e w wr unread by_w (other w (writer-Known inv e w by_w)))
      | inr (ms, by_ms) ↦
          let (k, i) = inv.inhabited e (λ unread. cc) in
          UpTo-Reaches (UpTo-mono h.links (inv.reader_after_writer e k w i by_w))
            (one (h.after_readers e k wr i (other k (reader-Known inv e k i))))
    ]

    -- A conflict with an earlier node makes a path from it.
    pub Conflict-Reaches :
        (m : ℕ) (d : Dependencies) → In (m, d) hist → Conflict table d deps → Reaches l'.heap m node
    Conflict-Reaches m d i (e, inl (wr, rd)) =
        let (w, by_w, upto) = inv.written m d e i wr in
        UpTo-Reaches (UpTo-mono h.links upto)
          (one (h.after_writer e w rd by_w (other w (writer-Known inv e w by_w))))
    Conflict-Reaches m d i (e, inr (inl (wr, wr'))) =
        let (w, by_w, upto) = inv.written m d e i wr in
        UpTo-Reaches (UpTo-mono h.links upto) (old_writer-Reaches e w by_w wr')
    Conflict-Reaches m d i (e, inr (inr (rd, wr))) = elim (inv.read m d e i rd) [
      | inl now ↦ one (h.after_readers e m wr now (other m (d, i)))
      | inr before ↦
          UpTo-Reaches (UpTo-mono h.links before.2) (old_writer-Reaches e before.0 before.1 wr)
    ]

    new_written :
        (m : ℕ) (d : Dependencies) (e : ℕ)
        → In (m, d) ((node, deps) ∷ hist)
        → Writes table d e
        → (w : ℕ) × (l'.uses.writes e ≡ some w) × UpTo l'.heap m w
    new_written m d e (inl now) wr = (
      node,
      h.new_writer e (subst (λ x. Writes table x e) (λ j. (now j).1) wr),
      inl (λ j. (now j).0),
    )
    new_written m d e (inr i) wr = elim (h.writer e) [
      | inl wr' ↦ (node, h.new_writer e wr', inr (Conflict-Reaches m d i (e, inr (inl (wr, wr')))))
      | inr kept ↦
          let (w, by_w, upto) = inv.written m d e i wr in (w, kept.1 ∙ by_w, UpTo-mono h.links upto)
    ]

    new_read :
        (m : ℕ) (d : Dependencies) (e : ℕ)
        → In (m, d) ((node, deps) ∷ hist)
        → Reads table d e
        → In m (readers_of l'.uses.reads e)
          ⊎ ((w : ℕ) × (l'.uses.writes e ≡ some w) × UpTo l'.heap m w)
    new_read m d e (inl now) rd = inl (
        subst (λ x. In x (readers_of l'.uses.reads e)) (λ j. (sym now j).0)
          (h.new_reader e (subst (λ x. Reads table x e) (λ j. (now j).1) rd)))
    new_read m d e (inr i) rd = elim (h.writer e) [
      | inl wr ↦ inr (node, h.new_writer e wr, inr (Conflict-Reaches m d i (e, inr (inr (rd, wr)))))
      | inr kept ↦ elim (inv.read m d e i rd) [
        | inl now ↦ elim (h.kept_reader e m now) [
          | inl wr ↦ absurd (kept.0 wr)
          | inr still ↦ inl still
        ]
        | inr before ↦ inr (before.0, kept.1 ∙ before.1, UpTo-mono h.links before.2)
      ]
    ]

    new_reader_after_writer :
        (e m w : ℕ)
        → In m (readers_of l'.uses.reads e)
        → l'.uses.writes e ≡ some w
        → UpTo l'.heap w m
    new_reader_after_writer e m w i by_w = elim (h.reader e m i) [
      | inl now ↦ elim (h.writer e) [
        | inl wr ↦ inl (same_node (sym by_w ∙ h.new_writer e wr) ∙ sym now.0)
        | inr kept ↦
            let old : l.uses.writes e ≡ some w = sym kept.1 ∙ by_w in
            inr (
              subst (Reaches l'.heap w) (sym now.0)
                (one (h.after_writer e w now.1 old (other w (writer-Known inv e w old)))))
      ]
      | inr before ↦ elim (h.writer e) [
        | inl wr ↦ absurd (before.0 wr)
        | inr kept ↦ UpTo-mono h.links (inv.reader_after_writer e m w before.1 (sym kept.1 ∙ by_w))
      ]
    ]

    pub Inv-step : Inv ((node, deps) ∷ hist) l'
    Inv-step = record {
      writer_known = λ e w by_w. elim (h.writer e) [
        | inl wr ↦
            let q : w ≡ node = same_node (sym by_w ∙ h.new_writer e wr) in
            (deps, inl (λ j. (q j, deps)), wr)
        | inr kept ↦ let (d, i, wr) = inv.writer_known e w (sym kept.1 ∙ by_w) in (d, inr i, wr)
      ];
      reader_known = λ e m i. elim (h.reader e m i) [
        | inl now ↦ (deps, inl (λ j. (now.0 j, deps)), now.1)
        | inr old ↦ let (d, k, rd) = inv.reader_known e m old.1 in (d, inr k, rd)
      ];
      written = new_written;
      read = new_read;
      reader_after_writer = new_reader_after_writer;
      inhabited = h.inhabited inv.inhabited;
    }

    -- A new link comes from an earlier node, and there is a conflict.
    pub Link-Conflict :
        (m k : ℕ)
        → Link l'.heap m k
        → Link l.heap m k
          ⊎ (k ≡ node) × ((d : Dependencies) × In (m, d) hist × Conflict table d deps)
    Link-Conflict m k i = elim (h.no_other_links m k i) [
      | inl old ↦ inl old
      | inr new ↦ inr (new.0, Cause-Conflict m new.2)
    ]
