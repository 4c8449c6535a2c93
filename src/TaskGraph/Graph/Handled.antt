-- ===== src/TaskGraph/Graph/Handled.antt =====
-- One call of `handleInstructionDeps` (Graph.cpp), described by its effect.
use apac.Prelude.{ℕ, ◌≡◌, refl, ◌≢◌, ◌∙◌, ◌⊎◌, inl, inr, none, some}
use apac.Prelude.{foldl, In, contains, contains_iff, Option-cases, Bool-cases, sym, ap, []}
use mathlib.Core.Bool.{true≢false}
use mathlib.Core.Path.{subst}
use apac.TaskGraph.Instruction.{Dependencies}
use apac.TaskGraph.Node.Link.{Link}
use apac.TaskGraph.Graph.{
  Elements, Scan, Linking, or_empty, readers_of, erase_readers, start_scan, visit_dep,
  handle_instruction_deps,
}
use apac.TaskGraph.Graph.Growth.{visit_deps-Grows}
use apac.TaskGraph.Graph.Done.{Reads, Writes, visit_deps-ReadDone, visit_deps-WriteDone}
use apac.TaskGraph.Graph.Causes.{Cause, Only, visit_deps-Only}
use apac.TaskGraph.Graph.Flush.{
  foldl-set_writer, foldl-erase_readers, foldl-add_reader, IsInhabited, flush-IsInhabited,
}

module _ (table : Elements) (node : ℕ) (deps : Dependencies) where
  pub record Handled (l l' : Linking) : Type 0 where
    pub links : (m k : ℕ) → Link l.heap m k → Link l'.heap m k
    pub no_other_links :
        (m k : ℕ)
        → Link l'.heap m k
        → Link l.heap m k ⊎ (k ≡ node) × (m ≢ node) × Cause table l.uses deps m
    -- The links that a read or a write of `e` needs.
    pub after_writer :
        (e m : ℕ) → Reads table deps e → l.uses.writes e ≡ some m → m ≢ node → Link l'.heap m node
    pub after_readers :
        (e m : ℕ)
        → Writes table deps e
        → In m (readers_of l.uses.reads e)
        → m ≢ node
        → Link l'.heap m node
    pub after_last_writer :
        (e m : ℕ)
        → Writes table deps e
        → l.uses.reads e ≡ none
        → l.uses.writes e ≡ some m
        → m ≢ node
        → Link l'.heap m node
    -- The new maps.
    pub new_writer : (e : ℕ) → Writes table deps e → l'.uses.writes e ≡ some node
    pub writer :
        (e : ℕ)
        → Writes table deps e ⊎ (¬ Writes table deps e) × (l'.uses.writes e ≡ l.uses.writes e)
    pub new_reader : (e : ℕ) → Reads table deps e → In node (readers_of l'.uses.reads e)
    pub kept_reader :
        (e m : ℕ)
        → In m (readers_of l.uses.reads e)
        → Writes table deps e ⊎ In m (readers_of l'.uses.reads e)
    pub reader :
        (e m : ℕ)
        → In m (readers_of l'.uses.reads e)
        → (m ≡ node) × Reads table deps e
          ⊎ (¬ Writes table deps e) × In m (readers_of l.uses.reads e)
    pub inhabited : IsInhabited l.uses.reads → IsInhabited l'.uses.reads

  module _ (l : Linking) where
    final : Scan
    final = foldl (visit_dep table l.uses node) (start_scan l.heap) deps

    final-Only : Only table l.uses node deps l.heap final
    unfolding final
    final-Only = visit_deps-Only table l.uses node deps l.heap (start_scan l.heap) (record {
      links = λ m k i. inl i;
      read = λ x i. absurd i;
      written = λ x i. absurd i;
      erased = λ e i. absurd i;
    })

    -- The writers after the call.
    writer_lem :
        (e : ℕ)
        → (Writes table deps e
            × ((handle_instruction_deps table node deps l).uses.writes e ≡ some node))
          ⊎ ((¬ Writes table deps e)
              × ((handle_instruction_deps table node deps l).uses.writes e ≡ l.uses.writes e))
    unfolding handle_instruction_deps final
    writer_lem e = elim (foldl-set_writer final.data_write_buffer l.uses.writes e) [
      | inl (n, i, q) ↦ let (same, w) = final-Only.written (n, e) i in inl (w, q ∙ rw same refl)
      | inr (absent, q) ↦ inr (
        λ w.
            absent node
              (visit_deps-WriteDone table l.uses node deps (start_scan l.heap) e w).buffered,
        q,
      )
    ]

    -- `e` is erased by a write, and by every write if it has readers.
    erased_lem :
        (e : ℕ)
        → (Writes table deps e
            × (readers_of (foldl erase_readers l.uses.reads final.data_read_erase_buffer) e ≡ []))
          ⊎ ((Writes table deps e → l.uses.reads e ≡ none)
              × (readers_of (foldl erase_readers l.uses.reads final.data_read_erase_buffer) e
                  ≡ readers_of l.uses.reads e))
    unfolding final
    erased_lem e =
        let eb = final.data_read_erase_buffer in
        let q = foldl-erase_readers eb l.uses.reads e in
        elim (Bool-cases (contains e eb)) [
          | inl gone ↦
              let none_left : foldl erase_readers l.uses.reads eb e ≡ none = q ∙ rw gone refl in
              inl (final-Only.erased e ((contains_iff e eb).0 gone), ap or_empty none_left)
          | inr kept ↦
              let same : foldl erase_readers l.uses.reads eb e ≡ l.uses.reads e =
                q ∙ rw kept refl in
              inr (
                λ w. elim (Option-cases (l.uses.reads e)) [
                  | inl unread ↦ unread
                  | inr (ms, by_ms) ↦
                      let d = visit_deps-WriteDone table l.uses node deps (start_scan l.heap) e w in
                      absurd (true≢false (sym ((contains_iff e eb).1 (d.erased ms by_ms)) ∙ kept))
                ],
                ap or_empty same,
              )
        ]

  pub handle_instruction_deps-Handled :
      (l : Linking) → Handled l (handle_instruction_deps table node deps l)
  unfolding handle_instruction_deps final
  handle_instruction_deps-Handled l = record {
    links = (visit_deps-Grows table l.uses node deps (start_scan l.heap)).links;
    no_other_links = (final-Only l).links;
    after_writer =
        λ e m r. (visit_deps-ReadDone table l.uses node deps (start_scan l.heap) e r).link m;
    after_readers = λ e m w i ne. elim (Option-cases (l.uses.reads e)) [
      | inl unread ↦ absurd (rw unread at i)
      | inr (ms, by_ms) ↦
          (visit_deps-WriteDone table l.uses node deps (start_scan l.heap) e w).after_readers ms m
            by_ms (rw by_ms at i) ne
    ];
    after_last_writer = λ e m w unread.
        (visit_deps-WriteDone table l.uses node deps (start_scan l.heap) e w).after_writer unread m;
    new_writer =
        λ e w. elim (writer_lem l e) [ inl wrote ↦ wrote.1 | inr kept ↦ absurd (kept.0 w) ];
    writer = λ e. elim (writer_lem l e) [ inl wrote ↦ inl wrote.0 | inr kept ↦ inr kept ];
    new_reader = λ e r.
        (foldl-add_reader (final l).data_read_buffer _ e node).1
          (inl (visit_deps-ReadDone table l.uses node deps (start_scan l.heap) e r).buffered);
    kept_reader = λ e m i. elim (erased_lem l e) [
      | inl wrote ↦ inl wrote.0
      | inr kept ↦ inr (
          (foldl-add_reader (final l).data_read_buffer _ e m).1 (inr (subst (In m) (sym kept.1) i)))
    ];
    reader = λ e m i. elim ((foldl-add_reader (final l).data_read_buffer _ e m).0 i) [
      | inl new ↦ inl ((final-Only l).read (m, e) new)
      | inr old ↦ elim (erased_lem l e) [
        | inl wrote ↦ absurd (subst (In m) wrote.1 old)
        | inr kept ↦
            let old' = subst (In m) kept.1 old in
            inr (λ w. absurd (subst (In m) (ap or_empty (kept.0 w)) old'), old')
      ]
    ];
    inhabited =
        flush-IsInhabited (final l).data_read_erase_buffer (final l).data_read_buffer l.uses.reads;
  }
