-- ===== src/TaskGraph/Graph/Flush.antt =====
-- The three loops at the end of `handleInstructionDeps` (Graph.cpp), which move the buffers into
-- `dataUsedInRead` and `dataUsedInWrite`.
use apac.Prelude.{ℕ, ◌≡◌, refl, ◌≢◌, ◌↔◌, ◌⊎◌, inl, inr, none, some}
use apac.Prelude.{List, [], ◌∷◌, foldl, ◌==◌, if◌then◌else◌, arith, In, In-insert, contains}
use apac.Prelude.{foldl_inv, ◌∙◌, Bool-cases, ℕ-cases, insert, ==-self, ==-ne}
use apac.Prelude.Maps.{SearchMap}
use apac.TaskGraph.Graph.{readers_of, add_reader, set_writer, erase_readers}

pub foldl-set_writer :
    (wb : List (ℕ × ℕ)) (m : SearchMap ℕ) (e : ℕ)
    → ((n : ℕ) × In (n, e) wb × (foldl set_writer m wb e ≡ some n))
      ⊎ ((n : ℕ) → ¬ In (n, e) wb) × (foldl set_writer m wb e ≡ m e)
foldl-set_writer [] m e = inr (λ n i. i, refl)
foldl-set_writer ((n, x) ∷ wb) m e = elim (foldl-set_writer wb (set_writer m (n, x)) e) [
  | inl (k, i, q) ↦ inl (k, inr i, q)
  | inr (absent, q) ↦ elim (ℕ-cases e x) [
    | inl same ↦ inl (n, inl (rw same), rw q (ground arith))
    | inr other ↦ inr (
      (λ k i. elim i [ inl p ↦ other (λ j. (p j).1) | inr later ↦ absent k later ]),
      rw q (ground arith),
    )
  ]
]

pub foldl-erase_readers :
    (eb : List ℕ) (m : SearchMap (List ℕ)) (e : ℕ)
    → foldl erase_readers m eb e ≡ (if contains e eb then none else m e)
foldl-erase_readers [] m e = refl
foldl-erase_readers (x ∷ eb) m e = ground (arith, foldl-erase_readers eb (erase_readers m x) e)

readers_of-add_reader :
    (m : SearchMap (List ℕ)) (n x e : ℕ)
    → readers_of (add_reader m (n, x)) e
      ≡ (if e == x then insert n (readers_of m e) else readers_of m e)
readers_of-add_reader m n x e = elim (ℕ-cases e x) [
  | inl same ↦ ground (arith, ==-self x)
  | inr other ↦ ground (arith, ==-ne e x other)
]

In-add_reader :
    (m : SearchMap (List ℕ)) (n x e k : ℕ)
    → In k (readers_of (add_reader m (n, x)) e) ↔ ((k ≡ n) × (e ≡ x) ⊎ In k (readers_of m e))
In-add_reader m n x e k = elim (ℕ-cases e x) [
  | inl same ↦
      rw (readers_of-add_reader m n x e)
        (rw same (rw (==-self x) (ground (arith, In-insert k n (readers_of m x)))))
  | inr other ↦ rw (readers_of-add_reader m n x e) (rw (==-ne e x other) (ground arith))
]

-- The readers are those of before and those of the buffer.
pub foldl-add_reader :
    (rb : List (ℕ × ℕ)) (m : SearchMap (List ℕ)) (e k : ℕ)
    → In k (readers_of (foldl add_reader m rb) e) ↔ (In (k, e) rb ⊎ In k (readers_of m e))
foldl-add_reader [] m e k = (inr, λ c. elim c [ inl i ↦ absurd i | inr r ↦ r ])
foldl-add_reader ((n, x) ∷ rb) m e k =
    let step = In-add_reader m n x e k in
    let rest = foldl-add_reader rb (add_reader m (n, x)) e k in
    (
      λ r. elim (rest.0 r) [
        | inl later ↦ inl (inr later)
        | inr now ↦ elim (step.0 now) [
          | inl both ↦ inl (inl (λ j. (both.0 j, both.1 j)))
          | inr old ↦ inr old
        ]
      ],
      λ c. rest.1 (elim c [
        | inl i ↦ elim i [
          | inl p ↦ inr (step.1 (inl (λ j. (p j).0, λ j. (p j).1)))
          | inr later ↦ inl later
        ]
        | inr old ↦ inr (step.1 (inr old))
      ]),
    )

-- A key of the map has a reader.
abbrev pub IsInhabited : SearchMap (List ℕ) → Type 0
IsInhabited m = (e : ℕ) → m e ≢ none → (k : ℕ) × In k (readers_of m e)

erase_readers-IsInhabited :
    (eb : List ℕ) (m : SearchMap (List ℕ)) → IsInhabited m → IsInhabited (foldl erase_readers m eb)
erase_readers-IsInhabited eb m h e = elim (Bool-cases (contains e eb)) [
  | inl gone ↦ λ ne. absurd (ne (foldl-erase_readers eb m e ∙ rw gone refl))
  | inr kept ↦
      let same : foldl erase_readers m eb e ≡ m e = foldl-erase_readers eb m e ∙ rw kept refl in
      λ ne. rw (same, readers_of) (h e (λ q. ne (same ∙ q)))
]

add_reader-IsInhabited :
    (x : ℕ × ℕ) (m : SearchMap (List ℕ)) → IsInhabited m → IsInhabited (add_reader m x)
add_reader-IsInhabited (n, x) m h e ne = elim (ℕ-cases e x) [
  | inl same ↦ (n, (In-add_reader m n x e n).1 (inl (refl, same)))
  | inr other ↦
      let (k, i) = h e (λ q. ne (rw (==-ne e x other) q)) in
      (k, (In-add_reader m n x e k).1 (inr i))
]

pub flush-IsInhabited :
    (eb : List ℕ) (rb : List (ℕ × ℕ)) (m : SearchMap (List ℕ))
    → IsInhabited m
    → IsInhabited (foldl add_reader (foldl erase_readers m eb) rb)
flush-IsInhabited eb rb m h =
    foldl_inv add_reader IsInhabited rb _ (λ t x _. add_reader-IsInhabited x t)
      (erase_readers-IsInhabited eb m h)
