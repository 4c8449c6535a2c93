-- ===== src/TaskGraph/Fusion/Accesses.antt =====
-- The dependencies of a node that has been fused with another (`Graph::fuseNodes`, Graph.hpp).
use apac.Prelude.{ℕ, ◌≡◌, refl, ◌∙◌, sym, ap, inl, inr, Bool, true, false, ◌||◌, ◌&&◌, some}
use apac.Prelude.{
  List, [], ◌∷◌, ◌++◌, foldl, any, ◌==◌, ==-self, ==_iff, Option-cases, Bool-cases, arith, some_inj,
  none≢some,
}
use mathlib.Core.Path.{ap₂}
use apac.Prelude.Maps.{lookup, put, update, keys}
use apac.TaskGraph.Instruction.{NodeDependency, Dependencies, plus}
use apac.TaskGraph.Node.{Node, Heap}
use apac.TaskGraph.Fusion.{add_dep, merge_dependencies, replace_prev, take_next, fuse_heap}

or_assoc : (a b c : Bool) → ((a || b) || c) ≡ (a || (b || c))
or_assoc true b c = refl
or_assoc false b c = refl

or_false : (b : Bool) → (b || false) ≡ b
or_false true = refl
or_false false = refl

both_flags : (k w d rest : Bool) → ((k && (w || d)) || rest) ≡ (((k && w) || rest) || (k && d))
both_flags k w d rest = ground arith

module _ (flag : NodeDependency → Bool) where
  -- Some dependency on the element has the flag.
  abbrev pub has_flag : ℕ → Dependencies → Bool
  has_flag a m = any (λ (d : ℕ × NodeDependency). (d.0 == a) && flag d.1) m

  has_flag-append :
      (a : ℕ) (m : Dependencies) (d : ℕ × NodeDependency)
      → has_flag a (m ++ d ∷ []) ≡ (has_flag a m || ((d.0 == a) && flag d.1))
  has_flag-append a [] d = or_false ((d.0 == a) && flag d.1)
  has_flag-append a (x ∷ m) d = let ih = has_flag-append a m d in ground arith

  module _ (flag-plus : (w d : NodeDependency) → flag (plus w d) ≡ (flag w || flag d)) where
    has_flag-put :
        (a k : ℕ) (m : Dependencies) (w d : NodeDependency)
        → lookup k m ≡ some w
        → has_flag a (put k (plus w d) m) ≡ (has_flag a m || ((k == a) && flag d))
    has_flag-put a k [] w d e = absurd (none≢some e)
    has_flag-put a k ((j, v) ∷ m) w d e = elim (Bool-cases (j == k)) [
      | inl q ↦
          let value : v ≡ w = some_inj (rw (q, lookup) at e) in
          let key = (==_iff j k).0 q in
          rw (q, put)
            (rw (value, key, flag-plus w d) (both_flags (k == a) (flag w) (flag d) (has_flag a m)))
      | inr q ↦
          let ih = has_flag-put a k m w d (rw (q, lookup) at e) in
          rw (q, put, ih) (sym (or_assoc ((j == a) && flag v) (has_flag a m) ((k == a) && flag d)))
    ]

    has_flag-add_dep :
        (a : ℕ) (m : Dependencies) (d : ℕ × NodeDependency)
        → has_flag a (add_dep m d) ≡ (has_flag a m || ((d.0 == a) && flag d.1))
    has_flag-add_dep a m (k, d) = elim (Option-cases (lookup k m)) [
      | inl e ↦ rw (e, add_dep) (has_flag-append a m (k, d))
      | inr (w, e) ↦ rw (e, add_dep) (has_flag-put a k m w d e)
    ]

    has_flag-merge_dependencies :
        (a : ℕ) (m m' : Dependencies)
        → has_flag a (merge_dependencies m m') ≡ (has_flag a m || has_flag a m')
    has_flag-merge_dependencies a m [] = sym (or_false (has_flag a m))
    has_flag-merge_dependencies a m (d ∷ m') =
        has_flag-merge_dependencies a (add_dep m d) m'
        ∙ ap (λ b. b || has_flag a m') (has_flag-add_dep a m d)
        ∙ or_assoc (has_flag a m) ((d.0 == a) && flag d.1) (has_flag a m')

-- A change of `prev` or `next` of one node keeps the dependencies of all.
dependencies-update :
    (h : Heap) (n k : ℕ) (node : Node)
    → node.dependencies ≡ (h n).dependencies
    → (update h n node k).dependencies ≡ (h k).dependencies
dependencies-update h n k node same = elim (Bool-cases (k == n)) [
  | inl e ↦ rw (e, update) (same ∙ ap (λ x. (h x).dependencies) (sym ((==_iff k n).0 e)))
  | inr e ↦ rw (e, update) refl
]

dependencies-foldl :
    (n1 n2 : ℕ) (ns : List ℕ) (h : Heap) (k : ℕ)
    → (foldl (replace_prev n1 n2) h ns k).dependencies ≡ (h k).dependencies
dependencies-foldl n1 n2 [] h k = refl
dependencies-foldl n1 n2 (n ∷ ns) h k =
    dependencies-foldl n1 n2 ns (replace_prev n1 n2 h n) k ∙ dependencies-update h n k _ refl

dependencies-fuse_heap :
    (n1 n2 : ℕ) (h : Heap)
    → (fuse_heap n1 n2 h n1).dependencies
      ≡ merge_dependencies (h n1).dependencies (h n2).dependencies
dependencies-fuse_heap n1 n2 h =
    let after = foldl (replace_prev n1 n2) (take_next n1 n2 h) (keys (h n2).next) in
    let same : (k : ℕ) → (after k).dependencies ≡ (h k).dependencies = λ k.
      dependencies-foldl n1 n2 (keys (h n2).next) (take_next n1 n2 h) k
      ∙ dependencies-update h n1 k _ refl in
    rw (==-self n1) (ap₂ merge_dependencies (same n1) (same n2))

-- The node that `fuseNodes` makes of two reads what either reads, and writes what either writes.
pub fuse_heap-accesses :
    (n1 n2 : ℕ) (h : Heap) (a : ℕ)
    → (has_flag (λ d. d.is_read) a (fuse_heap n1 n2 h n1).dependencies ≡ (
        has_flag (λ d. d.is_read) a (h n1).dependencies
        || has_flag (λ d. d.is_read) a (h n2).dependencies))
      × (has_flag (λ d. d.is_write) a (fuse_heap n1 n2 h n1).dependencies ≡ (
          has_flag (λ d. d.is_write) a (h n1).dependencies
          || has_flag (λ d. d.is_write) a (h n2).dependencies))
fuse_heap-accesses n1 n2 h a =
    let merged = dependencies-fuse_heap n1 n2 h in
    (
      ap (has_flag (λ d. d.is_read) a) merged
          ∙ has_flag-merge_dependencies (λ d. d.is_read) (λ w d. refl) a (h n1).dependencies
              (h n2).dependencies,
      ap (has_flag (λ d. d.is_write) a) merged
          ∙ has_flag-merge_dependencies (λ d. d.is_write) (λ w d. refl) a (h n1).dependencies
              (h n2).dependencies,
    )
