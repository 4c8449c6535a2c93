-- ===== src/TaskGraph/Fusion/Links.antt =====
-- The links after `Graph::fuseNodes` (Graph.hpp).
use apac.Prelude.{ℕ, ◌≡◌, refl, ◌≢◌, ◌↔◌, ◌⊎◌, ◌∙◌, sym, ap, inl, inr, List, [], ◌∷◌}
use apac.Prelude.{
  foldl, ◌==◌, ==_iff, if◌then◌else◌, Bool-cases, arith, In, In-insert, In-erase, erase, if_true,
  if_false,
}
use mathlib.Core.Path.{subst}
use apac.Prelude.Maps.{has_key, has_key_iff, keys, update}
use apac.TaskGraph.Node.{Node, Heap}
use apac.TaskGraph.Node.Link.{Link, IsMirrored}
use apac.TaskGraph.Fusion.{replace_prev, take_next, take_rest, fuse_heap}

-- The nodes other than `gone` have mirrored links.
abbrev pub IsMirroredBut : ℕ → Heap → Type 0
IsMirroredBut gone h = (m n : ℕ) → m ≢ gone → n ≢ gone → Link h m n ↔ In m (h n).prev

module _ (n1 n2 : ℕ) where
  In-replace_prev :
      (h : Heap) (n k m : ℕ)
      → m ≢ n2
      → In m (replace_prev n1 n2 h n k).prev ↔ (((k ≡ n) × (m ≡ n1)) ⊎ In m (h k).prev)
  In-replace_prev h n k m ne = elim (Bool-cases (k == n)) [
    | inl e ↦
        let at = (==_iff k n).0 e in
        let same : (h k).prev ≡ (h n).prev = ap (λ x. (h x).prev) at in
        let inserted = In-insert m n1 (erase n2 (h n).prev) in
        let erased = In-erase m n2 (h n).prev in
        rw (e, update, same) (ground (arith, inserted, erased))
    | inr e ↦ rw (e, update) (ground arith)
  ]

  next-replace_prev : (h : Heap) (n k : ℕ) → (replace_prev n1 n2 h n k).next ≡ (h k).next
  next-replace_prev h n k = elim (Bool-cases (k == n)) [
    | inl e ↦ rw (e, update) (ap (λ x. (h x).next) (sym ((==_iff k n).0 e)))
    | inr e ↦ rw (e, update) refl
  ]

  next-foldl :
      (ns : List ℕ) (h : Heap) (k : ℕ) → (foldl (replace_prev n1 n2) h ns k).next ≡ (h k).next
  next-foldl [] h k = refl
  next-foldl (n ∷ ns) h k = next-foldl ns (replace_prev n1 n2 h n) k ∙ next-replace_prev h n k

  In-foldl :
      (ns : List ℕ) (h : Heap) (k m : ℕ)
      → m ≢ n2
      → In m (foldl (replace_prev n1 n2) h ns k).prev ↔ ((In k ns × (m ≡ n1)) ⊎ In m (h k).prev)
  In-foldl [] h k m ne = (inr, λ c. elim c [ inl x ↦ absurd x.0 | inr i ↦ i ])
  In-foldl (n ∷ ns) h k m ne =
      let rest = In-foldl ns (replace_prev n1 n2 h n) k m ne in
      let step = In-replace_prev h n k m ne in ground (arith, rest, step)

  next-update :
      (h : Heap) (n k : ℕ) (node : Node)
      → (update h n node k).next ≡ (if k == n then node.next else (h k).next)
  next-update h n k node = elim (Bool-cases (k == n)) [ inl e ↦ rw e refl | inr e ↦ rw e refl ]

  next-take_rest : (h : Heap) (k : ℕ) → (take_rest n1 n2 h k).next ≡ (h k).next
  next-take_rest h k = elim (Bool-cases (k == n1)) [
    | inl e ↦ rw (e, update) (ap (λ x. (h x).next) (sym ((==_iff k n1).0 e)))
    | inr e ↦ rw (e, update) refl
  ]

  prev-take_rest : (h : Heap) (k : ℕ) → (take_rest n1 n2 h k).prev ≡ (h k).prev
  prev-take_rest h k = elim (Bool-cases (k == n1)) [
    | inl e ↦ rw (e, update) (ap (λ x. (h x).prev) (sym ((==_iff k n1).0 e)))
    | inr e ↦ rw (e, update) refl
  ]

  prev-take_next : (h : Heap) (k : ℕ) → (take_next n1 n2 h k).prev ≡ (h k).prev
  prev-take_next h k = elim (Bool-cases (k == n1)) [
    | inl e ↦ rw (e, update) (ap (λ x. (h x).prev) (sym ((==_iff k n1).0 e)))
    | inr e ↦ rw (e, update) refl
  ]

  next-fuse_heap :
      (h : Heap) (k : ℕ)
      → (fuse_heap n1 n2 h k).next ≡ (if k == n1 then (h n2).next else (h k).next)
  next-fuse_heap h k =
      next-take_rest (foldl (replace_prev n1 n2) (take_next n1 n2 h) (keys (h n2).next)) k
      ∙ next-foldl (keys (h n2).next) (take_next n1 n2 h) k
      ∙ next-update h n1 k _

  In-fuse_heap :
      (h : Heap) (k m : ℕ)
      → m ≢ n2
      → In m (fuse_heap n1 n2 h k).prev ↔ ((Link h n2 k × (m ≡ n1)) ⊎ In m (h k).prev)
  In-fuse_heap h k m ne =
      let after = foldl (replace_prev n1 n2) (take_next n1 n2 h) (keys (h n2).next) in
      let all = In-foldl (keys (h n2).next) (take_next n1 n2 h) k m ne in
      let key = has_key_iff k (h n2).next in
      subst (λ (xs : List ℕ). In m xs ↔ ((Link h n2 k × (m ≡ n1)) ⊎ In m (h k).prev))
        (sym (prev-take_rest after k))
        (subst (λ (xs : List ℕ). In m (after k).prev ↔ ((Link h n2 k × (m ≡ n1)) ⊎ In m xs))
          (prev-take_next h k) (ground (arith, all, key)))

-- If `n1` and `n2` differ, `n1` links only to `n2` and only `n1` links to `n2`, and `prev` mirrors
-- `next`, then after `fuseNodes` it still does for the nodes other than `n2`, and none of them links
-- to `n2`.
pub fuse_heap-IsMirroredBut :
    (n1 n2 : ℕ) (h : Heap)
    → n1 ≢ n2
    → IsMirrored h
    → ((n : ℕ) → Link h n1 n → n ≡ n2)
    → ((m : ℕ) → Link h m n2 → m ≡ n1)
    → IsMirroredBut n2 (fuse_heap n1 n2 h) × ((m : ℕ) → m ≢ n2 → ¬ Link (fuse_heap n1 n2 h) m n2)
fuse_heap-IsMirroredBut n1 n2 h apart mirrored only_next only_prev = (
  λ m n ne_m ne_n.
      let prev = In-fuse_heap n1 n2 h n m ne_m in
      elim (Bool-cases (m == n1)) [
        | inl e ↦
            let first = (==_iff m n1).0 e in
            let link : has_key n (fuse_heap n1 n2 h m).next ≡ has_key n (h n2).next =
              ap (has_key n) (next-fuse_heap n1 n2 h m ∙ if_true _ _ e) in
            let not_before : ¬ In m (h n).prev =
              λ i. ne_n (only_next n (subst (λ x. Link h x n) first ((mirrored m n).1 i))) in
            ground (arith, link, prev, not_before, first)
        | inr e ↦
            let link : has_key n (fuse_heap n1 n2 h m).next ≡ has_key n (h m).next =
              ap (has_key n) (next-fuse_heap n1 n2 h m ∙ if_false _ _ e) in
            ground (arith, link, prev, mirrored m n)
      ],
  λ m ne l. elim (Bool-cases (m == n1)) [
    | inl e ↦
        let itself : Link h n2 n2 =
          sym (ap (has_key n2) (next-fuse_heap n1 n2 h m ∙ if_true _ _ e)) ∙ l in
        apart (sym (only_prev n2 itself))
    | inr e ↦
        let old : Link h m n2 =
          sym (ap (has_key n2) (next-fuse_heap n1 n2 h m ∙ if_false _ _ e)) ∙ l in
        let first = only_prev m old in ground arith
  ],
)
