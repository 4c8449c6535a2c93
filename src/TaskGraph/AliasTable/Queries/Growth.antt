-- ===== src/TaskGraph/AliasTable/Queries/Growth.antt =====
-- Sets that only grow: where the number of members stays, there is no new one.
use apac.Prelude.{ℕ, suc, ◌≤◌, ◌<◌, ◌≡◌, refl, ◌⊎◌, inl, inr, List, [], ◌∷◌, ◌++◌}
use apac.Prelude.{length, In, insert, In-insert, insert_all, contains, Bool-cases, arith}
use apac.Prelude.Search.{unvisited, unvisited-insert, unvisited-insert_le}

-- The second set holds the first; it has more members and leaves fewer of `us`, or is no larger.
abbrev pub Grows : List ℕ → List ℕ → List ℕ → Type 0
Grows us a b =
    ((x : ℕ) → In x a → In x b)
    × (unvisited us b ≤ unvisited us a)
    × ((((x : ℕ) → In x b → In x a) × (length b ≡ length a))
        ⊎ ((length a < length b)
            × (((x : ℕ) → In x b → In x us) → unvisited us b < unvisited us a)))

pub Grows-refl : (us a : List ℕ) → Grows us a a
Grows-refl us a = (λ x i. i, ground arith, inl (λ x i. i, refl))

length-snoc : (x : ℕ) (xs : List ℕ) → length (xs ++ x ∷ []) ≡ suc (length xs)
length-snoc x [] = refl
length-snoc x (y ∷ ys) = λ i. suc (length-snoc x ys i)

Grows-insert : (us a : List ℕ) (x : ℕ) → Grows us a (insert x a)
Grows-insert us a x = elim (Bool-cases (contains x a)) [
  | inl old ↦ rw old (Grows-refl us a)
  | inr new ↦
      let fewer = λ (inside : In x us). unvisited-insert us a x inside new in
      let longer = length-snoc x a in
      (
        λ y i. (In-insert y x a).1 (inr i),
        unvisited-insert_le us a x,
        inr (
          rw new (rw longer (omega arith)),
          λ inside. fewer (inside x ((In-insert x x a).1 (inl refl))),
        ),
      )
]

pub Grows-trans : (us a b c : List ℕ) → Grows us a b → Grows us b c → Grows us a c
Grows-trans us a b c (keep, less, first) (keep', less', second) = (
  λ x i. keep' x (keep x i),
  ground arith,
  elim first [
    | inl same ↦ elim second [
      | inl same' ↦
          let (back, size) = same in
          let (back', size') = same' in inl (λ x i. back x (back' x i), omega arith)
      | inr more ↦
          let (back, size) = same in
          let (longer, fewer) = more in
          inr (omega arith, λ inside. let now = fewer inside in ground arith)
    ]
    | inr more ↦
        let (longer, fewer) = more in
        let size : length b ≤ length c = elim second [
          | inl same' ↦ let size' = same'.1 in ground arith
          | inr more' ↦ let size' = more'.0 in ground arith
        ] in
        inr (omega arith, λ inside. let now = fewer (λ x i. inside x (keep' x i)) in ground arith)
  ],
)

pub Grows-insert_all : (us a xs : List ℕ) → Grows us a (insert_all a xs)
Grows-insert_all us a [] = Grows-refl us a
Grows-insert_all us a (x ∷ xs) =
    Grows-trans us a (insert x a) (insert_all (insert x a) xs) (Grows-insert us a x)
      (Grows-insert_all us (insert x a) xs)
