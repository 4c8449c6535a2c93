-- ===== src/Prelude/Lists.antt =====
-- Lists as the source's vectors and sets: membership, `contains`, set insertion, and fold rules.
use Prim.Native.Nat.{ℕ, suc}
use mathlib.Core.Path.{◌≡◌, refl}
use mathlib.Core.Logic.{◌≢◌, ◌↔◌, ◌⊎◌, inl, inr}
use mathlib.Core.Bool.{Bool, true, false, ◌||◌}
use mathlib.Core.List.{List, [], ◌∷◌, ◌++◌, foldl}
use native.Mathlib.Omega.{arith}
use apac.Prelude.Tests.{◌==◌, ltb, if◌then◌else◌, ==_iff, Bool-cases}

module _ {ℓ} {A : Type ℓ} where
  abbrev pub length : List A → ℕ
  length [] = 0
  length (x ∷ xs) = suc (length xs)

module _ {A : Type 0} where
  -- Membership by recursion, so that it computes. (`⊥` stands at level 0, as all data of the model.)
  abbrev pub In : A → List A → Type 0
  In a [] = ⊥
  In a (x ∷ xs) = (a ≡ x) ⊎ In a xs

  pub In-append_left : (a : A) (xs ys : List A) → In a xs → In a (xs ++ ys)
  In-append_left a (x ∷ xs) ys (inl e) = inl e
  In-append_left a (x ∷ xs) ys (inr h) = inr (In-append_left a xs ys h)
  In-append_left a [] ys h = elim h [ ]

  pub In-append_right : (a : A) (xs ys : List A) → In a ys → In a (xs ++ ys)
  In-append_right a [] ys h = h
  In-append_right a (x ∷ xs) ys h = inr (In-append_right a xs ys h)

  pub In-append_cases : (a : A) (xs ys : List A) → In a (xs ++ ys) → In a xs ⊎ In a ys
  In-append_cases a [] ys h = inr h
  In-append_cases a (x ∷ xs) ys (inl e) = inl (inl e)
  In-append_cases a (x ∷ xs) ys (inr h) = elim (In-append_cases a xs ys h) [
    | inl l ↦ inl (inr l)
    | inr r ↦ inr r
  ]

  pub In-snoc_self : (x : A) (xs : List A) → In x (xs ++ x ∷ [])
  In-snoc_self x xs = In-append_right x xs (x ∷ []) (inl refl)

  pub In-snoc : (a x : A) (xs : List A) → In a (xs ++ x ∷ []) → In a xs ⊎ (a ≡ x)
  In-snoc a x xs h = elim (In-append_cases a xs (x ∷ []) h) [
    | inl l ↦ inl l
    | inr r ↦ elim r [ inl e ↦ inr e | inr b ↦ absurd b ]
  ]

-- Sets of numbers: pointers are compared by the identifier of what they point to.
abbrev pub contains : ℕ → List ℕ → Bool
contains a [] = false
contains a (x ∷ xs) = (a == x) || contains a xs

-- `std::set::insert`, `std::unordered_set::insert`: nothing if it is there.
abbrev pub insert : ℕ → List ℕ → List ℕ
insert a xs = if contains a xs then xs else xs ++ a ∷ []

-- `erase`.
abbrev pub erase : ℕ → List ℕ → List ℕ
erase a [] = []
erase a (x ∷ xs) = let rest = erase a xs in if a == x then rest else x ∷ rest

pub contains_iff : (a : ℕ) (xs : List ℕ) → (contains a xs ≡ true) ↔ In a xs
contains_iff a [] = (λ h. cc, λ h. elim h [ ])
contains_iff a (x ∷ xs) = ground (arith, contains_iff a xs, ==_iff a x)

pub In-insert : (a b : ℕ) (xs : List ℕ) → In a (insert b xs) ↔ ((a ≡ b) ⊎ In a xs)
In-insert a b xs = elim (Bool-cases (contains b xs)) [
  | inl old ↦ rw old (inr, λ h. elim h [ inl e ↦ rw e ((contains_iff b xs).0 old) | inr i ↦ i ])
  | inr new ↦ rw new (
    λ h. elim (In-snoc a b xs h) [ inl i ↦ inr i | inr e ↦ inl e ],
    λ h. elim h [
      | inl e ↦ In-append_right a xs (b ∷ []) (inl e)
      | inr i ↦ In-append_left a xs (b ∷ []) i
    ],
  )
]

pub In-erase : (a b : ℕ) (xs : List ℕ) → In a (erase b xs) ↔ ((a ≢ b) × In a xs)
In-erase a b [] = (λ h. elim h [ ], λ h. h.1)
In-erase a b (x ∷ xs) = elim (Bool-cases (b == x)) [
  | inl e ↦ rw e (ground (arith, In-erase a b xs, ==_iff b x))
  | inr e ↦ rw e (ground (arith, In-erase a b xs, ==_iff b x))
]

module _ {ℓ} {S : Type ℓ} {A : Type 0} (f : S → A → S) where
  -- An invariant that every step on an element of the list keeps.
  pub foldl_inv {μ} :
      (P : S → Type μ) (xs : List A) (s : S)
      → ((t : S) (x : A) → In x xs → P t → P (f t x))
      → P s
      → P (foldl f s xs)
  foldl_inv P [] s keep p = p
  foldl_inv P (x ∷ xs) s keep p =
      foldl_inv P xs (f s x) (λ t y m. keep t y (inr m)) (keep s x (inl refl) p)

  -- What the step on one element of the list establishes, and every step keeps.
  pub foldl_hit {μ} :
      (P : S → Type μ) (xs : List A) (s : S) (x : A)
      → ((t : S) (y : A) → P t → P (f t y))
      → ((t : S) → P (f t x))
      → In x xs
      → P (foldl f s xs)
  foldl_hit P [] s x keep est m = elim m [ ]
  foldl_hit P (y ∷ xs) s x keep est (inl e) =
      foldl_inv P xs (f s y) (λ t z _. keep t z) (rw (← e) (est s))
  foldl_hit P (y ∷ xs) s x keep est (inr m) = foldl_hit P xs (f s y) x keep est m

-- `insert` into a `std::set` of numbers, which is kept in increasing order.
abbrev pub insert_sorted : ℕ → List ℕ → List ℕ
insert_sorted a [] = a ∷ []
insert_sorted a (x ∷ xs) =
    let rest = insert_sorted a xs in
    if a == x then x ∷ xs else if ltb a x then a ∷ x ∷ xs else x ∷ rest

pub In-insert_sorted : (a b : ℕ) (xs : List ℕ) → In a (insert_sorted b xs) ↔ ((a ≡ b) ⊎ In a xs)
In-insert_sorted a b [] = ground arith
In-insert_sorted a b (x ∷ xs) = ground (arith, In-insert_sorted a b xs)

abbrev pub any {ℓ} : {A : Type ℓ} → (A → Bool) → List A → Bool
any p [] = false
any p (x ∷ xs) = p x || any p xs

module _ {A : Type 0} (p : A → Bool) where
  pub any_find : (xs : List A) → any p xs ≡ true → (x : A) × In x xs × (p x ≡ true)
  any_find [] h = cc
  any_find (x ∷ xs) h = elim (Bool-cases (p x)) [
    | inl e ↦ (x, inl refl, e)
    | inr e ↦ let (y, m, q) = any_find xs (ground arith) in (y, inr m, q)
  ]

  pub any_of : (xs : List A) (x : A) → In x xs → p x ≡ true → any p xs ≡ true
  any_of [] x m q = elim m [ ]
  any_of (y ∷ xs) x (inl e) q = rw (← e, q)
  any_of (y ∷ xs) x (inr m) q = let ih = any_of xs x m q in ground arith

abbrev pub filter {ℓ} : {A : Type ℓ} → (A → Bool) → List A → List A
filter p [] = []
filter p (x ∷ xs) = let rest = filter p xs in if p x then x ∷ rest else rest

-- `insert` of each.
abbrev pub insert_all : List ℕ → List ℕ → List ℕ
insert_all set [] = set
insert_all set (x ∷ xs) = insert_all (insert x set) xs

pub In-insert_all : (x : ℕ) (set xs : List ℕ) → In x (insert_all set xs) ↔ (In x set ⊎ In x xs)
In-insert_all x set [] = (inl, λ c. elim c [ inl i ↦ i | inr i ↦ absurd i ])
In-insert_all x set (y ∷ ys) =
    let rest = In-insert_all x (insert y set) ys in
    let first = In-insert x y set in ground (arith, rest, first)
