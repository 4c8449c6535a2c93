-- ===== src/Prelude/Maps.antt =====
-- `std::map` and `std::unordered_map` as association lists, in their order of iteration.
use Prim.Native.Nat.{ℕ}
use mathlib.Core.Path.{◌≡◌, refl, sym}
use mathlib.Core.Logic.{◌↔◌, inl, inr}
use mathlib.Core.Bool.{Bool, true, false, not, ◌&&◌, ◌||◌}
use mathlib.Core.Option.{Option, none, some}
use mathlib.Core.List.{List, [], ◌∷◌}
use native.Mathlib.Omega.{arith}
use apac.Prelude.Tests.{◌==◌, ltb, if◌then◌else◌, ==_iff, Bool-cases}
use apac.Prelude.Lists.{In}

module _ {ℓ} {V : Type ℓ} where
  abbrev pub lookup : ℕ → List (ℕ × V) → Option V
  lookup k [] = none
  lookup k ((j, v) ∷ m) = if j == k then some v else lookup k m

  -- `count(k) != 0`
  abbrev pub has_key : ℕ → List (ℕ × V) → Bool
  has_key k [] = false
  has_key k ((j, v) ∷ m) = (j == k) || has_key k m

  -- `m[k] = v`: in place, or at the end if the key is new.
  abbrev pub put : ℕ → V → List (ℕ × V) → List (ℕ × V)
  put k v [] = (k, v) ∷ []
  put k v ((j, w) ∷ m) = let rest = put k v m in if j == k then (k, v) ∷ m else (j, w) ∷ rest

  abbrev pub keys : List (ℕ × V) → List ℕ
  keys [] = []
  keys ((j, v) ∷ m) = j ∷ keys m

  pub lookup-put :
      (k j : ℕ) (v : V) (m : List (ℕ × V))
      → lookup j (put k v m) ≡ (if k == j then some v else lookup j m)
  lookup-put k j v [] = refl
  lookup-put k j v ((i, w) ∷ m) =
      ground (arith, ==_iff k j, ==_iff i k, ==_iff i j, lookup-put k j v m)

  pub has_key-put :
      (k j : ℕ) (v : V) (m : List (ℕ × V)) → has_key j (put k v m) ≡ ((k == j) || has_key j m)
  has_key-put k j v [] = refl
  has_key-put k j v ((i, w) ∷ m) =
      ground (arith, ==_iff k j, ==_iff i k, ==_iff i j, has_key-put k j v m)

  pub has_key-lookup : (k : ℕ) (m : List (ℕ × V)) (v : V) → lookup k m ≡ some v → has_key k m ≡ true
  has_key-lookup k [] v h = cc
  has_key-lookup k ((j, w) ∷ m) v h = ground (arith, has_key-lookup k m v)

  pub has_key_iff : (k : ℕ) (m : List (ℕ × V)) → (has_key k m ≡ true) ↔ In k (keys m)
  has_key_iff k [] = (λ h. cc, λ h. elim h [ ])
  has_key_iff k ((j, v) ∷ m) = ground (arith, has_key_iff k m, ==_iff j k)

-- `erase(k)`
abbrev pub erase_key {ℓ} : {V : Type ℓ} → ℕ → List (ℕ × V) → List (ℕ × V)
erase_key k [] = []
erase_key k ((j, v) ∷ m) = let rest = erase_key k m in if j == k then rest else (j, v) ∷ rest

pub has_key-erase_key {ℓ} :
    {V : Type ℓ} (k j : ℕ) (m : List (ℕ × V))
    → has_key j (erase_key k m) ≡ (not (k == j) && has_key j m)
has_key-erase_key k j [] = ground arith
has_key-erase_key k j ((i, v) ∷ m) =
    ground (arith, ==_iff k j, ==_iff i k, ==_iff i j, has_key-erase_key k j m)

-- A map that is only searched, assigned and erased: a function.
abbrev pub SearchMap {ℓ} : Type ℓ → Type ℓ
SearchMap V = ℕ → Option V

module _ {ℓ} {V : Type ℓ} where
  abbrev pub assign : ℕ → V → SearchMap V → SearchMap V
  assign k v m j = if j == k then some v else m j

  abbrev pub remove : ℕ → SearchMap V → SearchMap V
  remove k m j = if j == k then none else m j

-- A heap cell is overwritten.
abbrev pub update {ℓ} : {A : Type ℓ} → (ℕ → A) → ℕ → A → ℕ → A
update h k v j = if j == k then v else h j

-- `m[k] = v` in a `std::map`, which is kept in the order of its keys.
module _ {ℓ} {V : Type ℓ} where
  abbrev pub put_sorted : ℕ → V → List (ℕ × V) → List (ℕ × V)
  put_sorted k v [] = (k, v) ∷ []
  put_sorted k v ((j, w) ∷ m) =
      let rest = put_sorted k v m in
      if k == j then (k, v) ∷ m else if ltb k j then (k, v) ∷ (j, w) ∷ m else (j, w) ∷ rest

  pub lookup-put_sorted :
      (k j : ℕ) (v : V) (m : List (ℕ × V))
      → lookup j (put_sorted k v m) ≡ (if k == j then some v else lookup j m)
  lookup-put_sorted k j v [] = refl
  lookup-put_sorted k j v ((i, w) ∷ m) = ground (arith, lookup-put_sorted k j v m)

module _ {V : Type 0} where
  pub In-lookup : (k : ℕ) (m : List (ℕ × V)) (v : V) → lookup k m ≡ some v → In (k, v) m
  In-lookup k [] v h = cc
  In-lookup k ((j, w) ∷ m) v h = elim (Bool-cases (j == k)) [
    | inl e ↦
        let same : k ≡ j = sym ((==_iff j k).0 e) in
        let value : v ≡ w = ground arith in inl (λ i. (same i, value i))
    | inr e ↦ inr (In-lookup k m v (ground arith))
  ]

  pub In-has_key : (k : ℕ) (m : List (ℕ × V)) (v : V) → In (k, v) m → has_key k m ≡ true
  In-has_key k [] v i = absurd i
  In-has_key k ((j, w) ∷ m) v (inl e) = let same : k ≡ j = (λ i. (e i).0) in ground arith
  In-has_key k ((j, w) ∷ m) v (inr i) = ground (arith, In-has_key k m v i)
