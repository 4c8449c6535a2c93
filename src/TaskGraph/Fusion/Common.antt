-- ===== src/TaskGraph/Fusion/Common.antt =====
-- What `hasCommonArrayElement` (Graph.cpp) computes.
use apac.Prelude.{ℕ, ◌≡◌, refl, ◌∙◌, sym, ap, Bool, true, false, ◌||◌, ◌&&◌, not}
use apac.Prelude.{List, [], ◌∷◌, foldl, any, if◌then◌else◌, ◌==◌, ==_iff, arith}
use mathlib.Core.Path.{subst}
use apac.Prelude.Int.{ℤ, int_eq_iff}
use apac.TaskGraph.AliasArg.{AliasArg, indexes_match}
use apac.TaskGraph.Instruction.{NodeDependency, Dependencies}
use apac.TaskGraph.Node.{Node}
use apac.TaskGraph.Fusion.{compare_element, compare_label, compare_link, has_common_array_element}

pub indexes_match_self : (is : List ℤ) → indexes_match is is ≡ true
unfolding indexes_match
indexes_match_self [] = refl
indexes_match_self (i ∷ is) =
    let same = (int_eq_iff i i).1 refl in let rest = indexes_match_self is in ground arith

-- The state where an equal element was found or not, and one with matching indexes.
abbrev state : Bool → Bool → Bool × Bool
state equal matching = (equal || not matching, matching)

or_false : (b : Bool) → (b || false) ≡ b
or_false true = refl
or_false false = refl

or_assoc : (a b c : Bool) → ((a || b) || c) ≡ (a || (b || c))
or_assoc true b c = refl
or_assoc false b c = refl

compare_lem :
    (same c e m : Bool)
    → (same ≡ true → c ≡ true)
    → (e ≡ true → m ≡ true)
    → (same || (if c && not m then false else (e || not m))) ≡ ((e || same) || not (m || c))
compare_lem same c e m same_c less = ground arith

module _ {A : Type 0} (p q : A → Bool) (implies : (x : A) → p x ≡ true → q x ≡ true) where
  any_implies : (xs : List A) → any p xs ≡ true → any q xs ≡ true
  any_implies [] e = e
  any_implies (x ∷ xs) e = ground (arith, any_implies xs, implies x)

  -- A loop whose steps record what the tests find.
  foldl-state :
      (f : Bool × Bool → A → Bool × Bool)
      → ((e m : Bool) (x : A)
          → (e ≡ true → m ≡ true)
          → f (state e m) x ≡ state (e || p x) (m || q x))
      → (xs : List A) (e m : Bool) → (e ≡ true → m ≡ true)
      → foldl f (state e m) xs ≡ state (e || any p xs) (m || any q xs)
  foldl-state f step [] e m less = λ i. state (sym (or_false e) i) (sym (or_false m) i)
  foldl-state f step (x ∷ xs) e m less =
      ap (λ s. foldl f s xs) (step e m x less)
      ∙ foldl-state f step xs (e || p x) (m || q x) (λ h. ground (arith, implies x))
      ∙ (λ i. state (or_assoc e (p x) (any p xs) i) (or_assoc m (q x) (any q xs) i))

module _ (args : ℕ → AliasArg) where
  abbrev pub matches : ℕ → ℕ → Bool
  matches a b = indexes_match (args a).indexes (args b).indexes

  equal-matches : (a b : ℕ) → (a == b) ≡ true → matches a b ≡ true
  equal-matches a b e =
      subst (λ x. matches a x ≡ true) ((==_iff a b).0 e) (indexes_match_self (args a).indexes)

  module _ (test : ℕ → ℕ → Bool) where
    abbrev pub any_element : Dependencies → ℕ → Bool
    any_element deps a = any (λ (d : ℕ × NodeDependency). test a d.0) deps

    abbrev pub any_label : Dependencies → Dependencies → Bool
    any_label deps labels = any (λ (l : ℕ × NodeDependency). any_element deps l.0) labels

    -- Some element of a link and some dependency pass the test.
    abbrev pub any_pair : Node → Bool
    any_pair n = any (λ (l : ℕ × Dependencies). any_label n.dependencies l.1) n.next

  abbrev pub equal : ℕ → ℕ → Bool
  equal a b = a == b

  compare_element-state :
      (a : ℕ) (e m : Bool) (d : ℕ × NodeDependency)
      → (e ≡ true → m ≡ true)
      → compare_element args a (state e m) d ≡ state (e || (a == d.0)) (m || matches a d.0)
  compare_element-state a e m d less =
      let result = compare_lem (a == d.0) (matches a d.0) e m (equal-matches a d.0) less in
      λ i. (result i, m || matches a d.0)

  compare_label-state :
      (deps : Dependencies) (e m : Bool) (label : ℕ × NodeDependency)
      → (e ≡ true → m ≡ true)
      → compare_label args deps (state e m) label
        ≡ state (e || any_element equal deps label.0) (m || any_element matches deps label.0)
  compare_label-state deps e m label =
      foldl-state (λ d. equal label.0 d.0) (λ d. matches label.0 d.0)
        (λ d. equal-matches label.0 d.0) (compare_element args label.0)
        (compare_element-state label.0) deps e m

  element-implies :
      (deps : Dependencies) (a : ℕ)
      → any_element equal deps a ≡ true
      → any_element matches deps a ≡ true
  element-implies deps a =
      any_implies (λ d. equal a d.0) (λ d. matches a d.0) (λ d. equal-matches a d.0) deps

  compare_link-state :
      (deps : Dependencies) (e m : Bool) (link : ℕ × Dependencies)
      → (e ≡ true → m ≡ true)
      → compare_link args deps (state e m) link
        ≡ state (e || any_label equal deps link.1) (m || any_label matches deps link.1)
  compare_link-state deps e m link =
      foldl-state (λ l. any_element equal deps l.0) (λ l. any_element matches deps l.0)
        (λ l. element-implies deps l.0) (compare_label args deps) (compare_label-state deps) link.1
        e m

  label-implies :
      (deps labels : Dependencies)
      → any_label equal deps labels ≡ true
      → any_label matches deps labels ≡ true
  label-implies deps =
      any_implies (λ l. any_element equal deps l.0) (λ l. any_element matches deps l.0)
        (λ l. element-implies deps l.0)

  -- `hasCommonArrayElement` is true exactly if some element of a link of the node is among its
  -- dependencies, or if no element of a link has indexes that match those of a dependency.
  pub has_common_array_element-any_pair :
      (n : Node) → has_common_array_element args n ≡ (any_pair equal n || not (any_pair matches n))
  unfolding has_common_array_element
  has_common_array_element-any_pair n =
      ap (λ s. s.0)
        (foldl-state (λ l. any_label equal n.dependencies l.1)
          (λ l. any_label matches n.dependencies l.1) (λ l. label-implies n.dependencies l.1)
          (compare_link args n.dependencies) (compare_link-state n.dependencies) n.next false false
          (λ e. e))
