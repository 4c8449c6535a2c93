-- ===== src/Core/Types/Const.antt =====
-- What isFullConstType (core/common.cpp) returns.
use apac.Prelude.{ℕ, zero, suc, ◌<◌, ◌≡◌, refl, ◌≢◌, ◌↔◌, inl, inr, Bool, true, false, none, some}
use apac.Prelude.{arith, Bool-cases, Option-cases, some_inj, none≢some, Returns, sym, ◌∙◌}
use mathlib.Core.Bool.{true≢false}
use apac.Core.Types.{Types, const_levels, without_reference, is_full_const_type}

module _ (ty : Types) where
  -- The type this many pointees below is the first that is not const.
  pub data NonConstAt : ℕ → ℕ → Type 0 where
    here : {t : ℕ} → ty.is_const_qualified t ≡ false → NonConstAt zero t
    pointee :
        {n t u : ℕ}
        → ty.is_const_qualified t ≡ true
        → ty.pointee_type t ≡ some u
        → NonConstAt n u
        → NonConstAt (suc n) t

  -- The type and its pointees are const, down to one that is no pointer.
  pub data IsConstThroughout : ℕ → Type 0 where
    value :
        {t : ℕ} → ty.is_const_qualified t ≡ true → ty.pointee_type t ≡ none → IsConstThroughout t
    pointer :
        {t u : ℕ}
        → ty.is_const_qualified t ≡ true
        → ty.pointee_type t ≡ some u
        → IsConstThroughout u
        → IsConstThroughout t

  pub const_levels-NonConstAt :
      (n t fuel : ℕ) → NonConstAt n t → n < fuel → const_levels ty fuel (some t) ≡ some false
  unfolding const_levels
  const_levels-NonConstAt n t zero at enough = absurd (ground arith)
  const_levels-NonConstAt zero t (suc fuel) (here e) enough = rw (e, const_levels) refl
  const_levels-NonConstAt (suc n) t (suc fuel) (pointee {u} e p at) enough =
      rw (e, p, const_levels) (const_levels-NonConstAt n u fuel at (omega arith))

  const_levels-found :
      (fuel t : ℕ) (b : Bool)
      → const_levels ty fuel (some t) ≡ some b
      → (b ≡ false) × ((n : ℕ) × (n < fuel) × NonConstAt n t)
  unfolding const_levels
  const_levels-found zero t b e = absurd (none≢some e)
  const_levels-found (suc fuel) t b e = elim (Bool-cases (ty.is_const_qualified t)) [
    | inr c ↦ (sym (some_inj (rw (c, const_levels) at e)), (0, omega arith, here c))
    | inl c ↦ elim (Option-cases (ty.pointee_type t)) [
      | inl p ↦ absurd (none≢some (at_null fuel ∙ (rw (c, p, const_levels) at e)))
      | inr (u, p) ↦
          let (is_false, (n, few, at)) =
            const_levels-found fuel u b (rw (c, p, const_levels) at e) in
          (is_false, (suc n, omega arith, pointee c p at))
    ]
  ]
    where
      at_null : (fuel : ℕ) → none ≡ const_levels ty fuel none
      at_null zero = refl
      at_null (suc fuel) = refl

  const_levels-IsConstThroughout :
      (fuel t : ℕ) → IsConstThroughout t → const_levels ty fuel (some t) ≡ none
  unfolding const_levels
  const_levels-IsConstThroughout zero t all = refl
  const_levels-IsConstThroughout (suc zero) t (value e p) = rw (e, const_levels) refl
  const_levels-IsConstThroughout (suc (suc fuel)) t (value e p) = rw (e, p, const_levels) refl
  const_levels-IsConstThroughout (suc fuel) t (pointer {u} e p all) =
      rw (e, p, const_levels) (const_levels-IsConstThroughout fuel u all)

  -- isFullConstType never returns true. It returns false within so many rounds exactly if, of the type
  -- (or what it refers to, for a reference) and its pointees, one is not const, and the first that is
  -- not stands fewer pointees below. If these are const down to one that is no pointer, it has no
  -- result, as it asks for the constness of the null type.
  pub is_full_const_type-NonConstAt :
      (fuel t : ℕ)
      → (is_full_const_type ty fuel t ≢ some true)
        × ((is_full_const_type ty fuel t ≡ some false)
            ↔ ((n : ℕ) × (n < fuel) × NonConstAt n (without_reference ty t)))
        × (¬ (IsConstThroughout (without_reference ty t) × Returns (is_full_const_type ty fuel t)))
  is_full_const_type-NonConstAt fuel t =
      let u = without_reference ty t in
      (
        λ e. true≢false (const_levels-found fuel u true e).0,
        (
          λ e. (const_levels-found fuel u false e).1,
          λ (n, few, at). const_levels-NonConstAt n u fuel at few,
        ),
        λ (all, r). none≢some (sym (const_levels-IsConstThroughout fuel u all) ∙ r.1),
      )
