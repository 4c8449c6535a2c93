-- ===== src/Core/Types/Depth.antt =====
-- What getPtrDepth and getPtrDepthAccess (core/common.cpp) return.
use apac.Prelude.{
  ℕ, zero, suc, ◌+◌, ◌<◌, ◌≡◌, ◌∙◌, sym, ap, ◌≢◌, ◌⊎◌, inl, inr, false, none, some, if◌then◌else◌,
}
use apac.Prelude.{arith, Bool-cases, Option-cases, some_inj, none≢some, ==-ne, ◌==◌}
use mathlib.Core.Path.{subst}
use apac.Prelude.Int.{ℤ, pos, negsuc, minus_one}
use apac.Core.Types.{
  Types, ptr_levels, get_ptr_depth, accessed_type, access_levels, access_depth, checked_depth,
  get_ptr_depth_access, desugared_value_type,
}

module _ (ty : Types) where
  -- A type of which this many pointers can be followed, each to another type.
  pub data PointsDown : ℕ → ℕ → Type 0 where
    value : {t : ℕ} → ty.pointee_type (ty.desugared_type t) ≡ none → PointsDown zero t
    pointer :
        {n t u : ℕ}
        → ty.pointee_type (ty.desugared_type t) ≡ some u
        → u ≢ t
        → PointsDown n u
        → PointsDown (suc n) t

  ptr_levels-PointsDown :
      (n t depth fuel : ℕ)
      → PointsDown n t
      → n < fuel
      → ptr_levels ty fuel depth t ≡ some (suc (depth + n))
  unfolding ptr_levels
  ptr_levels-PointsDown n t depth zero down enough = absurd (ground arith)
  ptr_levels-PointsDown zero t depth (suc fuel) (value e) enough =
      rw (e, ptr_levels) (ap some (omega arith))
  ptr_levels-PointsDown (suc n) t depth (suc fuel) (pointer {u} e other down) enough =
      rw (e, ptr_levels, ==-ne u t other)
        (ptr_levels-PointsDown n u (suc depth) fuel down (ground arith) ∙ ap some (omega arith))

  access_levels-bounded :
      (left returned qt1 qt2 n : ℕ)
      → access_levels ty left returned qt1 qt2 ≡ some n
      → (n ≡ 0) ⊎ (n < returned + left)
  unfolding access_levels
  access_levels-bounded zero returned qt1 qt2 n e = let same = some_inj e in inl (sym same)
  access_levels-bounded (suc left) returned qt1 qt2 n e =
      elim (Option-cases (accessed_type ty qt1)) [
        | inl q ↦ elim (Bool-cases (qt1 == qt2)) [
          | inl b ↦
              let same = some_inj (rw (q, b, access_levels) at e) in inr (rw same (omega arith))
          | inr b ↦ absurd (none≢some (rw (q, b, access_levels) at e))
        ]
        | inr (t, q) ↦ elim (Bool-cases (qt1 == qt2)) [
          | inl b ↦
              let same = some_inj (rw (q, b, access_levels) at e) in inr (rw same (omega arith))
          | inr b ↦
              let rest =
                access_levels-bounded left
                  (if ty.is_pointer_qual_type qt1 then suc returned else returned)
                  (ty.desugared_type t) (ty.desugared_type qt2) n (rw (q, b, access_levels) at e) in
              ground arith
        ]
      ]

  -- The depth of an access: -1 for an address, else how many pointers are followed.
  abbrev pub IsDepth : ℤ → Type 0
  IsDepth r = (r ≡ minus_one) ⊎ ((n : ℕ) × (r ≡ pos n) × (n < 10))

  access_depth-IsDepth : (qt1 qt2 : ℕ) (r : ℤ) → access_depth ty qt1 qt2 ≡ some r → IsDepth r
  access_depth-IsDepth qt1 qt2 r e = elim (Bool-cases (qt1 == qt2)) [
    | inl b ↦ inr (0, sym (some_inj (rw b at e)), omega arith)
    | inr b ↦ elim (Bool-cases (ty.pointer_to qt1 == qt2)) [
      | inl c ↦ inl (sym (some_inj (rw (b, c) at e)))
      | inr c ↦ elim (Option-cases (access_levels ty 10 0 qt1 qt2)) [
        | inl q ↦ absurd (none≢some (rw (b, c, q) at e))
        | inr (n, q) ↦
            let few = access_levels-bounded 10 0 qt1 qt2 n q in
            inr (n, sym (some_inj (rw (b, c, q) at e)), ground arith)
      ]
    ]
  ]

  checked_depth-same :
      (depth1 depth2 : ℕ) (d r : ℤ) → checked_depth ty depth1 depth2 d ≡ some r → d ≡ r
  checked_depth-same depth1 depth2 (pos n) r e = elim (Bool-cases (depth1 == depth2 + n)) [
    | inl b ↦ some_inj (rw b at e)
    | inr b ↦ absurd (none≢some (rw b at e))
  ]
  checked_depth-same depth1 depth2 (negsuc n) r e = elim (Bool-cases (depth1 + suc n == depth2)) [
    | inl b ↦ some_inj (rw b at e)
    | inr b ↦ absurd (none≢some (rw b at e))
  ]

  -- If getPtrDepthAccess returns, its result is -1 or less than 10.
  pub get_ptr_depth_access-IsDepth :
      (fuel qt1 qt2 : ℕ) (r : ℤ) → get_ptr_depth_access ty fuel qt1 qt2 ≡ some r → IsDepth r
  unfolding get_ptr_depth_access
  get_ptr_depth_access-IsDepth fuel qt1 qt2 r e = elim (Option-cases (get_ptr_depth ty fuel qt1)) [
    | inl q ↦ absurd (none≢some (rw (q, get_ptr_depth_access) at e))
    | inr (d1, q1) ↦ elim (Option-cases (get_ptr_depth ty fuel qt2)) [
      | inl q ↦ absurd (none≢some (rw (q1, q, get_ptr_depth_access) at e))
      | inr (d2, q2) ↦
          elim (Option-cases
            (access_depth ty (ty.desugared_type qt1) (desugared_value_type ty qt2))) [
              | inl q ↦ absurd (none≢some (rw (q1, q2, q, get_ptr_depth_access) at e))
              | inr (d, q) ↦
                  let same =
                    checked_depth-same d1 d2 d r (rw (q1, q2, q, get_ptr_depth_access) at e) in
                  subst IsDepth same
                    (access_depth-IsDepth (ty.desugared_type qt1) (desugared_value_type ty qt2) d q)
            ]
    ]
  ]

  -- getPtrDepth of a type that is no reference, and of which n pointers can be followed, each to
  -- another type, is n + 1, with more fuel than pointers.
  pub get_ptr_depth-PointsDown :
      (n t fuel : ℕ)
      → ty.is_reference_qual_type (some t) ≡ false
      → PointsDown n t
      → n < fuel
      → get_ptr_depth ty fuel t ≡ some (suc n)
  get_ptr_depth-PointsDown n t fuel no_reference down enough =
      rw no_reference (ptr_levels-PointsDown n t 0 fuel down enough ∙ ap some (omega arith))
