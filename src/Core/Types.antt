-- ===== src/Core/Types.antt =====
-- core/common.cpp: the loops over the type of an expression. The null type is `none`.
pub mod Const
pub mod Depth
use apac.Prelude.{
  ℕ, zero, suc, ◌+◌, ◌-◌, Bool, true, false, not, ◌&&◌, ◌||◌, Option, none, some, List,
  if◌then◌else◌, ◌==◌,
}
use apac.Prelude.Int.{ℤ, pos, negsuc, minus_one}

-- What the source asks of a type.
pub record Types : Type 0 where
  -- `isConstQualified`, which asserts that the type is not null
  pub is_const_qualified : ℕ → Bool
  pub is_reference_qual_type : Option ℕ → Bool
  -- `getPointeeType`, and `getNonReferenceType`
  pub pointee_type : ℕ → Option ℕ
  pub non_reference_type : ℕ → ℕ
  -- `getNonReferenceQualType` of common.cpp, and `getSingleStepDesugaredType`
  pub non_reference_qual_type : ℕ → ℕ
  pub desugared_type : ℕ → ℕ
  -- `isPointerQualType`, `isArrayType`, the element type, and `getPointerToQType`
  pub is_pointer_qual_type : ℕ → Bool
  pub is_array_type : ℕ → Bool
  pub element_type : ℕ → Option ℕ
  pub pointer_to : ℕ → ℕ

abbrev pub is_non_null : Option ℕ → Bool
is_non_null none = false
is_non_null (some t) = true

module _ (ty : Types) where
  -- The loop, which asks `isConstQualified` also of the null type: this fails and has no result. `none`
  -- is out of fuel too.
  unfoldable pub const_levels : ℕ → Option ℕ → Option Bool
  const_levels zero qt = none
  const_levels (suc fuel) none = none
  const_levels (suc fuel) (some t) =
      let rest = const_levels fuel (ty.pointee_type t) in
      if ty.is_const_qualified t then rest else some false

  -- The type without its reference.
  abbrev pub without_reference : ℕ → ℕ
  without_reference t = if ty.is_reference_qual_type (some t) then ty.non_reference_type t else t

  abbrev pub is_full_const_type : ℕ → ℕ → Option Bool
  is_full_const_type fuel t = const_levels fuel (some (without_reference t))

  abbrev pub same_type : Option ℕ → Option ℕ → Bool
  same_type none none = true
  same_type (some t) (some u) = t == u
  same_type _ _ = false

  -- The loop of getPtrDepth: each round takes the pointee of a type that is not null, and the loop
  -- ends at the null type, or where the pointee is the type itself.
  unfoldable pub ptr_levels : ℕ → ℕ → ℕ → Option ℕ
  ptr_levels zero depth t = none
  ptr_levels (suc fuel) depth t = elim (ty.pointee_type (ty.desugared_type t)) [
    | none ↦ some (suc depth)
    | some pointee ↦
        let rest = ptr_levels fuel (suc depth) pointee in
        if pointee == t then some (suc depth) else rest
  ]

  abbrev pub get_ptr_depth : ℕ → ℕ → Option ℕ
  get_ptr_depth fuel t =
      ptr_levels fuel 0
        (if ty.is_reference_qual_type (some t) then ty.non_reference_qual_type t else t)

  -- What stands for qt1 after a round of getPtrDepthAccess, before it is desugared, and whether a
  -- pointer was followed.
  abbrev pub accessed_type : ℕ → Option ℕ
  accessed_type qt1 =
      if ty.is_pointer_qual_type qt1
      then ty.pointee_type qt1
      else if ty.is_reference_qual_type (some qt1)
      then some (ty.non_reference_qual_type qt1)
      else if ty.is_array_type qt1
      then ty.element_type qt1
      else some qt1

  -- The loop, with the number of rounds that are left of 10: its result is the depth. A null type that
  -- is desugared has no result.
  unfoldable pub access_levels : ℕ → ℕ → ℕ → ℕ → Option ℕ
  access_levels zero returned qt1 qt2 = some 0
  access_levels (suc left) returned qt1 qt2 = elim (accessed_type qt1) [
    | none ↦ if qt1 == qt2 then some returned else none
    | some t ↦
        let rest =
          access_levels left (if ty.is_pointer_qual_type qt1 then suc returned else returned)
            (ty.desugared_type t) (ty.desugared_type qt2) in
        if qt1 == qt2 then some returned else rest
  ]

  abbrev pub desugared_value_type : ℕ → ℕ
  desugared_value_type qt2 =
      let t = ty.desugared_type qt2 in
      if ty.is_reference_qual_type (some t) then ty.non_reference_qual_type t else t

  -- The depth before the assertion.
  abbrev pub access_depth : ℕ → ℕ → Option ℤ
  access_depth qt1 qt2 =
      let levels = access_levels 10 0 qt1 qt2 in
      if qt1 == qt2
      then some (pos 0)
      else if ty.pointer_to qt1 == qt2
      then some minus_one
      else elim levels [ none ↦ none | some n ↦ some (pos n) ]

  -- `assert(returnValue == depResult)`
  abbrev pub checked_depth : ℕ → ℕ → ℤ → Option ℤ
  checked_depth depth1 depth2 (pos n) = if depth1 == depth2 + n then some (pos n) else none
  checked_depth depth1 depth2 (negsuc n) =
      if depth1 + suc n == depth2 then some (negsuc n) else none

  -- Out of fuel, a failed assertion and a null type have no result.
  unfoldable pub get_ptr_depth_access : ℕ → ℕ → ℕ → Option ℤ
  get_ptr_depth_access fuel qt1 qt2 = elim (get_ptr_depth fuel qt1) [
    | none ↦ none
    | some depth1 ↦ elim (get_ptr_depth fuel qt2) [
      | none ↦ none
      | some depth2 ↦ elim (access_depth (ty.desugared_type qt1) (desugared_value_type qt2)) [
        | none ↦ none
        | some returned ↦ checked_depth depth1 depth2 returned
      ]
    ]
  ]
