-- ===== src/TaskGraph/AliasTable/Aliases.antt =====
-- The alias sets of the elements: `fuseAliased`, `addAliasReference`, `addAliasPtr`,
-- `removeDependencyPtr` and `replaceAliasedToElement` (AliasTable.cpp). The elements stand in a store.
use apac.Prelude.{ℕ, ◌≡◌, refl, ◌≢◌, ◌↔◌, ◌⊎◌, ◌∙◌, sym, ap, inl, inr, Option, none, some}
use apac.Prelude.{
  List, [], ◌∷◌, foldl, ◌==◌, ==_iff, ==-ne, ==-self, if◌then◌else◌, insert, erase, In, In-insert,
}
use apac.Prelude.{Bool-cases, Option-cases, arith, some_inj, none≢some, if_true, if_false}
use mathlib.Core.Path.{subst}
use apac.Prelude.Maps.{update}
use apac.TaskGraph.AliasArg.{AliasArg}
use apac.TaskGraph.AliasTable.{AliasTableMap, get_alias_arg}

abbrev pub Store : Type 0
Store = ℕ → AliasArg

abbrev pub insert_pointer : ℕ → ℕ → Store → Store
insert_pointer var ptr s = update s var (record (s var) { pointers = insert ptr (s var).pointers })

abbrev pub insert_reference : ℕ → ℕ → Store → Store
insert_reference var ref s =
    update s var (record (s var) { references = insert ref (s var).references })

abbrev pub insert_aliased : ℕ → ℕ → Store → Store
insert_aliased ptr var s = update s ptr (record (s ptr) { aliased = insert var (s ptr).aliased })

-- A null pointer changes nothing.
unfoldable pub add_alias_reference : Option ℕ → Option ℕ → Store → Store
add_alias_reference (some var) (some ref) s = insert_aliased ref var (insert_reference var ref s)
add_alias_reference _ _ s = s

unfoldable pub add_alias_ptr : Option ℕ → Option ℕ → Store → Store
add_alias_ptr (some var) (some ptr) s = insert_aliased ptr var (insert_pointer var ptr s)
add_alias_ptr _ _ s = s

-- The loops over `aliased`.
abbrev pub alias_to : ℕ → Store → ℕ → Store
alias_to ptr s var = insert_pointer var ptr (insert_aliased ptr var s)

-- The parameters in the order of the definition.
unfoldable pub fuse_aliased : Option ℕ → Option ℕ → Store → Store
fuse_aliased (some source) (some dest) s =
    if dest == source then s else foldl (alias_to dest) s (s source).aliased
fuse_aliased _ _ s = s

-- `getAliasArg` of the variable of each element; a null pointer is dereferenced.
abbrev pub erase_pointers : AliasTableMap → ℕ → List ℕ → Store → Option Store
erase_pointers table ptr [] s = some s
erase_pointers table ptr (e ∷ es) s = elim (get_alias_arg table (s e).declaration [] "") [
  | none ↦ none
  | some base ↦
      erase_pointers table ptr es
        (update s base (record (s base) { pointers = erase ptr (s base).pointers }))
]

unfoldable pub remove_dependency_ptr : AliasTableMap → Option ℕ → Store → Option Store
remove_dependency_ptr table none s = some s
remove_dependency_ptr table (some ptr) s = elim (erase_pointers table ptr (s ptr).aliased s) [
  | none ↦ none
  | some s' ↦ some (update s' ptr (record (s' ptr) { aliased = [] }))
]

unfoldable pub replace_aliased_to_element : AliasTableMap → ℕ → ℕ → Store → Option Store
replace_aliased_to_element table to_add target s =
    if to_add == target then some s else (elim (remove_dependency_ptr table (some target) s) [
      | none ↦ none
      | some s' ↦ some (foldl (alias_to target) s' (s' to_add).aliased)
    ])

-- An element that aliases another is known there, as a pointer or as a reference.
abbrev pub IsBacked : Store → Type 0
IsBacked s = (p x : ℕ) → In x (s p).aliased → In p (s x).pointers ⊎ In p (s x).references

unchanged :
    {B : Type 0} (f : AliasArg → B) (s : Store) (n k : ℕ) (elem : AliasArg)
    → f elem ≡ f (s n)
    → f (update s n elem k) ≡ f (s k)
unchanged f s n k elem same = elim (Bool-cases (k == n)) [
  | inl e ↦ ap f (if_true _ _ e) ∙ same ∙ ap (λ x. f (s x)) (sym ((==_iff k n).0 e))
  | inr e ↦ ap f (if_false _ _ e)
]

-- An element that is inserted into a set of one cell.
In-update :
    (f : AliasArg → List ℕ) (s : Store) (n k v x : ℕ) (elem : AliasArg)
    → f elem ≡ insert v (f (s n))
    → In x (f (update s n elem k)) ↔ (((k ≡ n) × (x ≡ v)) ⊎ In x (f (s k)))
In-update f s n k v x elem grown = elim (Bool-cases (k == n)) [
  | inl e ↦
      let same = (==_iff k n).0 e in
      let inserted = In-insert x v (f (s n)) in
      subst (λ (xs : List ℕ). In x xs ↔ (((k ≡ n) × (x ≡ v)) ⊎ In x (f (s k))))
        (sym (ap f (if_true _ _ e) ∙ grown))
        (subst (λ y. In x (insert v (f (s n))) ↔ (((k ≡ n) × (x ≡ v)) ⊎ In x (f (s y)))) (sym same)
          (ground (arith, inserted)))
  | inr e ↦
      subst (λ (xs : List ℕ). In x xs ↔ (((k ≡ n) × (x ≡ v)) ⊎ In x (f (s k))))
        (sym (ap f (if_false elem (s k) e))) (ground arith)
]

module _ (ptr : ℕ) where
  In-alias_to :
      (s : Store) (var k x : ℕ)
      → In x (alias_to ptr s var k).aliased ↔ (((k ≡ ptr) × (x ≡ var)) ⊎ In x (s k).aliased)
  In-alias_to s var k x =
      let s1 = insert_aliased ptr var s in
      subst (λ (xs : List ℕ). In x xs ↔ (((k ≡ ptr) × (x ≡ var)) ⊎ In x (s k).aliased))
        (sym (unchanged (λ a. a.aliased) s1 var k _ refl))
        (In-update (λ a. a.aliased) s ptr k var x _ refl)

  In-pointers :
      (s : Store) (var k x : ℕ)
      → In x (alias_to ptr s var k).pointers ↔ (((k ≡ var) × (x ≡ ptr)) ⊎ In x (s k).pointers)
  In-pointers s var k x =
      let s1 = insert_aliased ptr var s in
      subst
        (λ (xs : List ℕ).
          In x (alias_to ptr s var k).pointers ↔ (((k ≡ var) × (x ≡ ptr)) ⊎ In x xs))
        (unchanged (λ a. a.pointers) s ptr k _ refl)
        (In-update (λ a. a.pointers) s1 var k ptr x _ refl)

  references-alias_to :
      (s : Store) (var k : ℕ) → (alias_to ptr s var k).references ≡ (s k).references
  references-alias_to s var k =
      unchanged (λ a. a.references) (insert_aliased ptr var s) var k _ refl
      ∙ unchanged (λ a. a.references) s ptr k _ refl

  In-foldl-alias_to :
      (vars : List ℕ) (s : Store) (k x : ℕ)
      → In x (foldl (alias_to ptr) s vars k).aliased
        ↔ (((k ≡ ptr) × In x vars) ⊎ In x (s k).aliased)
  In-foldl-alias_to [] s k x = ground arith
  In-foldl-alias_to (v ∷ vars) s k x =
      let rest = In-foldl-alias_to vars (alias_to ptr s v) k x in
      let step = In-alias_to s v k x in ground (arith, rest, step)

  -- Each round keeps what is backed, and the loop does.
  alias_to-IsBacked : (s : Store) (var : ℕ) → IsBacked s → IsBacked (alias_to ptr s var)
  alias_to-IsBacked s var backed p x i =
      let from = In-alias_to s var p x in
      let to = In-pointers s var x p in
      elim (from.0 i) [
        | inl now ↦ inl (to.1 (inl (now.1, now.0)))
        | inr old ↦ elim (backed p x old) [
          | inl at_ptr ↦ inl (to.1 (inr at_ptr))
          | inr at_ref ↦ inr (subst (In p) (sym (references-alias_to s var x)) at_ref)
        ]
      ]

  foldl-IsBacked : (vars : List ℕ) (s : Store) → IsBacked s → IsBacked (foldl (alias_to ptr) s vars)
  foldl-IsBacked [] s backed = backed
  foldl-IsBacked (v ∷ vars) s backed =
      foldl-IsBacked vars (alias_to ptr s v) (alias_to-IsBacked s v backed)

-- If every element that aliases another is known there, as a pointer or as a reference, this is
-- still so after `fuseAliased`.
pub fuse_aliased-IsBacked :
    (source dest : Option ℕ) (s : Store) → IsBacked s → IsBacked (fuse_aliased source dest s)
unfolding fuse_aliased
fuse_aliased-IsBacked none dest s backed = backed
fuse_aliased-IsBacked (some source) none s backed = backed
fuse_aliased-IsBacked (some source) (some dest) s backed = elim (Bool-cases (dest == source)) [
  | inl e ↦ rw (e, fuse_aliased) backed
  | inr e ↦ rw (e, fuse_aliased) (foldl-IsBacked dest (s source).aliased s backed)
]

-- After `fuseAliased`, the second element aliases what it did and what the first does; what all
-- other elements alias stays.
pub In-fuse_aliased :
    (source dest : ℕ) (s : Store) (k x : ℕ)
    → In x (fuse_aliased (some source) (some dest) s k).aliased
      ↔ (((k ≡ dest) × In x (s source).aliased) ⊎ In x (s k).aliased)
unfolding fuse_aliased
In-fuse_aliased source dest s k x = elim (Bool-cases (dest == source)) [
  | inl e ↦
      let same = (==_iff dest source).0 e in
      rw (e, fuse_aliased)
        (
          inr,
          λ c. elim c [
            | inl new ↦ subst (λ y. In x (s y).aliased) (sym (new.0 ∙ same)) new.1
            | inr old ↦ old
          ],
        )
  | inr e ↦ rw (e, fuse_aliased) (In-foldl-alias_to dest (s source).aliased s k x)
]

-- If every element that aliases another is known there, as a pointer or as a reference, this is
-- still so after `addAliasPtr`.
pub add_alias_ptr-IsBacked :
    (var ptr : Option ℕ) (s : Store) → IsBacked s → IsBacked (add_alias_ptr var ptr s)
unfolding add_alias_ptr
add_alias_ptr-IsBacked none ptr s backed p x i = backed p x i
add_alias_ptr-IsBacked (some var) none s backed p x i = backed p x i
add_alias_ptr-IsBacked (some var) (some ptr) s backed p x i =
    let s1 = insert_pointer var ptr s in
    let from = In-update (λ a. a.aliased) s1 ptr p var x _ refl in
    let to = In-update (λ a. a.pointers) s var x ptr p _ refl in
    let same = unchanged (λ a. a.pointers) s1 ptr x _ refl in
    let same_refs =
      unchanged (λ a. a.references) s1 ptr x _ refl
      ∙ unchanged (λ a. a.references) s var x _ refl in
    let old_aliased = unchanged (λ a. a.aliased) s var p _ refl in
    elim (from.0 i) [
      | inl now ↦ inl (subst (In p) (sym same) (to.1 (inl (now.1, now.0))))
      | inr old ↦ elim (backed p x (subst (In x) old_aliased old)) [
        | inl at_ptr ↦ inl (subst (In p) (sym same) (to.1 (inr at_ptr)))
        | inr at_ref ↦ inr (subst (In p) (sym same_refs) at_ref)
      ]
    ]

aliased-erase_pointers :
    (table : AliasTableMap) (ptr : ℕ) (es : List ℕ) (s s' : Store)
    → erase_pointers table ptr es s ≡ some s'
    → (k : ℕ) → (s' k).aliased ≡ (s k).aliased
aliased-erase_pointers table ptr [] s s' e k = ap (λ x. (x k).aliased) (sym (some_inj e))
aliased-erase_pointers table ptr (v ∷ es) s s' e k =
    elim (Option-cases (get_alias_arg table (s v).declaration [] "")) [
      | inl q ↦ absurd (none≢some (rw (q, erase_pointers) at e))
      | inr (base, q) ↦
          aliased-erase_pointers table ptr es _ s' (rw (q, erase_pointers) at e) k
          ∙ unchanged (λ a. a.aliased) s base k _ refl
    ]

-- If `replaceAliasedToElement` dereferences no null pointer, and its two elements differ, then the
-- second aliases afterwards what the first did, and nothing else.
pub In-replace_aliased_to_element :
    (table : AliasTableMap) (to_add target : ℕ) (s s' : Store) (x : ℕ)
    → to_add ≢ target
    → replace_aliased_to_element table to_add target s ≡ some s'
    → In x (s' target).aliased ↔ In x (s to_add).aliased
unfolding replace_aliased_to_element remove_dependency_ptr
In-replace_aliased_to_element table to_add target s s' x ne e =
    elim (Option-cases (erase_pointers table target (s target).aliased s)) [
      | inl q ↦ absurd (
          none≢some (
            rw (==-ne to_add target ne, q, replace_aliased_to_element, remove_dependency_ptr) at e))
      | inr (s1, q) ↦
          let s2 : Store = update s1 target (record (s1 target) { aliased = [] }) in
          let result : foldl (alias_to target) s2 (s2 to_add).aliased ≡ s' = some_inj (
            rw (==-ne to_add target ne, q, replace_aliased_to_element, remove_dependency_ptr) at
              e) in
          let loop = In-foldl-alias_to target (s2 to_add).aliased s2 target x in
          let empty : (s2 target).aliased ≡ [] =
            ap (λ (a : AliasArg). a.aliased) (if_true _ _ (==-self target)) in
          let kept : (s2 to_add).aliased ≡ (s to_add).aliased =
            ap (λ (a : AliasArg). a.aliased) (if_false _ _ (==-ne to_add target ne))
            ∙ aliased-erase_pointers table target (s target).aliased s s1 q to_add in
          subst (λ (t : Store). In x (t target).aliased ↔ In x (s to_add).aliased) result
            (
              λ i. elim (loop.0 i) [
                | inl new ↦ subst (In x) kept new.1
                | inr old ↦ absurd (subst (In x) empty old)
              ],
              λ i. loop.1 (inl (refl, subst (In x) (sym kept) i)),
            )
    ]
