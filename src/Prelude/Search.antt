-- ===== src/Prelude/Search.antt =====
-- The loop that visits what can be reached, with a stack of what is to be visited. Each round takes
-- one off the stack; the fuel counts the visits.
use Prim.Native.Nat.{ℕ, zero, suc, ◌≤◌, ◌<◌}
use mathlib.Core.Path.{◌≡◌, refl, sym, subst}
use mathlib.Core.Logic.{◌↔◌, ◌⊎◌, inl, inr}
use mathlib.Core.Bool.{true, false}
use mathlib.Core.Option.{Option, none, some}
use mathlib.Core.List.{List, [], ◌∷◌}
use native.Mathlib.Omega.{arith}
use apac.Prelude.Tests.{if◌then◌else◌, Bool-cases, some_inj, none≢some}
use apac.Prelude.Lists.{length, In, contains, contains_iff, insert, In-insert}

-- `push` of each: the last is on top.
abbrev pub push_all : List ℕ → List ℕ → List ℕ
push_all [] stack = stack
push_all (x ∷ xs) stack = push_all xs (x ∷ stack)

pub In-push_all : (x : ℕ) (xs stack : List ℕ) → In x (push_all xs stack) ↔ (In x xs ⊎ In x stack)
In-push_all x [] stack = (inr, λ c. elim c [ inl i ↦ absurd i | inr i ↦ i ])
In-push_all x (y ∷ xs) stack = let rest = In-push_all x xs (y ∷ stack) in ground (arith, rest)

module _ (next : ℕ → List ℕ) where
  -- `none` is out of fuel.
  unfoldable pub search : ℕ → List ℕ → List ℕ → Option (List ℕ)
  search fuel visited [] = some visited
  search zero visited (n ∷ stack) = elim (contains n visited) [
    | true ↦ search zero visited stack
    | false ↦ none
  ]
  search (suc fuel) visited (n ∷ stack) = elim (contains n visited) [
    | true ↦ search (suc fuel) visited stack
    | false ↦ search fuel (insert n visited) (push_all (next n) stack)
  ]

  -- An invariant of the rounds holds at the end.
  pub search-inv {ℓ} :
      (P : List ℕ → List ℕ → Type ℓ)
      → ((v : List ℕ) (n : ℕ) (stack : List ℕ) → contains n v ≡ true → P v (n ∷ stack) → P v stack)
      → ((v : List ℕ) (n : ℕ) (stack : List ℕ)
          → contains n v ≡ false
          → P v (n ∷ stack)
          → P (insert n v) (push_all (next n) stack))
      → (fuel : ℕ) (v stack r : List ℕ) → search fuel v stack ≡ some r
      → P v stack
      → P r []
  unfolding search
  search-inv P old new fuel v [] r e p = subst (λ x. P x []) (some_inj e) p
  search-inv P old new zero v (n ∷ stack) r e p = elim (Bool-cases (contains n v)) [
    | inl c ↦ search-inv P old new zero v stack r (rw (c, search) at e) (old v n stack c p)
    | inr c ↦ absurd (none≢some (rw (c, search) at e))
  ]
  search-inv P old new (suc fuel) v (n ∷ stack) r e p = elim (Bool-cases (contains n v)) [
    | inl c ↦ search-inv P old new (suc fuel) v stack r (rw (c, search) at e) (old v n stack c p)
    | inr c ↦
        search-inv P old new fuel (insert n v) (push_all (next n) stack) r (rw (c, search) at e)
          (new v n stack c p)
  ]

  -- What has a property that `next` keeps has it at the end.
  pub search-sound {ℓ} :
      (Q : ℕ → Type ℓ)
      → ((x y : ℕ) → Q x → In y (next x) → Q y)
      → (fuel : ℕ) (v stack r : List ℕ) → search fuel v stack ≡ some r
      → ((x : ℕ) → In x v ⊎ In x stack → Q x)
      → (x : ℕ) → In x r
      → Q x
  search-sound Q step fuel v stack r e base x i =
      search-inv (λ v st. (x : ℕ) → In x v ⊎ In x st → Q x)
        (λ v n st c p x i. p x (elim i [ inl a ↦ inl a | inr b ↦ inr (inr b) ]))
        (λ v n st c p x i. elim i [
          | inl a ↦ elim ((In-insert x n v).0 a) [
            | inl same ↦ p x (inr (inl same))
            | inr old ↦ p x (inl old)
          ]
          | inr b ↦ elim ((In-push_all x (next n) st).0 b) [
            | inl new ↦ step n x (p n (inr (inl refl))) new
            | inr old ↦ p x (inr (inr old))
          ]
        ])
        fuel v stack r e base x (inl i)

  -- What has been visited leads only to what has been visited or is on the stack.
  abbrev pub IsClosed : List ℕ → List ℕ → Type 0
  IsClosed v stack = (x y : ℕ) → In x v → In y (next x) → In y v ⊎ In y stack

  pub search-IsClosed :
      (fuel : ℕ) (v stack r : List ℕ)
      → search fuel v stack ≡ some r
      → IsClosed v stack
      → IsClosed r []
  search-IsClosed fuel v stack r e closed =
      search-inv IsClosed
        (λ v n st c p x y i j. elim (p x y i j) [
          | inl a ↦ inl a
          | inr b ↦ elim b [
            | inl same ↦ inl (rw same ((contains_iff n v).0 c))
            | inr later ↦ inr later
          ]
        ])
        (λ v n st c p x y i j. elim ((In-insert x n v).0 i) [
          | inl same ↦ inr ((In-push_all y (next n) st).1 (inl (subst (λ z. In y (next z)) same j)))
          | inr old ↦ elim (p x y old j) [
            | inl a ↦ inl ((In-insert y n v).1 (inr a))
            | inr b ↦ elim b [
              | inl same ↦ inl ((In-insert y n v).1 (inl same))
              | inr later ↦ inr ((In-push_all y (next n) st).1 (inr later))
            ]
          ]
        ])
        fuel v stack r e closed

  -- What was visited, or was on the stack, has been visited.
  pub search-keeps :
      (fuel : ℕ) (v stack r : List ℕ)
      → search fuel v stack ≡ some r
      → (x : ℕ) → In x v ⊎ In x stack
      → In x r
  search-keeps fuel v stack r e x i =
      elim (search-inv (λ v st. In x v ⊎ In x st)
        (λ v n st c p. elim p [
          | inl a ↦ inl a
          | inr b ↦ elim b [
            | inl same ↦ inl (rw same ((contains_iff n v).0 c))
            | inr later ↦ inr later
          ]
        ])
        (λ v n st c p. elim p [
          | inl a ↦ inl ((In-insert x n v).1 (inr a))
          | inr b ↦ elim b [
            | inl same ↦ inl ((In-insert x n v).1 (inl same))
            | inr later ↦ inr ((In-push_all x (next n) st).1 (inr later))
          ]
        ])
        fuel v stack r e i) [ inl a ↦ a | inr b ↦ absurd b ]

-- How many of the numbers have not been visited.
abbrev pub unvisited : List ℕ → List ℕ → ℕ
unvisited [] v = 0
unvisited (u ∷ us) v = let rest = unvisited us v in if contains u v then rest else suc rest

pub unvisited-insert_le : (us v : List ℕ) (n : ℕ) → unvisited us (insert n v) ≤ unvisited us v
unvisited-insert_le [] v n = ground arith
unvisited-insert_le (u ∷ us) v n =
    let rest = unvisited-insert_le us v n in
    let more = In-insert u n v in
    let old = contains_iff u v in
    let new = contains_iff u (insert n v) in ground (arith, rest, more, old, new)

pub unvisited-insert :
    (us v : List ℕ) (n : ℕ)
    → In n us
    → contains n v ≡ false
    → unvisited us (insert n v) < unvisited us v
unvisited-insert [] v n i c = absurd i
unvisited-insert (u ∷ us) v n (inl same) c =
    let rest = unvisited-insert_le us v n in
    let fresh : contains u v ≡ false = subst (λ z. contains z v ≡ false) same c in
    let now : contains u (insert n v) ≡ true =
      (contains_iff u (insert n v)).1 ((In-insert u n v).1 (inl (sym same))) in
    rw (fresh, now) (ground (arith, rest))
unvisited-insert (u ∷ us) v n (inr later) c =
    let rest = unvisited-insert us v n later c in
    let more = In-insert u n v in
    let old = contains_iff u v in
    let new = contains_iff u (insert n v) in ground (arith, rest, more, old, new)

-- Where all on the stack is among `us`, which `next` does not leave, as much fuel as `us` has
-- unvisited numbers is enough.
pub search-enough :
    (next : ℕ → List ℕ) (us : List ℕ)
    → ((x y : ℕ) → In x us → In y (next x) → In y us)
    → (fuel : ℕ) (v stack : List ℕ) → ((x : ℕ) → In x stack → In x us)
    → unvisited us v ≤ fuel
    → (r : List ℕ) × (search next fuel v stack ≡ some r)
unfolding search
search-enough next us closed fuel v [] inside enough = (v, refl)
search-enough next us closed zero v (n ∷ stack) inside enough = elim (Bool-cases (contains n v)) [
  | inl c ↦
      let rest = search-enough next us closed zero v stack (λ x i. inside x (inr i)) enough in
      (rest.0, rw (c, search) rest.1)
  | inr c ↦ let fewer = unvisited-insert us v n (inside n (inl refl)) c in absurd (ground arith)
]
search-enough next us closed (suc fuel) v (n ∷ stack) inside enough =
    elim (Bool-cases (contains n v)) [
      | inl c ↦
          let rest =
            search-enough next us closed (suc fuel) v stack (λ x i. inside x (inr i)) enough in
          (rest.0, rw (c, search) rest.1)
      | inr c ↦
          let fewer = unvisited-insert us v n (inside n (inl refl)) c in
          let rest =
            search-enough next us closed fuel (insert n v) (push_all (next n) stack)
              (λ x i. elim ((In-push_all x (next n) stack).0 i) [
                | inl new ↦ closed n x (inside n (inl refl)) new
                | inr old ↦ inside x (inr old)
              ])
              (ground arith) in
          (rest.0, rw (c, search) rest.1)
    ]

pub unvisited_le : (us v : List ℕ) → unvisited us v ≤ length us
unvisited_le [] v = ground arith
unvisited_le (u ∷ us) v = let rest = unvisited_le us v in ground arith
