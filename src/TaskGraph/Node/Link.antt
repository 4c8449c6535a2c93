-- ===== src/TaskGraph/Node/Link.antt =====
-- The links that `Node::addLink` (Node.cpp) leaves, and the paths along them.
use apac.Prelude.{ℕ, ◌≡◌, ◌↔◌, ◌⊎◌, inl, inr, Bool, true, Option, none, some, List, ◌||◌, ◌&&◌}
use apac.Prelude.{arith, ◌==◌, In, In-insert, Option-cases}
use apac.Prelude.Maps.{lookup, has_key, put_sorted, has_key-put, has_key-lookup}
use apac.TaskGraph.Instruction.{NodeDependency, Dependencies}
use apac.TaskGraph.Node.{Heap, add_link, set_link, add_prev, link_map}

-- `n` is a key of `next` of `m`.
abbrev pub Link : Heap → ℕ → ℕ → Type 0
Link h m n = has_key n (h m).next ≡ true

pub data Reaches (h : Heap) : ℕ → ℕ → Type 0 where
  one : {m n : ℕ} → Link h m n → Reaches h m n
  more : {m n k : ℕ} → Reaches h m n → Link h n k → Reaches h m k

pub Reaches-trans : {h : Heap} {m n k : ℕ} → Reaches h m n → Reaches h n k → Reaches h m k
Reaches-trans p (one l) = more p l
Reaches-trans p (more q l) = more (Reaches-trans p q) l

pub Reaches-mono :
    {h h' : Heap} {m n : ℕ}
    → ((i j : ℕ) → Link h i j → Link h' i j)
    → Reaches h m n
    → Reaches h' m n
Reaches-mono keep (one l) = one (keep _ _ l)
Reaches-mono keep (more p l) = more (Reaches-mono keep p) (keep _ _ l)

-- The keys of `next` after `next[n][arg] = d`: one more, at `this`.
has_key-set_link :
    (h : Heap) (this n arg : ℕ) (d : NodeDependency) (m k : ℕ)
    → has_key k (set_link h this n arg d m).next
      ≡ (((m == this) && (n == k)) || has_key k (h m).next)
unfolding set_link
has_key-set_link h this n arg d m k =
    ground (arith, has_key-put n k (put_sorted arg d (link_map n (h this).next)) (h this).next)

next-add_prev : (h : Heap) (n cur_n m : ℕ) → (add_prev h n cur_n m).next ≡ (h m).next
unfolding add_prev
next-add_prev h n cur_n m = ground arith

prev-set_link :
    (h : Heap) (this n arg : ℕ) (d : NodeDependency) (m : ℕ)
    → (set_link h this n arg d m).prev ≡ (h m).prev
unfolding set_link
prev-set_link h this n arg d m = ground arith

module _ (h : Heap) (this cur_n n : ℕ) (r w : Bool) where
  has_key-add_link :
      (arg m k : ℕ)
      → has_key k (add_link h this cur_n n r w (some arg) m).next
        ≡ (((m == this) && (n == k)) || has_key k (h m).next)
  unfolding add_link
  has_key-add_link arg m k = elim (Option-cases (lookup arg (link_map n (h this).next))) [
    | inl e ↦
        let d : NodeDependency = record { is_read = r; is_write = w } in
        rw (e, add_link)
          (rw (next-add_prev (set_link h this n arg d) n cur_n m)
            (has_key-set_link h this n arg d m k))
    | inr (d, e) ↦ rw (e, add_link) (has_key-set_link h this n arg _ m k)
  ]

  pub add_link-Link_new : (arg : ℕ) → Link (add_link h this cur_n n r w (some arg)) this n
  add_link-Link_new arg = ground (arith, has_key-add_link arg this n)

  pub add_link-Link :
      (arg : Option ℕ) (m k : ℕ)
      → Link (add_link h this cur_n n r w arg) m k
      → Link h m k ⊎ ((m ≡ this) × (k ≡ n))
  unfolding add_link
  add_link-Link none m k l = inl l
  add_link-Link (some arg) m k l = ground (arith, has_key-add_link arg m k)

  pub add_link-Link_keep :
      (arg : Option ℕ) (m k : ℕ) → Link h m k → Link (add_link h this cur_n n r w arg) m k
  unfolding add_link
  add_link-Link_keep none m k l = l
  add_link-Link_keep (some arg) m k l = ground (arith, has_key-add_link arg m k)

-- `prev` holds the nodes that have a link to this one.
abbrev pub IsMirrored : Heap → Type 0
IsMirrored h = (m n : ℕ) → Link h m n ↔ In m (h n).prev

In-add_prev :
    (h : Heap) (n cur_n m k : ℕ)
    → In k (add_prev h n cur_n m).prev ↔ (((m ≡ n) × (k ≡ cur_n)) ⊎ In k (h m).prev)
unfolding add_prev
In-add_prev h n cur_n m k = ground (arith, In-insert k cur_n (h n).prev)

has_key-link_map :
    (arg n : ℕ) (next : List (ℕ × Dependencies)) (d : NodeDependency)
    → lookup arg (link_map n next) ≡ some d
    → has_key n next ≡ true
has_key-link_map arg n next d e = elim (Option-cases (lookup n next)) [
  | inl none_there ↦ ground arith
  | inr (m, there) ↦ has_key-lookup n next m there
]

-- The nodes in `prev` after a link.
prev-add_link :
    (h : Heap) (this n : ℕ) (r w : Bool) (arg m k : ℕ)
    → IsMirrored h
    → In k (add_link h this this n r w (some arg) m).prev
      ↔ (((m ≡ n) × (k ≡ this)) ⊎ In k (h m).prev)
unfolding add_link
prev-add_link h this n r w arg m k mirrored =
    elim (Option-cases (lookup arg (link_map n (h this).next))) [
      | inl e ↦
          let d : NodeDependency = record { is_read = r; is_write = w } in
          rw (e, add_link)
            (rw (← prev-set_link h this n arg d m)
              (In-add_prev (set_link h this n arg d) n this m k))
      | inr (d, e) ↦
          let old = (mirrored this n).0 (has_key-link_map arg n (h this).next d e) in
          rw (e, add_link)
            (rw (prev-set_link h this n arg _ m)
              (inr, λ c. elim c [ inl at ↦ rw (at.0, at.1) old | inr i ↦ i ]))
    ]

-- Where each node's `prev` holds the nodes with a link to it, and no other, `addLink` keeps this, if
-- the node that it is called on is also its first argument.
pub add_link-IsMirrored :
    (h : Heap) (this n : ℕ) (r w : Bool) (arg : Option ℕ)
    → IsMirrored h
    → IsMirrored (add_link h this this n r w arg)
unfolding add_link
add_link-IsMirrored h this n r w none mirrored m k = mirrored m k
add_link-IsMirrored h this n r w (some arg) mirrored m k = ground (
  arith,
  mirrored m k,
  has_key-add_link h this this n r w arg m k,
  prev-add_link h this n r w arg k m mirrored,
)
