-- ===== src/TaskGraph/StmtOrder.antt =====
-- transforms/TaskGraph: InstructionsOrderManager.hpp and InstructionsOrderManager.cpp. The groups of
-- statements that tasks are made of. The keys are clang statements, which are numbers. A `shared_ptr`
-- to an order is its number in a store of orders.
pub mod Groups
pub mod Moves
pub mod Queries
mod Tests
use apac.Prelude.{ℕ, ◌+◌, Bool, true, false, ◌||◌, ◌&&◌, not, Option, none, some, List, [], ◌∷◌}
use apac.Prelude.{◌==◌, ltb, leb, if◌then◌else◌, foldl}
use apac.Prelude.Maps.{lookup, has_key, put, remove, SearchMap, assign}
use apac.TaskGraph.Instruction.{Clang, fields}
use apac.TaskGraph.Node.{Node, Heap}

-- `InstructionGroup`: a statement and its sub order, by where the statements begin.
abbrev pub Group : Type 0
Group = List (ℕ × Option ℕ)

pub record StmtOrder : Type 0 where
  pub is_looped : Bool
  pub group_counter : ℕ
  pub instruction_links : SearchMap ℕ
  pub instruction_groups : SearchMap Group
  pub nodes_group : SearchMap ℕ

-- `StmtOrder()`
abbrev pub new_order : StmtOrder
new_order = record {
  is_looped = false;
  group_counter = 0;
  instruction_links = λ s. none;
  instruction_groups = λ g. none;
  nodes_group = λ g. none;
}

-- The orders that `make_shared` has made, and the number of the next.
pub record Orders : Type 0 where
  pub order_at : ℕ → StmtOrder
  pub next_order : ℕ

-- `std::map::insert` keeps what is there.
abbrev pub insert_new {ℓ} : {V : Type ℓ} → ℕ → V → SearchMap V → SearchMap V
insert_new k v m = elim (m k) [ none ↦ assign k v m | some _ ↦ m ]

-- The order that is made for a statement with a scope of its own.
abbrev pub sub_order : Clang → ℕ → Option StmtOrder
sub_order clang key =
    if clang.is_for_stmt key
    then some (record new_order { is_looped = true })
    else (if clang.is_if_stmt key || clang.is_compound_stmt key then some new_order else none)

abbrev pub make_shared : Option StmtOrder → Orders → Option ℕ × Orders
make_shared none orders = (none, orders)
make_shared (some o) orders = (
  some orders.next_order,
  record {
    order_at = λ k. if k == orders.next_order then o else orders.order_at k;
    next_order = orders.next_order + 1;
  },
)

module _ (clang : Clang) where
  -- `set::insert` with `SmallerBeginLocation`. The comparator is `<=`, so that no statement that is
  -- there counts as equal: the new one goes before the first that it is `<=` to.
  abbrev pub insert_statement : ℕ × Option ℕ → Group → Group
  insert_statement a [] = a ∷ []
  insert_statement a (b ∷ g) =
      let rest = insert_statement a g in
      if leb (clang.begin_loc a.0) (clang.begin_loc b.0) then a ∷ b ∷ g else b ∷ rest

  -- `instructionGroups.at(g).insert(a)`
  abbrev pub insert_in_group : ℕ → ℕ × Option ℕ → SearchMap Group → SearchMap Group
  insert_in_group g a m = elim (m g) [
    | none ↦ m
    | some group ↦ assign g (insert_statement a group) m
  ]

  unfoldable pub add_instruction_to_manager : ℕ → StmtOrder → Orders → StmtOrder × Orders
  add_instruction_to_manager key o orders =
      let (sub, orders') = make_shared (sub_order clang key) orders in
      (
        record o {
          instruction_links = insert_new key o.group_counter o.instruction_links;
          instruction_groups =
              insert_in_group o.group_counter (key, sub)
                (insert_new o.group_counter [] o.instruction_groups);
          group_counter = o.group_counter + 1;
        },
        orders',
      )

  -- The loop of `moveInstruction` over the group that is moved.
  abbrev pub move_group : Group → ℕ → StmtOrder → StmtOrder
  move_group [] to o = o
  move_group (a ∷ group) to o = move_group group to (record o {
    instruction_groups = insert_in_group to a o.instruction_groups;
    instruction_links = assign a.0 to o.instruction_links;
  })

  abbrev pub erase_group : ℕ → StmtOrder → StmtOrder
  erase_group g o = record o { instruction_groups = remove g o.instruction_groups }

  -- The rest of `moveInstruction`, once it is known which key is moved to the group of which.
  abbrev pub move_to_group_of : ℕ → ℕ → StmtOrder → StmtOrder
  move_to_group_of key new_key o = elim (o.instruction_links key) [
    | none ↦ o
    | some old ↦ elim (o.instruction_links new_key) [
      | none ↦ o
      | some new ↦ elim (o.instruction_groups old) [
        | none ↦ o
        | some group ↦ elim (o.instruction_groups new) [
          | none ↦ o
          | some _ ↦ erase_group old (move_group group new o)
        ]
      ]
    ]
  ]

  -- A null key changes nothing. The group of the key that begins later is kept. (The assertions that
  -- the keys have groups are followed by returns for builds without assertions: these are modelled.)
  unfoldable pub move_instruction : Option ℕ → Option ℕ → StmtOrder → StmtOrder
  move_instruction none key2 o = o
  move_instruction (some key1) none o = o
  move_instruction (some key1) (some key2) o =
      if ltb (clang.begin_loc key2) (clang.begin_loc key1)
      then move_to_group_of key2 key1 o
      else move_to_group_of key1 key2 o

  -- The statement that begins last.
  abbrev pub furthest : ℕ → List ℕ → ℕ
  furthest key [] = key
  furthest key (instr ∷ rest) =
      furthest (if ltb (clang.begin_loc key) (clang.begin_loc instr) then instr else key) rest

  abbrev pub fuse_into : ℕ → List ℕ → StmtOrder → StmtOrder
  fuse_into key [] o = o
  fuse_into key (instr ∷ rest) o =
      fuse_into key rest (if instr == key then o else move_instruction (some key) (some instr) o)

  unfoldable pub fuse_instructions : List ℕ → StmtOrder → StmtOrder
  fuse_instructions [] o = o
  fuse_instructions (s ∷ []) o = o
  fuse_instructions (s ∷ t ∷ vect) o = fuse_into (furthest s (s ∷ t ∷ vect)) (s ∷ t ∷ vect) o

-- A null node, or one without instructions, changes nothing.
unfoldable pub add_node_to_group : Heap → Option ℕ → StmtOrder → StmtOrder
add_node_to_group h none o = o
add_node_to_group h (some n) o = elim (h n).instruction_ptr [
  | [] ↦ o
  | i ∷ rest ↦ elim (o.instruction_links (fields i).statement) [
    | none ↦ o
    | some g ↦ record o { nodes_group = insert_new g n o.nodes_group }
  ]
]

-- `none` is a null pointer.
unfoldable pub get_sub_stmt_order : ℕ → StmtOrder → Option ℕ
get_sub_stmt_order key o = elim (o.instruction_links key) [
  | none ↦ none
  | some g ↦ elim (o.instruction_groups g) [
    | none ↦ none
    | some group ↦ elim (lookup key group) [ none ↦ none | some sub ↦ sub ]
  ]
]

unfoldable pub get_node : ℕ → StmtOrder → Option ℕ
get_node key o = elim (o.instruction_links key) [ none ↦ none | some g ↦ o.nodes_group g ]
