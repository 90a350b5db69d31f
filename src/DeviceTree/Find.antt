-- ===== src/DeviceTree/Find.antt =====
-- `DT__GetName` and `DT__FindNode`, device_tree/device_tree.c: a node by its path.
pub mod Path
pub mod Walk
mod Tests
use xnu_uboot_arm.Base.{
  ℕ, zero, suc, ◌+◌, ◌-◌, Bool, true, false, Option, none, some, List, [], ◌∷◌, ◌==◌, if◌then◌else◌,
  codes, strcmp_eq, length,
}
use xnu_uboot_arm.DeviceTree.{Property, Node, null, node, Heap, DeviceTree, add_child}

-- A value as a C string: none where the value holds no NUL, and the read would go on behind it.
unfoldable pub terminated : List ℕ → Option (List ℕ)
terminated [] = none
terminated (b ∷ bs) =
    let rest = terminated bs in
    if b == 0 then some [] else elim rest [ none ↦ none | some s ↦ some (b ∷ s) ]

unfoldable pub get_name : List Property → Option (List ℕ)
get_name [] = some (codes "(null)")
get_name (p ∷ ps) =
    let rest = get_name ps in if strcmp_eq p.name (codes "name") then terminated p.value else rest

-- `while (*path == '/') path++`
unfoldable pub skip_slashes : List ℕ → List ℕ
skip_slashes [] = []
skip_slashes (c ∷ path) = let rest = skip_slashes path in if c == b'/' then rest else c ∷ path

-- The copy into `nameBuf` of at most `limit` characters, and the rest of the path.
unfoldable pub take_name : (limit : ℕ) → (path : List ℕ) → List ℕ × List ℕ
take_name zero path = ([], path)
take_name (suc n) [] = ([], [])
take_name (suc n) (c ∷ path) =
    let (name, rest) = take_name n path in if c == b'/' then ([], c ∷ path) else (c ∷ name, rest)

-- The first child of a name: its identity and its children.
pub data Child : Type 0 where
  child : (id : ℕ) (children : Node) → Child
  no_child unterminated : Child

unfoldable pub find_child : (name : List ℕ) → (children : Node) → Child
find_child name null = no_child
find_child name (node id ps children next) =
    let rest = find_child name next in
    elim (get_name ps) [
      | none ↦ unterminated
      | some s ↦ if strcmp_eq s name then child id children else rest
    ]

-- How `DT__FindNode` ends: with a node or none; at a null pointer or a name without end; or without
-- fuel.
pub data Reached (W : Type 0) : Type 0 where
  reached : Option ℕ → DeviceTree W → Reached W
  faulted no_fuel : Reached W

-- `max_entry_name` is kDTMaxEntryNameLength, of a header that the repository does not hold.
module _ {W : Type 0} (h : Heap W) (max_entry_name : ℕ) (create : Bool) where
  -- The body of the loop behind the copy of the name, at the node `id` with these children; the loop
  -- goes on with `again`. A node that is created has no children.
  unfoldable pub next_child :
      (again : List ℕ → ℕ → Node → DeviceTree W → Reached W)
      → (name rest : List ℕ) → (id : ℕ) → (children : Node) → DeviceTree W
      → Reached W
  next_child again [] rest id children t = reached (some id) t
  next_child again (c ∷ cs) rest id children t = elim (find_child (c ∷ cs) children) [
    | unterminated ↦ faulted
    | child i below ↦ again rest i below t
    | no_child ↦ elim create [
      | false ↦ reached none t
      | true ↦
          let (got, w) = h.malloc (length cs + 2) t.heap in
          let (made, t1) = add_child h (some id) (some (c ∷ cs)) (record t { heap = w }) in
          elim got [
            | false ↦ faulted
            | true ↦ elim made [ none ↦ reached none t1 | some i ↦ again rest i null t1 ]
          ]
    ]
  ]

  unfoldable pub find_from :
      (fuel : ℕ) → (path : List ℕ) → (id : ℕ) → (children : Node) → DeviceTree W → Reached W
  find_from zero path id children t = no_fuel
  find_from (suc n) path id children t =
      let (name, rest) = take_name (max_entry_name - 1) (skip_slashes path) in
      next_child (find_from n) name rest id children t

  unfoldable pub find_node : (path : List ℕ) → DeviceTree W → Reached W
  find_node path t = elim t.root [
    | null ↦ reached none t
    | node id ps children next ↦ find_from (length path + 1) path id children t
  ]
