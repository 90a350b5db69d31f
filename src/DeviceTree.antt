-- ===== src/DeviceTree.antt =====
-- device_tree/device_tree.c: the device tree in memory, and how it is built. A node is its `Node`
-- structure: the identity of its address, its properties from first to last, the list of its
-- children and its next sibling. A value is the bytes that its pointer and length span.
pub mod Count
pub mod Built
pub mod Finalize
pub mod Flatten
pub mod Kept
pub mod Rooted
pub mod Find
mod Tests
use xnu_uboot_arm.Base.{
  ℕ, zero, suc, ◌+◌, ◌-◌, ◌*◌, ◌/◌, ◌%◌, Bool, true, false, Option, none, some, List, [], ◌∷◌, ◌++◌,
  ◌==◌, if◌then◌else◌, codes, length, add32,
}

pub record Property : Type 0 where
  pub name : List ℕ
  pub value : List ℕ

pub data Node : Type 0 where
  null : Node
  node : (id : ℕ) → (properties : List Property) → (children next : Node) → Node

-- RoundToLong
abbrev pub round_to_long : ℕ → ℕ
round_to_long x = add32 x 3 / 4 * 4

-- kAllocSize
abbrev pub alloc_size : ℕ
alloc_size = 4096

-- The variables of the file. `DTInfo` is its three counts; the free lists are the numbers of their
-- elements; the lists of allocated blocks are the addresses of the blocks, each of which is recorded
-- by its first element. `next_id` is the identity of
-- the next node, and `heap` the state of the heap.
pub record DeviceTree (W : Type 0) : Type 0 where
  pub root : Node
  pub num_nodes : ℕ
  pub num_properties : ℕ
  pub total_property_size : ℕ
  pub free_nodes : ℕ
  pub alloced_nodes : List ℕ
  pub free_properties : ℕ
  pub alloced_properties : List ℕ
  pub next_id : ℕ
  pub heap : W

-- The C heap, and `kAllocSize / sizeof` of the two structures, which stand in a header that the
-- repository does not hold. `address` is the address of the block that was allocated last, `free_at`
-- frees the block at an address, and `keeps_link` tells whether a block that has just been freed
-- still holds the link to the next one; where it does not, the link is taken to be null.
pub record Heap (W : Type 0) : Type 0 where
  pub malloc : ℕ → W → Bool × W
  pub free : W → W
  pub address : W → ℕ
  pub free_at : ℕ → W → W
  pub keeps_link : ℕ → W → Bool
  pub nodes_per_block : ℕ
  pub properties_per_block : ℕ

-- `node->last_prop->next = prop`, for the node `id`.
unfoldable pub append_property : (id : ℕ) → Property → Node → Node
append_property id p null = null
append_property id p (node i ps children next) =
    node i (if i == id then ps ++ p ∷ [] else ps) (append_property id p children)
      (append_property id p next)

-- `node->next = parent->children; parent->children = node`, for the parent `id`.
unfoldable pub insert_child : (id child : ℕ) → Node → Node
insert_child id child null = null
insert_child id child (node i ps children next) =
    node i ps (if i == id then node child [] null children else insert_child id child children)
      (insert_child id child next)

module _ {W : Type 0} (h : Heap W) where
  -- A new block of properties, or of nodes, where the free list is empty: its first element records
  -- the block.
  unfoldable pub refill_properties : DeviceTree W → Bool × DeviceTree W
  refill_properties t =
      let (got, w) = h.malloc alloc_size t.heap in
      if t.free_properties == 0
      then if got
        then (
          true,
          record t {
            free_properties = h.properties_per_block - 1;
            alloced_properties = h.address w ∷ t.alloced_properties;
            heap = w;
          },
        )
        else (false, record t { heap = w })
      else (true, t)

  unfoldable pub refill_nodes : DeviceTree W → Bool × DeviceTree W
  refill_nodes t =
      let (got, w) = h.malloc alloc_size t.heap in
      if t.free_nodes == 0
      then if got
        then (
          true,
          record t {
            free_nodes = h.nodes_per_block - 1;
            alloced_nodes = h.address w ∷ t.alloced_nodes;
            heap = w;
          },
        )
        else (false, record t { heap = w })
      else (true, t)

  unfoldable pub add_property :
      (id : ℕ) → (name value : List ℕ) → DeviceTree W → Bool × DeviceTree W
  add_property id name value t =
      let (ready, t1) = refill_properties t in
      if ready
      then (
        true,
        record t1 {
          free_properties = t1.free_properties - 1;
          root = append_property id (record { name = name; value = value }) t1.root;
          num_properties = add32 t1.num_properties 1;
          total_property_size = add32 t1.total_property_size (round_to_long (length value));
        },
      )
      else (false, t1)

  -- The new node in its place, counted: the root, or the first child of its parent.
  unfoldable pub link_node : (parent : Option ℕ) → DeviceTree W → DeviceTree W
  link_node parent t = record t {
    free_nodes = t.free_nodes - 1;
    next_id = t.next_id + 1;
    root = elim parent [
      | none ↦ node t.next_id [] null null
      | some p ↦ insert_child p t.next_id t.root
    ];
    num_nodes = add32 t.num_nodes 1;
  }

  -- `if (name != NULL)`: the result of `DT__AddProperty` is not looked at.
  unfoldable pub name_node : (id : ℕ) → (name : Option (List ℕ)) → DeviceTree W → DeviceTree W
  name_node id none t = t
  name_node id (some name) t = (add_property id (codes "name") (name ++ 0 ∷ []) t).1

  unfoldable pub add_child :
      (parent : Option ℕ) → (name : Option (List ℕ)) → DeviceTree W → Option ℕ × DeviceTree W
  add_child parent name t =
      let (ready, t1) = refill_nodes t in
      if ready
      then (some t1.next_id, name_node t1.next_id name (link_node parent t1))
      else (none, t1)

  unfoldable pub initialize : DeviceTree W → DeviceTree W
  initialize t =
      let (got, t1) = add_child none (some (codes "/")) (record t {
        free_nodes = 0;
        alloced_nodes = [];
        free_properties = 0;
        alloced_properties = [];
        num_nodes = 0;
        num_properties = 0;
        total_property_size = 0;
      }) in
      elim got [ none ↦ record t1 { root = null } | some id ↦ t1 ]

  -- One `free` for each element of a list that is torn down.
  unfoldable pub free_blocks : (count : ℕ) → W → W
  free_blocks zero w = w
  free_blocks (suc n) w = free_blocks n (h.free w)

  -- A walk over the recording elements, which lie in the blocks that they record: the link is read
  -- after the block is freed.
  unfoldable pub free_recorded : (blocks : List ℕ) → W → W
  free_recorded [] w = w
  free_recorded (block ∷ blocks) w =
      let freed = h.free_at block w in
      let rest = free_recorded blocks freed in if h.keeps_link block freed then rest else freed

  -- A recording property has a null name, and its value is the block; a recording node has the block
  -- for its children.
  unfoldable pub finalize : DeviceTree W → DeviceTree W
  unfolding free_recorded
  finalize t = record t {
    heap = free_recorded t.alloced_nodes (free_recorded t.alloced_properties t.heap);
    root = null;
    free_nodes = 0;
    alloced_nodes = [];
    free_properties = 0;
    alloced_properties = [];
    num_nodes = 0;
    num_properties = 0;
    total_property_size = 0;
  }

-- `DT__RootNode`
unfoldable pub root_node : {W : Type 0} → DeviceTree W → Option ℕ
root_node t = elim t.root [ null ↦ none | node id ps children next ↦ some id ]
