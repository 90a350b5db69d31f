-- ===== src/DeviceTree/Tests.antt =====
-- Runs of the device tree's operations, and their theorems at one.
use xnu_uboot_arm.Base.{
  ℕ, ◌+◌, ◌-◌, ◌<◌, ◌≡◌, refl, Bool, true, false, none, some, List, [], ◌∷◌, ◌++◌, ◌==◌,
  if◌then◌else◌, ltb, codes, length, word, Writes, arith,
}
use xnu_uboot_arm.DeviceTree.{
  null, node, DeviceTree, Heap, append_property, insert_child, refill_properties, refill_nodes,
  add_property, link_node, name_node, add_child, initialize, finalize, root_node,
}
use xnu_uboot_arm.DeviceTree.Count.{occurs, IsCounted}
use xnu_uboot_arm.DeviceTree.Built.{Built, initial, child, property, Built-IsCounted}
use xnu_uboot_arm.DeviceTree.Finalize.{count}
use xnu_uboot_arm.DeviceTree.Flatten.{flatten_device_tree}
use xnu_uboot_arm.DeviceTree.Flatten.Written.{
  IsFlatTree, bytes_of_property, bytes_of_properties, bytes_of,
}
use xnu_uboot_arm.DeviceTree.Flatten.Check.{can_be_flat-IsFlatTree}
use xnu_uboot_arm.DeviceTree.Flatten.Output.{flatten_device_tree-Writes}
use xnu_uboot_arm.DeviceTree.Flatten.Decode.{
  read_nodes, erase, NoNul, IsNamed, read_nodes-flatten_device_tree,
}

-- A heap of eight blocks, whose state is the number of blocks in use.
abbrev eight : Heap ℕ
eight = record {
  malloc = λ n w. if ltb w 8 then (true, w + 1) else (false, w);
  free = λ w. w - 1;
  address = λ w. w;
  free_at = λ p w. w - 1;
  keeps_link = λ p w. true;
  nodes_per_block = 204;
  properties_per_block = 256;
}

-- A heap that logs the addresses of the blocks that it hands out and takes back, the last one first.
abbrev last : List ℕ → ℕ
last [] = 0
last (a ∷ rest) = a

abbrev Log : Type 0
Log = List ℕ × List ℕ

abbrev logged : Heap Log
logged = record {
  malloc = λ n w. (true, ((last w.0 + 4096) ∷ w.0, w.1));
  free = λ w. w;
  address = λ w. last w.0;
  free_at = λ p w. (w.0, p ∷ w.1);
  keeps_link = λ p w. true;
  nodes_per_block = 204;
  properties_per_block = 256;
}

abbrev taken : Log → ℕ → ℕ
taken w a = count a w.0

abbrev given : Log → ℕ → ℕ
given w a = count a w.1

abbrev idle_on : {W : Type 0} → W → DeviceTree W
idle_on w = record {
  root = null;
  num_nodes = 7;
  num_properties = 7;
  total_property_size = 7;
  free_nodes = 3;
  alloced_nodes = 8192 ∷ 4096 ∷ [];
  free_properties = 3;
  alloced_properties = 4096 ∷ [];
  next_id = 5;
  heap = w;
}

abbrev idle : DeviceTree ℕ
idle = idle_on 0

abbrev fresh : DeviceTree ℕ
unfolding initialize add_child refill_nodes link_node name_node add_property refill_properties
    append_property insert_child
fresh = initialize eight idle

-- `/chosen` with the property `x`.
abbrev tree : DeviceTree ℕ
unfolding initialize add_child refill_nodes link_node name_node add_property refill_properties
    append_property insert_child
tree =
    (add_property eight 6 (codes "x") (1 ∷ 2 ∷ 3 ∷ [])
      (add_child eight (some 5) (some (codes "chosen")) fresh).1).1

tree_counts :
    (tree.num_nodes ∷ tree.num_properties ∷ tree.total_property_size ∷ tree.heap ∷ [])
    ≡ 2 ∷ 3 ∷ 16 ∷ 2 ∷ []
unfolding tree fresh
tree_counts = refl

tree_root :
    tree.root
    ≡ node 5
        (record { name = codes "name"; value = 47 ∷ 0 ∷ [] } ∷ [])
        (node 6
          (record { name = codes "name"; value = codes "chosen" ++ 0 ∷ [] }
            ∷ record { name = codes "x"; value = 1 ∷ 2 ∷ 3 ∷ [] }
            ∷ [])
          null
          null)
        null
unfolding tree fresh
tree_root = refl

no_memory : (add_child eight (some 5) none (record fresh { free_nodes = 0; heap = 8 })).0 ≡ none
unfolding add_child refill_nodes
no_memory = refl

tree_Built : Built eight tree
unfolding fresh tree occurs
tree_Built =
    property 6 (codes "x") (1 ∷ 2 ∷ 3 ∷ []) (child 5 (some (codes "chosen")) (initial idle) refl)
      refl

abbrev printing : List ℕ → Bool
printing [] = true
printing (b ∷ bs) = if b == 0 then false else printing bs

tree_IsFlat : IsFlatTree tree.root
unfolding fresh tree
tree_IsFlat = can_be_flat-IsFlatTree tree.root refl

no_nul : (bs : List ℕ) → printing bs ≡ true → NoNul bs
no_nul [] e = tt
no_nul (b ∷ bs) e = (λ z. ground (arith, e, z), no_nul bs (ground (arith, e)))

tree_IsNamed : IsNamed tree.root
unfolding fresh tree
tree_IsNamed = (
  (no_nul (codes "name") refl, tt),
  ((no_nul (codes "name") refl, (no_nul (codes "x") refl, tt)), tt, tt),
  tt,
)

tree_length : length (bytes_of tree.root) ≡ 140
unfolding fresh tree bytes_of bytes_of_properties bytes_of_property
tree_length = refl

tree_fits : length (bytes_of tree.root) < word
tree_fits = omega (arith, tree_length)

Built-IsCounted_example : IsCounted tree
Built-IsCounted_example = Built-IsCounted eight tree_Built

abbrev used : DeviceTree Log
used = idle_on (64 ∷ [], [])

abbrev logged_tree : DeviceTree Log
unfolding initialize add_child refill_nodes link_node name_node add_property refill_properties
    append_property insert_child
logged_tree =
    (add_property logged 6 (codes "x") (1 ∷ [])
      (add_child logged (some 5) (some (codes "chosen")) (initialize logged used)).1).1

-- One block of nodes and one of properties; the block at 64 was there before, and stays.
logged_blocks : (finalize logged logged_tree).heap ≡ (8256 ∷ 4160 ∷ 64 ∷ [], 4160 ∷ 8256 ∷ [])
unfolding logged_tree finalize
logged_blocks = refl

flatten_device_tree-Writes_example :
    let out = flatten_device_tree 0 (some 4096) tree (λ a. 7) in
    (out.0 ≡ length (bytes_of tree.root))
    × (out.1 ≡ some (if length (bytes_of tree.root) == 0 then 0 else 4096))
    × Writes 4096 (bytes_of tree.root) (λ a. 7) out.2
flatten_device_tree-Writes_example =
    flatten_device_tree-Writes (Built-IsCounted eight tree_Built) (unfold tree fresh in refl)
      tree_IsFlat tree_fits 0 4096 (λ a. 7)

read_nodes-flatten_device_tree_example :
    let out = flatten_device_tree 4096 (some 0) tree (λ a. 7) in
    read_nodes out.0 out.2 4096 1 ≡ (erase tree.root, 4096 + out.0)
read_nodes-flatten_device_tree_example =
    read_nodes-flatten_device_tree eight tree_Built tree_IsFlat tree_IsNamed tree_fits 5 4096 0
      (λ a. 7) (unfold root_node tree fresh in refl)
