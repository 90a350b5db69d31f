-- ===== src/DeviceTree/Find/Tests.antt =====
-- Lookups in a tree of three nodes, and the theorem at one.
use xnu_uboot_arm.Base.{
  ℕ, ◌+◌, ◌≡◌, refl, true, false, Option, none, some, List, [], ◌∷◌, ◌++◌, codes, strcmp_eq, arith,
}
use xnu_uboot_arm.DeviceTree.{
  Property, null, node, Heap, DeviceTree, append_property, insert_child, refill_properties,
  refill_nodes, add_property, link_node, name_node, add_child,
}
use xnu_uboot_arm.DeviceTree.Find.{
  terminated, get_name, skip_slashes, take_name, find_child, Reached, reached, faulted, no_fuel,
  next_child, find_from, find_node,
}
use xnu_uboot_arm.DeviceTree.Find.Path.{components, parts, nonempty, prepend}
use xnu_uboot_arm.DeviceTree.Find.Walk.{descend, AllShort, Agrees, find_node-Agrees}

abbrev endless : Heap ℕ
endless = record {
  malloc = λ n w. (true, w + 1);
  free = λ w. w;
  address = λ w. w;
  free_at = λ p w. w;
  keeps_link = λ p w. true;
  nodes_per_block = 204;
  properties_per_block = 256;
}

abbrev named : List ℕ → List Property
named name = record { name = codes "name"; value = name ++ 0 ∷ [] } ∷ []

abbrev tree : DeviceTree ℕ
tree = record {
  root =
      node 0 (named (codes "/"))
        (node 1 (named (codes "cpus")) (node 2 (named (codes "cpu0")) null null) null) null;
  num_nodes = 3;
  num_properties = 3;
  total_property_size = 20;
  free_nodes = 9;
  alloced_nodes = 8192 ∷ [];
  free_properties = 9;
  alloced_properties = 4096 ∷ [];
  next_id = 3;
  heap = 2;
}

abbrev node_of : Reached ℕ → Option ℕ
node_of (reached id t) = id
node_of faulted = none
node_of no_fuel = none

finds : node_of (find_node endless 32 false (codes "/cpus//cpu0/") tree) ≡ some 2
unfolding find_node find_from next_child take_name skip_slashes find_child get_name strcmp_eq
    terminated
finds = refl

-- A name that is longer than the buffer is cut, and its rest is looked for one level below.
cuts : node_of (find_node endless 5 false (codes "/cpuscpu0") tree) ≡ some 2
unfolding find_node find_from next_child take_name skip_slashes find_child get_name strcmp_eq
    terminated
cuts = refl

creates : node_of (find_node endless 32 true (codes "/cpus/cpu1") tree) ≡ some 3
unfolding find_node find_from next_child take_name skip_slashes find_child get_name strcmp_eq
    terminated append_property insert_child refill_properties refill_nodes add_property link_node
    name_node add_child
creates = refl

short : AllShort 31 (components (codes "/cpus//cpu0/"))
unfolding AllShort parts nonempty prepend
short = (omega arith, (omega arith, tt))

find_node-Agrees_example :
    Agrees endless 32 false tree
      (descend
        (components (codes "/cpus//cpu0/"))
        0
        (node 1 (named (codes "cpus")) (node 2 (named (codes "cpu0")) null null) null))
      (find_node endless 32 false (codes "/cpus//cpu0/") tree)
find_node-Agrees_example =
    find_node-Agrees endless 32 false tree (codes "/cpus//cpu0/") 0 (named (codes "/"))
      (node 1 (named (codes "cpus")) (node 2 (named (codes "cpu0")) null null) null) null refl short
