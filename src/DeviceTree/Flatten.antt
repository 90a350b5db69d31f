-- ===== src/DeviceTree/Flatten.antt =====
-- The flat form of the device tree: `FlattenNodes` and `DT__FlattenDeviceTree`.
pub mod Written
pub mod Nodes
pub mod Output
pub mod Decode
pub mod Check
use xnu_uboot_arm.Base.{
  ℕ, ◌+◌, Option, none, some, List, [], ◌∷◌, ◌++◌, ◌==◌, if◌then◌else◌, length, add32, mul32, Ram,
  write32, bzero, write_bytes,
}
use xnu_uboot_arm.DeviceTree.{Property, Node, null, node, round_to_long, DeviceTree}

-- sizeof(DeviceTreeNode), sizeof(DeviceTreeNodeProperty) and kPropNameLength
abbrev pub sizeof_node : ℕ
sizeof_node = 8

abbrev pub sizeof_property : ℕ
sizeof_property = 36

abbrev pub prop_name_length : ℕ
prop_name_length = 32

-- `strcpy` of the name, the length, `bcopy` of the value.
unfoldable pub flatten_property : Property → Ram → (buffer : ℕ) → Ram
flatten_property p m buffer =
    let named = write_bytes m buffer (p.name ++ 0 ∷ []) in
    let measured = write32 named (buffer + prop_name_length) (length p.value) in
    write_bytes measured (buffer + sizeof_property) p.value

-- The loop over the properties: the memory, the end of what it has written, and `count`.
unfoldable pub flatten_properties : List Property → Ram → (buffer : ℕ) → Ram × ℕ × ℕ
flatten_properties [] m buffer = (m, buffer, 0)
flatten_properties (p ∷ ps) m buffer =
    let (m', end, count) =
      flatten_properties ps (flatten_property p m buffer)
        (buffer + sizeof_property + round_to_long (length p.value)) in
    (m', end, count + 1)

-- The loop over the children: `FlattenNodes` on each sibling from the given node on.
unfoldable pub flatten_nodes : Node → Ram → (buffer : ℕ) → Ram × ℕ × ℕ
flatten_nodes null m buffer = (m, buffer, 0)
flatten_nodes (node id ps children next) m buffer =
    let (m1, b1, properties) = flatten_properties ps m (buffer + sizeof_node) in
    let (m2, b2, count) = flatten_nodes children (write32 m1 buffer properties) b1 in
    let (m3, b3, siblings) = flatten_nodes next (write32 m2 (buffer + 4) count) b2 in
    (m3, b3, siblings + 1)

-- `FlattenNodes` does not follow the next sibling of the node that it is given.
abbrev pub alone : Node → Node
alone null = null
alone (node id ps children next) = node id ps children null

unfoldable pub total_size : {W : Type 0} → DeviceTree W → ℕ
total_size t =
    add32 (add32 (mul32 t.num_nodes sizeof_node) (mul32 t.num_properties sizeof_property))
      t.total_property_size

-- The length, the new `*buffer_p`, and the memory. No buffer is given where only the length is asked
-- for; address zero asks for a new one, which `malloc` gives at `allocated`.
unfoldable pub flatten_device_tree :
    {W : Type 0} → (allocated : ℕ) → (buffer_p : Option ℕ) → DeviceTree W → Ram → ℕ × Option ℕ × Ram
flatten_device_tree allocated none t m = (total_size t, none, m)
flatten_device_tree allocated (some buffer) t m =
    let buf = if buffer == 0 then allocated else buffer in
    if total_size t == 0
    then (total_size t, some 0, m)
    else (total_size t, some buf, (flatten_nodes (alone t.root) (bzero m buf (total_size t)) buf).0)
