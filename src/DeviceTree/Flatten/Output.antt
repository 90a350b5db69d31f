-- ===== src/DeviceTree/Flatten/Output.antt =====
-- The block that `DT__FlattenDeviceTree` leaves, for a tree that the operations of the file built.
use xnu_uboot_arm.Base.{
  ℕ, ◌<◌, ◌≡◌, inl, inr, refl, Bool-cases, ==_iff, Option, none, some, List, [], ◌∷◌, ◌++◌, ◌==◌,
  if◌then◌else◌, codes, length, word, Ram, bzero, bzero-Zeros, bzero-SameOutside, Writes,
  SameOutside-trans, arith,
}
use xnu_uboot_arm.DeviceTree.{
  Property, Node, null, node, DeviceTree, Heap, append_property, insert_child, refill_properties,
  refill_nodes, add_property, link_node, name_node, add_child, initialize,
}
use xnu_uboot_arm.DeviceTree.Count.{IsCounted}
use xnu_uboot_arm.DeviceTree.Built.{Built, initial, child, property}
use xnu_uboot_arm.DeviceTree.Flatten.{flatten_nodes, alone, total_size, flatten_device_tree}
use xnu_uboot_arm.DeviceTree.Flatten.Written.{IsFlatTree, bytes_of}
use xnu_uboot_arm.DeviceTree.Flatten.Nodes.{flatten_nodes-Laid, total_size-IsCounted}

append_property-alone :
    (id : ℕ) (p : Property) (t : Node)
    → alone t ≡ t
    → alone (append_property id p t) ≡ append_property id p t
unfolding append_property
append_property-alone id p null e = refl
append_property-alone id p (node i ps children null) e = refl
append_property-alone id p (node i ps children (node j qs c n)) e = absurd (ground (arith, e))

insert_child-alone :
    (id c : ℕ) (t : Node) → alone t ≡ t → alone (insert_child id c t) ≡ insert_child id c t
unfolding insert_child
insert_child-alone id c null e = refl
insert_child-alone id c (node i ps children null) e = refl
insert_child-alone id c (node i ps children (node j qs d n)) e = absurd (ground (arith, e))

module _ {W : Type 0} (h : Heap W) where
  -- The root has no siblings.
  abbrev pub Alone : DeviceTree W → Type 0
  Alone t = alone t.root ≡ t.root

  pub add_property-Alone :
      (id : ℕ) (name value : List ℕ) (t : DeviceTree W)
      → Alone t
      → Alone (add_property h id name value t).1
  unfolding add_property refill_properties
  add_property-Alone id name value t e =
      ground (arith, append_property-alone id (record { name = name; value = value }) t.root)

  pub name_node-Alone :
      (id : ℕ) (name : Option (List ℕ)) (t : DeviceTree W) → Alone t → Alone (name_node h id name t)
  unfolding name_node
  name_node-Alone id none t e = e
  name_node-Alone id (some name) t e = add_property-Alone id (codes "name") (name ++ 0 ∷ []) t e

  refill_nodes-root : (t : DeviceTree W) → (refill_nodes h t).1.root ≡ t.root
  unfolding refill_nodes
  refill_nodes-root t = ground arith

  pub link_node-Alone :
      (parent : Option ℕ) (t : DeviceTree W) → Alone t → Alone (link_node h parent t)
  unfolding link_node
  link_node-Alone none t e = refl
  link_node-Alone (some p) t e = insert_child-alone p t.next_id t.root e

  pub add_child-Alone :
      (parent : Option ℕ) (name : Option (List ℕ)) (t : DeviceTree W)
      → Alone t
      → Alone (add_child h parent name t).1
  unfolding add_child
  add_child-Alone parent name t e =
      let t1 = (refill_nodes h t).1 in
      let e1 : alone t1.root ≡ t1.root = rw (refill_nodes-root t) e in
      elim (Bool-cases (refill_nodes h t).0) [
        | inr failed ↦ rw (failed, add_child) e1
        | inl ready ↦
            rw (ready, add_child)
              (name_node-Alone t1.next_id name (link_node h parent t1)
                (link_node-Alone parent t1 e1))
      ]

  -- An old root is still there where there is no memory for a new one, but it is forgotten.
  abbrev Rooted : Option ℕ × DeviceTree W → Type 0
  Rooted (none, t) = Unit {0}
  Rooted (some id, t) = Alone t

  add_child-Rooted : (name : Option (List ℕ)) (t : DeviceTree W) → Rooted (add_child h none name t)
  unfolding add_child
  add_child-Rooted name t =
      let t1 = (refill_nodes h t).1 in
      elim (Bool-cases (refill_nodes h t).0) [
        | inr failed ↦ rw (failed, add_child) tt
        | inl ready ↦
            rw (ready, add_child)
              (name_node-Alone t1.next_id name (link_node h none t1) (unfold link_node in refl))
      ]

  forgotten-Alone :
      (r : Option ℕ × DeviceTree W)
      → Rooted r
      → Alone (elim r.0 [ none ↦ record r.1 { root = null } | some id ↦ r.1 ])
  forgotten-Alone (none, u) c = refl
  forgotten-Alone (some id, u) c = c

  initialize-Alone : (t : DeviceTree W) → Alone (initialize h t)
  unfolding initialize
  initialize-Alone t =
      let u : DeviceTree W = record t {
        free_nodes = 0;
        alloced_nodes = [];
        free_properties = 0;
        alloced_properties = [];
        num_nodes = 0;
        num_properties = 0;
        total_property_size = 0;
      } in
      forgotten-Alone (add_child h none (some (codes "/")) u)
        (add_child-Rooted (some (codes "/")) u)

  pub Built-Alone : {t : DeviceTree W} → Built h t → Alone t
  Built-Alone (initial t) = initialize-Alone t
  Built-Alone (child {t} parent name b one) = add_child-Alone (some parent) name t (Built-Alone b)
  Built-Alone (property {t} id name value b one) =
      add_property-Alone id name value t (Built-Alone b)

module _ {W : Type 0} {t : DeviceTree W} (counted : IsCounted t) (one : alone t.root ≡ t.root)
    (flat : IsFlatTree t.root) (fits : length (bytes_of t.root) < word) where
  size : total_size t ≡ length (bytes_of t.root)
  size = total_size-IsCounted t counted flat fits

  block-Writes :
      (m : Ram) (buf : ℕ)
      → Writes buf
          (bytes_of t.root)
          m
          (flatten_nodes (alone t.root) (bzero m buf (length (bytes_of t.root))) buf).0
  block-Writes m buf =
      let n = length (bytes_of t.root) in
      let laid = flatten_nodes-Laid t.root (bzero m buf n) buf flat (bzero-Zeros m buf n) in
      rw (one) (
        laid.writes.0,
        SameOutside-trans buf n m (bzero m buf n) (flatten_nodes t.root (bzero m buf n) buf).0
            (bzero-SameOutside m buf n) laid.writes.1,
      )

  nothing-Writes : (m : Ram) (at : ℕ) (bs : List ℕ) → length bs ≡ 0 → Writes at bs m m
  nothing-Writes m at [] e = (tt, λ c out. refl)
  nothing-Writes m at (b ∷ bs) e = absurd (omega (arith, e))

  -- A tree that its counts agree with, whose root has no siblings, whose names fit in their fields
  -- and whose flat form is shorter than 2 ^ 32 bytes, is flattened to exactly its flat form: the length is the number of
  -- its bytes, and where the tree is not empty they stand in the buffer that was given, or in the
  -- new one if none was, and no other byte of the memory changes. An empty tree gives no buffer.
  pub flatten_device_tree-Writes :
      (allocated buffer : ℕ) (m : Ram)
      → let out = flatten_device_tree allocated (some buffer) t m in
        let at = if buffer == 0 then allocated else buffer in
        (out.0 ≡ length (bytes_of t.root))
        × (out.1 ≡ some (if length (bytes_of t.root) == 0 then 0 else at))
        × Writes at (bytes_of t.root) m out.2
  unfolding flatten_device_tree
  flatten_device_tree-Writes allocated buffer m =
      let at = if buffer == 0 then allocated else buffer in
      elim (Bool-cases (length (bytes_of t.root) == 0)) [
        | inl empty ↦
            rw (size, empty)
              (
                refl,
                refl,
                nothing-Writes m at (bytes_of t.root)
                    ((==_iff (length (bytes_of t.root)) 0).0 empty),
              )
        | inr full ↦ rw (size, full) (refl, refl, block-Writes m at)
      ]
