-- ===== src/Boot/Counted.antt =====
-- What main/mach_boot.c adds to the device tree keeps it a tree that can be flattened.
use mathlib.Core.Path.{subst}
use xnu_uboot_arm.Base.{
  ℕ, ◌+◌, ◌≤◌, ◌&&◌, ◌≡◌, ◌∙◌, refl, ap, Bool, true, false, not, Bool-cases, inl, inr, Option, none,
  some, List, [], ◌∷◌, ◌++◌, ◌==◌, if◌then◌else◌, ltb, codes, length, le32, Ram, arith,
}
use xnu_uboot_arm.Runtime.{Range, Runtime}
use xnu_uboot_arm.DeviceTree.{
  Node, null, node, Heap, DeviceTree, refill_properties, refill_nodes, add_property, link_node,
  name_node, add_child, root_node, free_blocks,
}
use xnu_uboot_arm.DeviceTree.Count.{occurs, occurs-append_property, IsCounted}
use xnu_uboot_arm.DeviceTree.Built.{
  refill_nodes-SameTree, SameTree-IsCounted, link_node-IsCounted, name_node-IsCounted,
  add_property-IsCounted,
}
use xnu_uboot_arm.DeviceTree.Flatten.{alone}
use xnu_uboot_arm.DeviceTree.Flatten.Output.{add_property-Alone, name_node-Alone, link_node-Alone}
use xnu_uboot_arm.Loader.{Driver, name_len, driver_pad_start}
use xnu_uboot_arm.Boot.{Boot, Host, sizeof_driver_info}
use xnu_uboot_arm.Boot.Map.{
  allocate_memory_range, create_memory_map, enter_memory_range, map_add_ramdisk,
  map_booter_extension, map_drivers, map_add_drivers, map_add_info, write_driver_info,
}
use xnu_uboot_arm.Boot.Start.{fill_memory_map}

-- The counts agree with the tree, its root has no siblings, and the node `id` stands in it.
pub record IsHome {W : Type 0} (id : ℕ) (t : DeviceTree W) : Type 0 where
  pub counted : IsCounted t
  pub one_root : alone t.root ≡ t.root
  pub there : occurs id t.root ≡ 1

choose : {A : Type 0} (P : A → Type 0) (b : Bool) {x y : A} → P x → P y → P (if b then x else y)
choose P true p q = p
choose P false p q = q

module _ {W : Type 0} (id : ℕ) where
  -- The same of a result with its code.
  abbrev Home : Bool × DeviceTree W → Type 0
  Home r = IsHome id r.1

  abbrev HomeAndRam : Bool × DeviceTree W × Ram → Type 0
  HomeAndRam r = IsHome id r.1

  abbrev HomeState : Bool × Boot W → Type 0
  HomeState r = IsHome id r.1.tree

  with_heap : (w : W) (t : DeviceTree W) → IsHome id t → IsHome id (record t { heap = w })
  with_heap w t k = record {
    counted = record {
      nodes = k.counted.nodes;
      properties = k.counted.properties;
      property_sizes = k.counted.property_sizes;
      fresh = k.counted.fresh;
      unique = k.counted.unique;
    };
    one_root = k.one_root;
    there = k.there;
  }

  module _ (h : Heap W) where
    pub occurs-add_property :
        (j : ℕ) (name value : List ℕ) (t : DeviceTree W)
        → occurs j (add_property h id name value t).1.root ≡ occurs j t.root
    unfolding add_property refill_properties
    occurs-add_property j name value t =
        ground (arith, occurs-append_property j id (record { name = name; value = value }) t.root)

    add_property-IsHome :
        (name value : List ℕ) (t : DeviceTree W)
        → IsHome id t
        → IsHome id (add_property h id name value t).1
    add_property-IsHome name value t k = record {
      counted = add_property-IsCounted h id name value t k.there k.counted;
      one_root = add_property-Alone h id name value t k.one_root;
      there = occurs-add_property id name value t ∙ k.there;
    }

    allocate_memory_range-IsHome :
        (name : List ℕ) (start size : ℕ) (t : DeviceTree W)
        → IsHome id t
        → IsHome id (allocate_memory_range h id name start size t).1
    unfolding allocate_memory_range
    allocate_memory_range-IsHome name start size t k =
        let (named, w1) = h.malloc (length name + 1) t.heap in
        let (got, w2) = h.malloc 8 w1 in
        choose Home (not named) (with_heap w1 t k) (
          choose Home (not got) (with_heap w2 t k) (
            add_property-IsHome name (le32 start ++ le32 size) (record t { heap = w2 })
              (with_heap w2 t k)))

    module _ (host : Host) where
      enter_memory_range-IsHome :
          (prefix : List ℕ) (n : ℕ) (r : Range) (t : DeviceTree W)
          → IsHome id t
          → IsHome id (enter_memory_range h host id prefix n r t).1
      unfolding enter_memory_range
      enter_memory_range-IsHome prefix n r t k =
          allocate_memory_range-IsHome
            (if n == 0 then prefix else prefix ++ codes "-" ++ host.print_hex n) r.base r.size t k

      map_add_info-IsHome :
          (r q : Range) (t : DeviceTree W)
          → IsHome id t
          → IsHome id (map_add_info h host id r q t).1
      unfolding map_add_info
      map_add_info-IsHome r q t k =
          let (a, t1) = enter_memory_range h host id (codes "iBoot") 0 host.stack_range t in
          let (b, t2) = enter_memory_range h host id (codes "BootArgs") 0 r t1 in
          let k1 = enter_memory_range-IsHome (codes "iBoot") 0 host.stack_range t k in
          let k2 = enter_memory_range-IsHome (codes "BootArgs") 0 r t1 k1 in
          choose Home (not a) k1
            (choose Home (not b) k2 (enter_memory_range-IsHome (codes "Kernel") 0 q t2 k2))

      map_booter_extension-IsHome :
          (image : Driver) (t : DeviceTree W) (m : Ram)
          → IsHome id t
          → IsHome id (map_booter_extension h host id image t m).1
      unfolding map_booter_extension
      map_booter_extension-IsHome image t m k =
          let refused : Bool × DeviceTree W × Ram = (false, t, m) in
          let entered : Bool × DeviceTree W × Ram = (
            true,
            (enter_memory_range h host id (codes "Driver") image.range.base image.range t).1,
            write_driver_info h host image m,
          ) in
          let no_plist = (image.info_offset == 0) && image.has_exec in
          choose HomeAndRam (ltb driver_pad_start (sizeof_driver_info + name_len)) {x = refused}
            {y = if no_plist then refused else entered} k
            (choose HomeAndRam no_plist {x = refused} {y = entered} k
              (enter_memory_range-IsHome (codes "Driver") image.range.base image.range t k))

      map_drivers-IsHome :
          (images : List Driver) (t : DeviceTree W) (m : Ram)
          → IsHome id t
          → IsHome id (map_drivers h host id images t m).1
      unfolding map_drivers
      map_drivers-IsHome [] t m k = k
      map_drivers-IsHome (image ∷ images) t m k =
          let (mapped, t1, m1) = map_booter_extension h host id image t m in
          let k1 = map_booter_extension-IsHome image t m k in
          choose HomeAndRam mapped {x = map_drivers h host id images t1 m1} {y = (false, t1, m1)}
            (map_drivers-IsHome images t1 m1 k1) k1

      map_add_drivers-IsHome :
          (s : Boot W) → IsHome id s.tree → IsHome id (map_add_drivers h host id s).1.tree
      unfolding map_add_drivers
      map_add_drivers-IsHome s k =
          let (mapped, t, m) = map_drivers h host id s.drivers s.tree s.ram in
          let k1 = map_drivers-IsHome s.drivers s.tree s.ram k in
          choose HomeState mapped (with_heap (free_blocks h (length s.drivers) t.heap) t k1) k1

      -- Entering what is loaded into the memory map, allocations and drivers that fail included, keeps
      -- the counts of the tree right, its root without siblings, and the node of the map in it once.
      pub fill_memory_map-IsHome :
          (rt : Runtime) (r : Range) (s : Boot W)
          → IsHome id s.tree
          → IsHome id (fill_memory_map h rt host id r s).1.tree
      unfolding fill_memory_map map_add_ramdisk
      fill_memory_map-IsHome rt r s k =
          let t1 = (map_add_info h host id r s.kernel_range s.tree).1 in
          let k1 = map_add_info-IsHome r s.kernel_range s.tree k in
          let (b, s2) = map_add_drivers h host id (record s { tree = t1 }) in
          let k2 = map_add_drivers-IsHome (record s { tree = t1 }) k1 in
          let k3 = enter_memory_range-IsHome (codes "RAMDisk") 0 s2.ramdisk_range s2.tree k2 in
          choose HomeState (not (map_add_info h host id r s.kernel_range s.tree).0) k1 (
            choose HomeState (not b) k2
              (choose HomeState (rt.range_is_null s2.ramdisk_range) k2 k3))

module _ {W : Type 0} (h : Heap W) where
  -- A new node stands in the tree, below a node that does.
  occurs-name_node :
      (j id : ℕ) (name : Option (List ℕ)) (t : DeviceTree W)
      → occurs j (name_node h id name t).root ≡ occurs j t.root
  unfolding name_node
  occurs-name_node j id none t = refl
  occurs-name_node j id (some name) t = occurs-add_property id h j (codes "name") (name ++ 0 ∷ []) t

  unfoldable pub Grown : Option ℕ × DeviceTree W → Type 0
  Grown (none, t) = Unit {0}
  Grown (some id, t) = IsHome id t

  add_child-IsHome :
      (p : ℕ) (name : Option (List ℕ)) (t : DeviceTree W)
      → IsHome p t
      → Grown (add_child h (some p) name t)
  unfolding add_child Grown
  add_child-IsHome p name t k =
      let t1 = (refill_nodes h t).1 in
      let same = refill_nodes-SameTree h t in
      let counted = SameTree-IsCounted h t t1 same k.counted in
      let linked = link_node-IsCounted h p t1 (ap (occurs p) same.root ∙ k.there) counted in
      let t2 = link_node h (some p) t1 in
      let one : alone t1.root ≡ t1.root = rw same.root k.one_root in
      elim (Bool-cases (refill_nodes h t).0) [
        | inr failed ↦ rw (failed, add_child) tt
        | inl ready ↦
            rw (ready, add_child)
              (record {
                counted = name_node-IsCounted h t1.next_id name t2 linked.1 linked.0;
                one_root = name_node-Alone h t1.next_id name t2 (link_node-Alone h (some p) t1 one);
                there = occurs-name_node t1.next_id t1.next_id name t2 ∙ linked.1;
              })
      ]

  pub Grown-IsHome :
      (id : ℕ) (r : Option ℕ × DeviceTree W) → Grown r → r.0 ≡ some id → IsHome id r.1
  unfolding Grown
  Grown-IsHome id (none, t) g e = absurd (ground (arith, e))
  Grown-IsHome id (some j, t) g e = subst (λ (i : ℕ). IsHome i t) (ground (arith, e)) g

  root_there :
      (id : ℕ) (n : Node)
      → elim n [ null ↦ none | node i ps children next ↦ some i ] ≡ some id
      → 1 ≤ occurs id n
  unfolding occurs
  root_there id null e = absurd (ground (arith, e))
  root_there id (node i ps children next) e = ground (arith, e)

  pub root_node-IsHome :
      (id : ℕ) (t : DeviceTree W)
      → IsCounted t
      → alone t.root ≡ t.root
      → root_node t ≡ some id
      → IsHome id t
  unfolding root_node
  root_node-IsHome id t c one e = record {
    counted = c;
    one_root = one;
    there = omega (arith, c.unique id, root_there id t.root e);
  }

  -- `/chosen/memory-map`, where both were made.
  pub create_memory_map-IsHome :
      (root chosen : ℕ) (t : DeviceTree W)
      → IsHome root t
      → root_node t ≡ some root
      → (add_child h (some root) (some (codes "chosen")) t).0 ≡ some chosen
      → Grown (create_memory_map h t)
  unfolding create_memory_map
  create_memory_map-IsHome root chosen t k e made =
      let t1 = (add_child h (some root) (some (codes "chosen")) t).1 in
      rw (e, made)
        (add_child-IsHome chosen (some (codes "memory-map")) t1 (
          Grown-IsHome chosen (add_child h (some root) (some (codes "chosen")) t)
            (add_child-IsHome root (some (codes "chosen")) t k) made))
