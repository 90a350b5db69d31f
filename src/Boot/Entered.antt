-- ===== src/Boot/Entered.antt =====
-- main/mach_boot.c on a heap that does not run out: the nodes of the memory map are made, and every
-- range that is asked for is entered.
use xnu_uboot_arm.Base.{
  ℕ, ◌+◌, ◌&&◌, ◌≡◌, ◌∙◌, refl, ap, true, false, Option, none, some, List, [], ◌∷◌, ◌==◌, codes,
  length, Ram, arith,
}
use xnu_uboot_arm.Runtime.{Range, Runtime}
use xnu_uboot_arm.DeviceTree.{
  Heap, DeviceTree, refill_nodes, link_node, name_node, add_property, add_child, root_node,
}
use xnu_uboot_arm.DeviceTree.Built.{refill_nodes-SameTree, refill_properties-SameTree}
use xnu_uboot_arm.DeviceTree.Kept.{refill_nodes-ready}
use xnu_uboot_arm.Loader.{Driver}
use xnu_uboot_arm.Boot.{Boot, Host}
use xnu_uboot_arm.Boot.Map.{
  allocate_memory_range, create_memory_map, enter_memory_range, map_add_ramdisk,
  map_booter_extension, map_drivers, map_add_drivers, map_add_info,
}
use xnu_uboot_arm.Boot.Start.{fill_memory_map}

-- `map_booter_extension` takes a driver with a property list, and one without code.
abbrev pub AreMappable : List Driver → Type 0
AreMappable [] = Unit {0}
AreMappable (d ∷ ds) = ((d.info_offset == 0 && d.has_exec) ≡ false) × AreMappable ds

module _ {W : Type 0} (h : Heap W) (plenty : (n : ℕ) (w : W) → (h.malloc n w).0 ≡ true) where
  pub add_child-made :
      (parent : Option ℕ) (name : Option (List ℕ)) (t : DeviceTree W)
      → (add_child h parent name t).0 ≡ some t.next_id
  unfolding add_child
  add_child-made parent name t =
      rw (refill_nodes-ready h plenty t) (ap some (refill_nodes-SameTree h t).next_id)

  add_property-next_id :
      (id : ℕ) (name value : List ℕ) (t : DeviceTree W)
      → (add_property h id name value t).1.next_id ≡ t.next_id
  unfolding add_property
  add_property-next_id id name value t = ground (arith, (refill_properties-SameTree h t).next_id)

  name_node-next_id :
      (id : ℕ) (name : Option (List ℕ)) (t : DeviceTree W)
      → (name_node h id name t).next_id ≡ t.next_id
  unfolding name_node
  name_node-next_id id none t = refl
  name_node-next_id id (some name) t = add_property-next_id id _ _ t

  add_child-next_id :
      (parent : Option ℕ) (name : Option (List ℕ)) (t : DeviceTree W)
      → (add_child h parent name t).1.next_id ≡ t.next_id + 1
  unfolding add_child
  add_child-next_id parent name t =
      let t1 = (refill_nodes h t).1 in
      rw (refill_nodes-ready h plenty t) (
        name_node-next_id t1.next_id name (link_node h parent t1)
        ∙ (unfold link_node in ap (λ (n : ℕ). n + 1) (refill_nodes-SameTree h t).next_id))

  -- The node of the memory map is the second of the two.
  pub create_memory_map-made : (t : DeviceTree W) → (create_memory_map h t).0 ≡ some (t.next_id + 1)
  unfolding create_memory_map
  create_memory_map-made t = add_child-made _ _ _ ∙ ap some (add_child-next_id (root_node t) _ t)

  allocate_memory_range-done :
      (id : ℕ) (name : List ℕ) (start size : ℕ) (t : DeviceTree W)
      → (allocate_memory_range h id name start size t).0 ≡ true
  unfolding allocate_memory_range
  allocate_memory_range-done id name start size t =
      ground
        (arith, plenty (length name + 1) t.heap, plenty 8 (h.malloc (length name + 1) t.heap).1)

  module _ (host : Host) (id : ℕ) where
    enter_memory_range-done :
        (prefix : List ℕ) (n : ℕ) (r : Range) (t : DeviceTree W)
        → (enter_memory_range h host id prefix n r t).0 ≡ true
    unfolding enter_memory_range
    enter_memory_range-done prefix n r t = allocate_memory_range-done id _ r.base r.size t

    map_add_info-done : (r q : Range) (t : DeviceTree W) → (map_add_info h host id r q t).0 ≡ true
    unfolding map_add_info
    map_add_info-done r q t =
        let t1 = (enter_memory_range h host id (codes "iBoot") 0 host.stack_range t).1 in
        let t2 = (enter_memory_range h host id (codes "BootArgs") 0 r t1).1 in
        ground (
          arith,
          enter_memory_range-done (codes "iBoot") 0 host.stack_range t,
          enter_memory_range-done (codes "BootArgs") 0 r t1,
          enter_memory_range-done (codes "Kernel") 0 q t2,
        )

    map_drivers-done :
        (images : List Driver) (t : DeviceTree W) (m : Ram)
        → AreMappable images
        → (map_drivers h host id images t m).0 ≡ true
    unfolding map_drivers map_booter_extension
    map_drivers-done [] t m a = refl
    map_drivers-done (image ∷ images) t m a =
        rw (a.0, map_drivers, map_booter_extension) (map_drivers-done images _ _ a.1)

    map_add_drivers-done :
        (s : Boot W) → AreMappable s.drivers → (map_add_drivers h host id s).0 ≡ true
    unfolding map_add_drivers
    map_add_drivers-done s a = ground (arith, map_drivers-done s.drivers s.tree s.ram a)

    pub fill_memory_map-done :
        (rt : Runtime) (r : Range) (s : Boot W)
        → AreMappable s.drivers
        → (fill_memory_map h rt host id r s).0 ≡ true
    unfolding fill_memory_map map_add_ramdisk
    fill_memory_map-done rt r s a =
        let t1 = (map_add_info h host id r s.kernel_range s.tree).1 in
        let s2 = (map_add_drivers h host id (record s { tree = t1 })).1 in
        ground (
          arith,
          map_add_info-done r s.kernel_range s.tree,
          map_add_drivers-done (record s { tree = t1 }) a,
          enter_memory_range-done (codes "RAMDisk") 0 s2.ramdisk_range s2.tree,
        )
