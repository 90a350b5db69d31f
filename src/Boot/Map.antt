-- ===== src/Boot/Map.antt =====
-- The ranges that main/mach_boot.c enters under `/chosen/memory-map`, and the drivers' headers.
use xnu_uboot_arm.Base.{
  ℕ, ◌+◌, ◌&&◌, Bool, true, false, not, Option, some, List, [], ◌∷◌, ◌++◌, ◌==◌, if◌then◌else◌, ltb,
  codes, length, add32, sub32, le32, Ram, write32, write_bytes,
}
use xnu_uboot_arm.Runtime.{Range}
use xnu_uboot_arm.DeviceTree.{Heap, DeviceTree, add_property, add_child, root_node, free_blocks}
use xnu_uboot_arm.Loader.{Driver, name_len, driver_pad_start}
use xnu_uboot_arm.Boot.{Boot, Host, sizeof_driver_info, strlen}

module _ {W : Type 0} (h : Heap W) where
  -- The name and the two words are copied to the heap. The result of `DT__AddProperty` is not
  -- looked at, and `type` is not used.
  unfoldable pub allocate_memory_range :
      (memory_map : ℕ)
      → (range_name : List ℕ) → (start size : ℕ) → DeviceTree W
      → Bool × DeviceTree W
  allocate_memory_range memory_map range_name start size t =
      let (named, w1) = h.malloc (length range_name + 1) t.heap in
      let (got, w2) = h.malloc 8 w1 in
      if not named
      then (false, record t { heap = w1 })
      else if not got
      then (false, record t { heap = w2 })
      else (
        true,
        (add_property h memory_map range_name (le32 start ++ le32 size) (record t { heap = w2 })).1,
      )

  -- `/chosen/memory-map`
  unfoldable pub create_memory_map : DeviceTree W → Option ℕ × DeviceTree W
  create_memory_map t =
      let (chosen, t1) = add_child h (root_node t) (some (codes "chosen")) t in
      add_child h chosen (some (codes "memory-map")) t1

  module _ (host : Host) where
    unfoldable pub enter_memory_range :
        (memory_map : ℕ) → (prefix : List ℕ) → (id : ℕ) → Range → DeviceTree W → Bool × DeviceTree W
    enter_memory_range memory_map prefix id r t =
        let range_name = if id == 0 then prefix else prefix ++ codes "-" ++ host.print_hex id in
        allocate_memory_range memory_map range_name r.base r.size t

    unfoldable pub map_add_ramdisk : (memory_map : ℕ) → Range → DeviceTree W → Bool × DeviceTree W
    map_add_ramdisk memory_map ramdisk_range t =
        enter_memory_range memory_map (codes "RAMDisk") 0 ramdisk_range t

    -- The fields of `struct DriverInfo`, and the name behind it, in the pad in front of the image.
    unfoldable pub write_driver_info : Driver → Ram → Ram
    write_driver_info image m =
        let driver = image.range.base in
        let bundle_name = add32 driver sizeof_driver_info in
        let actual_base = add32 driver driver_pad_start in
        let actual_size = sub32 image.range.size driver_pad_start in
        let m1 = write32 m (driver + 8) (if image.has_exec then actual_base else 0) in
        let m2 = write32 m1 (driver + 12) (if image.has_exec then image.info_offset else 0) in
        let m3 = write32 m2 driver (add32 actual_base image.info_offset) in
        let m4 = write32 m3 (driver + 4) (sub32 actual_size image.info_offset) in
        let m5 = write_bytes m4 bundle_name image.name in
        let m6 = write32 m5 (driver + 16) bundle_name in
        write32 m6 (driver + 20) (strlen image.name)

    -- The result of `enter_memory_range` is not looked at.
    unfoldable pub map_booter_extension :
        (memory_map : ℕ) → Driver → DeviceTree W → Ram → Bool × DeviceTree W × Ram
    map_booter_extension memory_map image t m =
        if ltb driver_pad_start (sizeof_driver_info + name_len)
        then (false, t, m)
        else if (image.info_offset == 0) && image.has_exec
        then (false, t, m)
        else (
          true,
          (enter_memory_range memory_map (codes "Driver") image.range.base image.range t).1,
          write_driver_info image m,
        )

    unfoldable pub map_drivers :
        (memory_map : ℕ) → List Driver → DeviceTree W → Ram → Bool × DeviceTree W × Ram
    map_drivers memory_map [] t m = (true, t, m)
    map_drivers memory_map (image ∷ images) t m =
        let (mapped, t1, m1) = map_booter_extension memory_map image t m in
        let rest = map_drivers memory_map images t1 m1 in if mapped then rest else (false, t1, m1)

    -- The list of the drivers is freed when all of them are in the map.
    unfoldable pub map_add_drivers : (memory_map : ℕ) → Boot W → Bool × Boot W
    map_add_drivers memory_map s =
        let (mapped, t, m) = map_drivers memory_map s.drivers s.tree s.ram in
        if mapped
        then (
          true,
          record s {
            tree = record t { heap = free_blocks h (length s.drivers) t.heap };
            ram = m;
            drivers = [];
          },
        )
        else (false, record s { tree = t; ram = m })

    unfoldable pub map_add_info :
        (memory_map : ℕ)
        → (boot_args_range kernel_range : Range) → DeviceTree W
        → Bool × DeviceTree W
    map_add_info memory_map boot_args_range kernel_range t =
        let (a, t1) = enter_memory_range memory_map (codes "iBoot") 0 host.stack_range t in
        let (b, t2) = enter_memory_range memory_map (codes "BootArgs") 0 boot_args_range t1 in
        let (c, t3) = enter_memory_range memory_map (codes "Kernel") 0 kernel_range t2 in
        if not a then (false, t1) else if not b then (false, t2) else (c, t3)
