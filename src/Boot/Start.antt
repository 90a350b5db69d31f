-- ===== src/Boot/Start.antt =====
-- The command `mach_boot`: the memory behind the kernel, its boot arguments and the flat tree.
use xnu_uboot_arm.Base.{
  ℕ, ◌+◌, Bool, true, false, not, Option, none, some, if◌then◌else◌, add32, write32,
}
use xnu_uboot_arm.Runtime.{Range, range, Runtime}
use xnu_uboot_arm.Region.{memory_reserve, total_memory_size}
use xnu_uboot_arm.DeviceTree.{Heap, finalize}
use xnu_uboot_arm.DeviceTree.Flatten.{flatten_device_tree}
use xnu_uboot_arm.Boot.{
  Boot, Host, Ending, returned, halted, started, device_tree_magic, boot_args_revision,
  boot_args_version3, sizeof_boot_args, write16, ptokv, kvtop,
}
use xnu_uboot_arm.Boot.Map.{create_memory_map, map_add_info, map_add_drivers, map_add_ramdisk}

module _ {W : Type 0} (h : Heap W) (rt : Runtime) (host : Host) where
  -- The range of the boot arguments; its base is the pointer that is returned.
  unfoldable pub allocate_boot_args : Boot W → Range × Boot W
  allocate_boot_args s =
      let (mem, args) = memory_reserve rt s.kernel_mem sizeof_boot_args 0 in
      let revised = write16 s.ram args boot_args_revision in
      (
        range args sizeof_boot_args,
        record s { kernel_mem = mem; ram = write16 revised (args + 2) boot_args_version3 },
      )

  -- main/mach_boot.c's `flatten_device_tree`: the magic, and the flat tree behind it.
  unfoldable pub place_device_tree : Boot W → Range × Boot W
  place_device_tree s =
      let (len, at, same) = flatten_device_tree host.allocated none s.tree s.ram in
      let (mem, dt_base) = memory_reserve rt s.kernel_mem (add32 len 4) 0 in
      let (size, placed, m) =
        flatten_device_tree host.allocated (some (add32 dt_base 4)) s.tree
          (write32 s.ram dt_base device_tree_magic) in
      (
        range (elim placed [ none ↦ 0 | some buf ↦ buf ]) size,
        record s { kernel_mem = mem; ram = m },
      )

  -- The memory map, and the three groups of ranges: each only where the one before it succeeded.
  unfoldable pub fill_memory_map :
      (memory_map : ℕ) → (boot_args_range : Range) → Boot W → Bool × Boot W
  fill_memory_map memory_map boot_args_range s =
      let (a, t1) = map_add_info h host memory_map boot_args_range s.kernel_range s.tree in
      let informed = record s { tree = t1 } in
      let (b, s2) = map_add_drivers h host memory_map informed in
      let (c, t3) = map_add_ramdisk h host memory_map s2.ramdisk_range s2.tree in
      if not a
      then (false, informed)
      else if not b
      then (false, s2)
      else if rt.range_is_null s2.ramdisk_range
      then (true, s2)
      else (c, record s2 { tree = t3 })

  -- The fields of `boot_args_t` from `virt_base` to `dt_size`.
  unfoldable pub populate_boot_args : (args : ℕ) → (device_tree : Range) → Boot W → Boot W
  populate_boot_args args device_tree s =
      let m1 = write32 s.ram (args + 8) s.physical_base in
      let m2 = write32 m1 (args + 4) s.virtual_base in
      let m3 = write32 m2 (args + 48) (ptokv s device_tree.base) in
      let m4 = write32 m3 (args + 52) device_tree.size in
      let m5 = write32 m4 (args + 12) total_memory_size in
      record s { ram = write32 m5 (args + 16) s.kernel_mem.pos }

  -- From the flattening of the tree on: the state in which the kernel is entered, but for the tree.
  unfoldable pub lay_out : (args : ℕ) → Boot W → Boot W
  lay_out args s =
      let (device_tree, s1) = place_device_tree s in
      let mem = record s1.kernel_mem { pos = rt.align_up s1.kernel_mem.pos 0x10_0000 } in
      populate_boot_args args device_tree (record s1 { kernel_mem = mem })

  unfoldable pub out : (ret : Bool) → (boot_args : Range) → Boot W → Ending W
  out ret boot_args s =
      let final = record s { tree = finalize h s.tree } in
      if not ret
      then returned 1 final
      else started (kvtop s s.entry_point) (ptokv s boot_args.base) final

  -- From `assert(memory_map)` on.
  unfoldable pub boot_from : (created : Option ℕ) → (boot_args : Range) → Boot W → Ending W
  boot_from none boot_args s = halted
  boot_from (some memory_map) boot_args s =
      let (filled, s2) = fill_memory_map memory_map boot_args s in
      out filled boot_args (if filled then lay_out boot_args.base s2 else s2)

  unfoldable pub mach_boot : Boot W → Ending W
  mach_boot s =
      if not s.has_device_tree
      then returned 1 s
      else let start = record s {
        kernel_mem = record { pos = s.memory_top; base = s.physical_base; down = false };
      } in
        let (boot_args, s1) = allocate_boot_args start in
        let (created, t) = create_memory_map h s1.tree in
        boot_from created boot_args (record s1 { tree = t })
