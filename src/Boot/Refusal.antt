-- ===== src/Boot/Refusal.antt =====
-- How the command `mach_boot` can return to the console.
use xnu_uboot_arm.Base.{
  ℕ, ◌≡◌, ◌∙◌, ◌⊎◌, inl, inr, refl, [], Bool, true, false, not, Bool-cases, Option, none, some,
  if◌then◌else◌, arith,
}
use xnu_uboot_arm.Runtime.{Range, Runtime}
use xnu_uboot_arm.Region.{memory_reserve}
use xnu_uboot_arm.DeviceTree.{null, Heap, DeviceTree, finalize}
use xnu_uboot_arm.Boot.{Boot, Host, Ending, returned, halted, started, ptokv, kvtop}
use xnu_uboot_arm.Boot.Map.{create_memory_map, map_add_drivers}
use xnu_uboot_arm.Boot.Start.{
  allocate_boot_args, fill_memory_map, lay_out, place_device_tree, populate_boot_args, out,
  boot_from, mach_boot,
}

-- The tree is gone: nothing is in it, and no block is left to it.
pub record IsFinal {W : Type 0} (t : DeviceTree W) : Type 0 where
  pub no_root : t.root ≡ null
  pub no_nodes : t.num_nodes ≡ 0
  pub no_properties : t.num_properties ≡ 0
  pub no_sizes : t.total_property_size ≡ 0
  pub no_node_blocks : t.alloced_nodes ≡ []
  pub no_property_blocks : t.alloced_properties ≡ []

-- The globals of the image loader are the same, but that its list of drivers may have been torn
-- down.
pub record SameGlobals {W : Type 0} (s s' : Boot W) : Type 0 where
  pub has_device_tree : s'.has_device_tree ≡ s.has_device_tree
  pub memory_top : s'.memory_top ≡ s.memory_top
  pub virtual_base : s'.virtual_base ≡ s.virtual_base
  pub physical_base : s'.physical_base ≡ s.physical_base
  pub kernel_range : s'.kernel_range ≡ s.kernel_range
  pub ramdisk_range : s'.ramdisk_range ≡ s.ramdisk_range
  pub entry_point : s'.entry_point ≡ s.entry_point
  pub drivers : (s'.drivers ≡ s.drivers) ⊎ (s'.drivers ≡ [])

-- Without a device tree the command returns 1 and has done nothing; with one it is only left by the
-- kernel's start, a failed `assert`, or 1. The tree is finalized, and the globals are what they were,
-- but for the list of drivers.
abbrev pub Ends : {W : Type 0} → Boot W → Ending W → Type 0
Ends s (returned code s') =
    (code ≡ 1)
    × (((s.has_device_tree ≡ false) × (s' ≡ s))
        ⊎ ((s.has_device_tree ≡ true) × IsFinal s'.tree × SameGlobals s s'))
Ends s halted = s.has_device_tree ≡ true
Ends s (started entry_point boot_args s') =
    (s.has_device_tree ≡ true)
    × IsFinal s'.tree
    × SameGlobals s s'
    × (s'.drivers ≡ [])
    × (entry_point ≡ kvtop s s.entry_point)
    × (boot_args ≡ ptokv s s.memory_top)

module _ {W : Type 0} (h : Heap W) (rt : Runtime) (host : Host) where
  finalize-IsFinal : (t : DeviceTree W) → IsFinal (finalize h t)
  unfolding finalize
  finalize-IsFinal t = record {
    no_root = refl;
    no_nodes = refl;
    no_properties = refl;
    no_sizes = refl;
    no_node_blocks = refl;
    no_property_blocks = refl;
  }

  fill_memory_map-SameGlobals :
      (memory_map : ℕ) (r : Range) (s : Boot W)
      → SameGlobals s (fill_memory_map h rt host memory_map r s).1
  unfolding fill_memory_map map_add_drivers
  fill_memory_map-SameGlobals memory_map r s = ground arith

  -- All drivers are in the map, or the command fails.
  fill_memory_map-drivers :
      (memory_map : ℕ) (r : Range) (s : Boot W)
      → (fill_memory_map h rt host memory_map r s).0 ≡ true
      → (fill_memory_map h rt host memory_map r s).1.drivers ≡ []
  unfolding fill_memory_map map_add_drivers
  fill_memory_map-drivers memory_map r s e = ground arith

  lay_out-drivers : (args : ℕ) (s : Boot W) → (lay_out h rt host args s).drivers ≡ s.drivers
  unfolding lay_out place_device_tree populate_boot_args
  lay_out-drivers args s = refl

  lay_out-SameGlobals : (args : ℕ) (s : Boot W) → SameGlobals s (lay_out h rt host args s)
  unfolding lay_out place_device_tree populate_boot_args
  lay_out-SameGlobals args s = ground arith

  allocate_boot_args-SameGlobals : (s : Boot W) → SameGlobals s (allocate_boot_args h rt host s).1
  unfolding allocate_boot_args
  allocate_boot_args-SameGlobals s = ground arith

  SameGlobals-trans : (s s1 s2 : Boot W) → SameGlobals s s1 → SameGlobals s1 s2 → SameGlobals s s2
  SameGlobals-trans s s1 s2 p q = ground (arith, p, q)

  out-Ends :
      (ret : Bool) (r : Range) (s s1 : Boot W)
      → s.has_device_tree ≡ true
      → SameGlobals s s1
      → r.base ≡ s.memory_top
      → (ret ≡ true → s1.drivers ≡ [])
      → Ends s (out h rt host ret r s1)
  unfolding out finalize
  out-Ends true r s s1 e g b d = (
    e,
    finalize-IsFinal s1.tree,
    SameGlobals-trans s s1 (record s1 { tree = finalize h s1.tree }) g (ground arith),
    d refl,
    ground (arith, g),
    ground (arith, g, b),
  )
  out-Ends false r s s1 e g b d = (
    refl,
    inr (
      e,
      finalize-IsFinal s1.tree,
      SameGlobals-trans s s1 (record s1 { tree = finalize h s1.tree }) g (ground arith),
    ),
  )

  boot_from-Ends :
      (created : Option ℕ) (r : Range) (s s1 : Boot W)
      → s.has_device_tree ≡ true
      → SameGlobals s s1
      → r.base ≡ s.memory_top
      → Ends s (boot_from h rt host created r s1)
  unfolding boot_from
  boot_from-Ends none r s s1 e g b = e
  boot_from-Ends (some memory_map) r s s1 e g b =
      let s2 = (fill_memory_map h rt host memory_map r s1).1 in
      let g2 = SameGlobals-trans s s1 s2 g (fill_memory_map-SameGlobals memory_map r s1) in
      elim (Bool-cases (fill_memory_map h rt host memory_map r s1).0) [
        | inl filled ↦ rw filled (
            out-Ends true r s (lay_out h rt host r.base s2) e
              (SameGlobals-trans s s2 (lay_out h rt host r.base s2) g2
                (lay_out-SameGlobals r.base s2))
              b (λ _. lay_out-drivers r.base s2 ∙ fill_memory_map-drivers memory_map r s1 filled))
        | inr failed ↦ rw failed (out-Ends false r s s2 e g2 b (λ d. absurd (ground (arith, d))))
      ]

  guard-Ends :
      (loaded : Bool) (s : Boot W) (e : Ending W)
      → s.has_device_tree ≡ loaded
      → (s.has_device_tree ≡ true → Ends s e)
      → Ends s (if not loaded then returned 1 s else e)
  guard-Ends true s e h k = k h
  guard-Ends false s e h k = (refl, inl (h, refl))

  -- Whatever the state, the heap and the drivers: without a device tree `mach_boot` returns 1 and
  -- changes nothing. With one it returns 1, or a failed `assert` stops it, or it enters the kernel at
  -- the physical address of the entry point, with the kernel's address of the old top of its memory as
  -- boot arguments. Where it returns 1 with a tree or enters the kernel, the tree is finalized and the
  -- globals are as they were, but for the list of drivers: it is as it was or empty after 1, and empty
  -- when the kernel is entered.
  pub mach_boot-Ends : (s : Boot W) → Ends s (mach_boot h rt host s)
  unfolding mach_boot
  mach_boot-Ends s =
      let start : Boot W = record s {
        kernel_mem = record { pos = s.memory_top; base = s.physical_base; down = false };
      } in
      let booted = allocate_boot_args h rt host start in
      let made = create_memory_map h booted.1.tree in
      guard-Ends s.has_device_tree s
        (boot_from h rt host made.0 booted.0 (record booted.1 { tree = made.1 })) refl
        (λ loaded.
          boot_from-Ends made.0 booted.0 s (record booted.1 { tree = made.1 }) loaded
            (unfold allocate_boot_args in ground arith)
            (unfold allocate_boot_args memory_reserve in refl))
