-- ===== src/Boot/Started.antt =====
-- A run of the command `mach_boot` that starts the kernel.
use xnu_uboot_arm.Base.{
  ℕ, ◌+◌, ◌^◌, ◌<◌, ◌≤◌, ◌≡◌, ◌∙◌, refl, ap, Bool, true, false, not, Option, some, if◌then◌else◌,
  codes, length, word, arith,
}
use xnu_uboot_arm.Runtime.{Range, range, Runtime, IsRuntime}
use xnu_uboot_arm.Region.{Region, memory_reserve}
use xnu_uboot_arm.DeviceTree.{Node, null, node, Heap, root_node, finalize}
use xnu_uboot_arm.DeviceTree.Count.{occurs, IsCounted}
use xnu_uboot_arm.DeviceTree.Flatten.{alone}
use xnu_uboot_arm.DeviceTree.Flatten.Written.{IsFlatTree, bytes_of}
use xnu_uboot_arm.Boot.{Boot, Host, Ending, returned, started, ptokv, kvtop}
use xnu_uboot_arm.Boot.Map.{create_memory_map, map_add_drivers}
use xnu_uboot_arm.Boot.Start.{
  allocate_boot_args, fill_memory_map, lay_out, out, boot_from, mach_boot,
}
use xnu_uboot_arm.Boot.Layout.{IsReady, IsLaidOut, lay_out-IsLaidOut}
use xnu_uboot_arm.Boot.Entered.{
  AreMappable, add_child-made, create_memory_map-made, fill_memory_map-done,
}
use xnu_uboot_arm.Boot.Counted.{
  IsHome, Grown-IsHome, root_node-IsHome, create_memory_map-IsHome, fill_memory_map-IsHome,
}

occurs-bytes_of : (id : ℕ) (t : Node) → occurs id t ≡ 1 → 0 < length (bytes_of t)
unfolding occurs bytes_of
occurs-bytes_of id null e = absurd (omega (arith, e))
occurs-bytes_of id (node i ps children next) e = omega arith

module _ {W : Type 0} (h : Heap W) (rt : Runtime) (host : Host) (s : Boot W) where
  -- The state with the boot arguments in place and the memory map made, and the one with it filled.
  unfoldable pub mapped : Boot W
  mapped =
      let booted =
        (allocate_boot_args h rt host (record s {
          kernel_mem = record { pos = s.memory_top; base = s.physical_base; down = false };
        })).1 in
      record booted { tree = (create_memory_map h s.tree).1 }

  unfoldable pub filled : (memory_map : ℕ) → Bool × Boot W
  filled memory_map = fill_memory_map h rt host memory_map (range s.memory_top 312) mapped

  -- The node of `/chosen/memory-map`: the second that is made.
  abbrev pub memory_map : ℕ
  memory_map = s.tree.next_id + 1

  -- The conditions of a start: a counted tree with one root, memory, drivers with a property list or
  -- without code, and a flat form of the filled tree that fits behind the kernel.
  pub record IsStartable (root : ℕ) : Type 0 where
    pub loaded : s.has_device_tree ≡ true
    pub counted : IsCounted s.tree
    pub one_root : alone s.tree.root ≡ s.tree.root
    pub rooted : root_node s.tree ≡ some root
    pub plenty : (n : ℕ) (w : W) → (h.malloc n w).0 ≡ true
    pub mappable : AreMappable s.drivers
    pub flat : IsFlatTree (filled memory_map).1.tree.root
    pub fits :
        s.memory_top + 316 + length (bytes_of (filled memory_map).1.tree.root) + 2 ^ 20 ≤ word

  fill_memory_map-kernel_mem :
      (id : ℕ) (r : Range) (u : Boot W)
      → (fill_memory_map h rt host id r u).1.kernel_mem ≡ u.kernel_mem
  unfolding fill_memory_map map_add_drivers
  fill_memory_map-kernel_mem id r u = ground arith

  past_guard : (b : Bool) (x y : Ending W) → b ≡ true → (if not b then x else y) ≡ y
  past_guard true x y e = refl
  past_guard false x y e = absurd (ground (arith, e))

  abbrev boot_args : Range
  boot_args = range s.memory_top 312

  module _ (root : ℕ) (ok : IsStartable root) (laws : IsRuntime rt) where
    made_map : (create_memory_map h s.tree).0 ≡ some memory_map
    made_map = create_memory_map-made h ok.plenty s.tree

    all_entered : (filled memory_map).0 ≡ true
    unfolding filled mapped allocate_boot_args
    all_entered =
        fill_memory_map-done h ok.plenty host memory_map rt (range s.memory_top 312) mapped
          ok.mappable

    mapped-IsHome : IsHome memory_map mapped.tree
    unfolding mapped
    mapped-IsHome =
        Grown-IsHome h memory_map (create_memory_map h s.tree)
          (create_memory_map-IsHome h root s.tree.next_id s.tree
            (root_node-IsHome h root s.tree ok.counted ok.one_root ok.rooted) ok.rooted
            (add_child-made h ok.plenty (some root) (some (codes "chosen")) s.tree))
          made_map

    filled-IsHome : IsHome memory_map (filled memory_map).1.tree
    unfolding filled
    filled-IsHome =
        fill_memory_map-IsHome memory_map h host rt (range s.memory_top 312) mapped mapped-IsHome

    mapped_down : mapped.kernel_mem.down ≡ false
    unfolding mapped allocate_boot_args memory_reserve
    mapped_down = refl

    mapped_pos : mapped.kernel_mem.pos ≡ s.memory_top + 312
    unfolding mapped allocate_boot_args memory_reserve
    mapped_pos = omega (arith, ok.fits)

    filled-IsReady : IsReady (filled memory_map).1 (s.memory_top + 312)
    unfolding filled
    filled-IsReady = record {
      counted = filled-IsHome.counted;
      one_root = filled-IsHome.one_root;
      flat = ok.flat;
      not_empty = occurs-bytes_of memory_map (filled memory_map).1.tree.root filled-IsHome.there;
      upwards =
          ap (λ (k : Region). k.down) (fill_memory_map-kernel_mem memory_map boot_args mapped)
          ∙ mapped_down;
      at_top =
          ap (λ (k : Region). k.pos) (fill_memory_map-kernel_mem memory_map boot_args mapped)
          ∙ mapped_pos;
      fits = omega (arith, ok.fits);
    }

    abbrev full : Boot W
    full = (filled memory_map).1

    abbrev laid_out : Boot W
    laid_out = lay_out h rt host s.memory_top full

    runs : mach_boot h rt host s ≡ out h rt host true boot_args laid_out
    unfolding mach_boot allocate_boot_args memory_reserve boot_from filled mapped
    runs =
        past_guard s.has_device_tree (returned 1 s) _ ok.loaded
        ∙ ap (λ (c : Option ℕ). boot_from h rt host c boot_args mapped) made_map
        ∙ ap (λ (b : Bool). out h rt host b boot_args (if b then laid_out else full)) all_entered

    -- Where a device tree with right counts and one root is loaded, the heap does not run out, every
    -- driver has a property list or no code, and the tree with the memory map filled in has names and
    -- values that fit its flat form and fits behind the kernel, `mach_boot` starts the kernel, and the
    -- state in which it does has the boot arguments and the flat tree laid out.
    pub mach_boot-started :
        (mach_boot h rt host s
          ≡ started
              (kvtop laid_out laid_out.entry_point)
              (ptokv laid_out s.memory_top)
              (record laid_out { tree = finalize h laid_out.tree }))
        × IsLaidOut full laid_out s.memory_top
    mach_boot-started = (
      runs ∙ (unfold out in refl),
      lay_out-IsLaidOut h rt host laws full s.memory_top filled-IsReady,
    )
