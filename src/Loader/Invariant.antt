-- ===== src/Loader/Invariant.antt =====
-- What the globals of main/loader.c keep: a device tree is there only beside a kernel.
mod Images
pub mod Console
use xnu_uboot_arm.Base.{
  ℕ, zero, suc, ◌+◌, ◌≡◌, ◌∙◌, sym, ◌≢◌, refl, Bool, true, false, ◌&&◌, not, Bool-cases, inl, inr,
  List, [], ◌∷◌, ltb, ◌==◌, if◌then◌else◌, add32, sub32, Ram, read32, arith,
}
use xnu_uboot_arm.Runtime.{Range, Runtime, IsRuntime}
use xnu_uboot_arm.Macho.{Format}
use xnu_uboot_arm.Loader.{
  driver_pad_start, Services, Board, Loader, Outcome, returned, halted, out_of_fuel, Driver,
  assert_kernel_load, teardown_old_loader_context, increment_kernel_memory,
}
use xnu_uboot_arm.Loader.Ends.{Ends, Leaves, Leaves-map, load_image-Ends}
use xnu_uboot_arm.Loader.Macho
use xnu_uboot_arm.Loader.Macho.{loaded, not_loaded, load_macho}
use xnu_uboot_arm.Loader.Command.{
  is_kernel, is_driver, flags_of, load_address, setup_kernel, is_compressed, decomp_image,
  decomp_size, sanitize_name, sizeof_command, command_size, Unpacked, unpack, unpacked, refused,
  no_fuel, load_driver, load_kernel, place_image, load_image, load_macho_from_command,
}
use xnu_uboot_arm.Loader.Image.{
  table_of_contents_magic, command_macho, command_xml_device_tree, command_js_device_tree,
  sizeof_header, parse_tree, parse_xdt_command, parse_jsdt_command, run_command, run_commands,
  parse_table_of_contents, load_general_image,
}
use xnu_uboot_arm.Loader.Console.{do_imgx, do_rdx}

module _ (sv : Services) (rt : Runtime) where
  open sv use {World}

  -- A loaded device tree stands beside a kernel whose range is not null.
  abbrev pub IsConsistent : Loader World → Type 0
  IsConsistent s = s.has_device_tree ≡ true → rt.range_is_null s.kernel_range ≡ false

  abbrev SameTree : Loader World → Loader World → Type 0
  SameTree s s' = s'.has_device_tree ≡ s.has_device_tree

  abbrev SameKernel : Loader World → Loader World → Type 0
  SameKernel s s' = (s'.has_device_tree ≡ s.has_device_tree) × (s'.kernel_range ≡ s.kernel_range)

  module _ (f : Format) (board : Board) where
    load_driver-SameKernel :
        (p flags address size dest : ℕ) (s : Loader World)
        → Leaves (SameKernel s) (load_driver sv rt f board p flags address size dest s)
    unfolding load_driver increment_kernel_memory
    load_driver-SameKernel p flags address size dest s = ground arith

    load_kernel-SameTree :
        (p address : ℕ) (s : Loader World)
        → Leaves (SameTree s) (load_kernel sv rt f board p address s)
    unfolding load_kernel increment_kernel_memory
    load_kernel-SameTree p address s = ground arith

    place_image-SameTree :
        (p flags address size dest : ℕ) (s : Loader World)
        → Leaves (SameTree s) (place_image sv rt f board p flags address size dest s)
    unfolding place_image
    place_image-SameTree p flags address size dest s = ground (
      arith,
      load_driver-SameKernel p flags address size dest s,
      load_kernel-SameTree p address s,
    )

    place_image-SameKernel :
        (p flags address size dest : ℕ) (s : Loader World)
        → is_kernel flags ≡ false
        → Leaves (SameKernel s) (place_image sv rt f board p flags address size dest s)
    unfolding place_image
    place_image-SameKernel p flags address size dest s h =
        ground (arith, load_driver-SameKernel p flags address size dest s)

    load_image-SameTree :
        (p flags address size : ℕ) (s : Loader World)
        → Leaves (SameTree s) (load_image sv rt f board p flags address size s)
    load_image-SameTree p flags address size s =
        load_image-Ends sv rt f board (λ ret. SameTree s) p flags address size s
          (λ a n d m w. place_image-SameTree p flags a n d (record s { ram = m; world = w }))
          (λ w. refl)

    load_image-SameKernel :
        (p flags address size : ℕ) (s : Loader World)
        → is_kernel flags ≡ false
        → Leaves (SameKernel s) (load_image sv rt f board p flags address size s)
    load_image-SameKernel p flags address size s h =
        load_image-Ends sv rt f board (λ ret. SameKernel s) p flags address size s
          (λ a n d m w. place_image-SameKernel p flags a n d (record s { ram = m; world = w }) h)
          (λ w. (refl, refl))

    -- A kernel's set-up leaves no device tree.
    setup_kernel-no_tree :
        (p : ℕ) (s : Loader World)
        → IsConsistent s
        → (setup_kernel sv rt f board p s).1.has_device_tree ≡ false
    unfolding setup_kernel teardown_old_loader_context
    setup_kernel-no_tree p s c = ground (arith, c)

    pub load_macho_from_command-IsConsistent :
        (p : ℕ) (s : Loader World)
        → IsConsistent s
        → Leaves IsConsistent (load_macho_from_command sv rt f board p s)
    unfolding load_macho_from_command
    load_macho_from_command-IsConsistent p s c = elim (Bool-cases (is_kernel flags)) [
      | inl kernel ↦ elim (Bool-cases (setup_kernel sv rt f board p named).0) [
        | inl ready ↦
            rw (kernel, ready, load_macho_from_command)
              (Leaves-map (SameTree set) IsConsistent _ (λ t same has. cc (no_tree, same, has))
                (load_image-SameTree p flags address blob set))
        | inr stuck ↦ rw (kernel, stuck, load_macho_from_command) (λ has. cc (no_tree, has))
      ]
      | inr other ↦ elim (Bool-cases (assert_kernel_load sv rt named)) [
        | inl ready ↦
            rw (other, ready, load_macho_from_command)
              (Leaves-map (SameKernel named) IsConsistent _
                (λ t same has. rw same.1 (c (sym same.0 ∙ has)))
                (load_image-SameKernel p flags address blob named other))
        | inr stuck ↦ rw (other, stuck, load_macho_from_command) c
      ]
    ]
      where
        flags : ℕ
        flags = flags_of s.ram p

        address : ℕ
        address = add32 p sizeof_command

        blob : ℕ
        blob = sub32 (command_size s.ram p) sizeof_command

        named : Loader World
        named = record s { ram = sanitize_name p s.ram }

        set : Loader World
        set = (setup_kernel sv rt f board p named).1

        no_tree : set.has_device_tree ≡ false
        no_tree = setup_kernel-no_tree p named c
