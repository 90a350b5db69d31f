-- ===== src/Loader/Failure.antt =====
-- What a command leaves that loads no kernel, on every branch; and that every call ends.
use xnu_uboot_arm.Base.{
  ℕ, ◌≡◌, ◌⊎◌, inl, inr, refl, Bool, true, false, ◌&&◌, not, Bool-cases, ◌∷◌, ltb, if◌then◌else◌,
  add32, sub32, Ram, bcopy,
}
use xnu_uboot_arm.Runtime.{Runtime}
use xnu_uboot_arm.Macho.{Format}
use xnu_uboot_arm.Loader.{
  Services, Board, Loader, returned, halted, Driver, assert_kernel_load, increment_kernel_memory,
}
use xnu_uboot_arm.Loader.Command.{
  is_kernel, is_driver, is_compressed, is_no_exec, has_info_plist, info_offset, flags_of,
  sanitize_name, sizeof_command, command_size, driver_entry, load_driver, place_image,
  load_macho_from_command,
}
use xnu_uboot_arm.Loader.Ends.{Ends, load_image-Ends}

module _ (sv : Services) (rt : Runtime) (f : Format) (board : Board) where
  open sv use {World}

  -- The globals that only a kernel command may change.
  abbrev pub SameKernel : Loader World → Loader World → Type 0
  SameKernel s s' =
      (s'.kernel_range ≡ s.kernel_range)
      × (s'.ramdisk_range ≡ s.ramdisk_range)
      × (s'.entry_point ≡ s.entry_point)
      × (s'.virtual_base ≡ s.virtual_base)
      × (s'.physical_base ≡ s.physical_base)
      × (s'.has_device_tree ≡ s.has_device_tree)

  -- One driver more on success; on failure the list and the top of the memory as they were.
  abbrev pub OneMore : Loader World → ℕ → Loader World → Type 0
  OneMore s ret s' =
      SameKernel s s'
      × (((ret ≡ 0) × (d : Driver) × (s'.drivers ≡ d ∷ s.drivers))
          ⊎ ((ret ≡ 1) × (s'.drivers ≡ s.drivers) × (s'.memory_top ≡ s.memory_top)))

  load_driver-OneMore :
      (p flags address size dest : ℕ) (s : Loader World)
      → Ends (OneMore s) (load_driver sv rt f board p flags address size dest s)
  unfolding load_driver increment_kernel_memory
  load_driver-OneMore p flags address size dest s =
      choose (ltb size (info_offset s.ram p)) (sv.malloc board.driver_image_size s.world).0
        (is_no_exec flags && not (has_info_plist flags))
    where
      same : SameKernel s s
      same = (refl, refl, refl, refl, refl, refl)

      m : Ram
      m = if is_compressed flags then s.ram else bcopy s.ram address dest size

      copied : Loader World
      copied = record s { ram = m; world = (sv.malloc board.driver_image_size s.world).1 }

      entry : Driver
      entry = driver_entry sv rt f board p flags size copied

      choose :
          (a b c : Bool)
          → Ends (OneMore s) (
              if a
              then returned 1 s
              else if not b
              then halted
              else if c
              then returned 1 (record copied { world = sv.free copied.world })
              else returned 0 (
                  increment_kernel_memory sv rt entry.range.size
                    (record copied { drivers = entry ∷ s.drivers })))
      choose true b c = (same, inr (refl, refl, refl))
      choose false true true = ((refl, refl, refl, refl, refl, refl), inr (refl, refl, refl))
      choose false true false = ((refl, refl, refl, refl, refl, refl), inl (refl, entry, refl))
      choose false false c = tt

  place_image-OneMore :
      (p flags address size dest : ℕ) (s : Loader World)
      → is_kernel flags ≡ false
      → Ends (OneMore s) (place_image sv rt f board p flags address size dest s)
  unfolding place_image
  place_image-OneMore p flags address size dest s h = elim (Bool-cases (is_driver flags)) [
    | inl d ↦ rw (d, place_image) (load_driver-OneMore p flags address size dest s)
    | inr n ↦ rw (n, h, place_image) ((refl, refl, refl, refl, refl, refl), inr (refl, refl, refl))
  ]

  -- A command without the kernel flag that returns has either succeeded, and then the list has one
  -- driver more, or returned 1, and then the list and the top of the memory are as before. Either
  -- way the ranges of the kernel and of the ramdisk, the entry point, the bases and the mark of the
  -- device tree are as before.
  pub load_macho_from_command-OneMore :
      (p : ℕ) (s : Loader World)
      → is_kernel (flags_of s.ram p) ≡ false
      → Ends (OneMore s) (load_macho_from_command sv rt f board p s)
  unfolding load_macho_from_command
  load_macho_from_command-OneMore p s h = elim (Bool-cases (assert_kernel_load sv rt named)) [
    | inl ready ↦
        rw (h, ready, load_macho_from_command)
          (load_image-Ends sv rt f board (OneMore s) p (flags_of s.ram p) (add32 p sizeof_command)
            (sub32 (command_size s.ram p) sizeof_command) named
            (λ a n d m w.
              place_image-OneMore p (flags_of s.ram p) a n d (record s { ram = m; world = w }) h)
            (λ w. ((refl, refl, refl, refl, refl, refl), inr (refl, refl, refl))))
    | inr stuck ↦
        rw (h, stuck, load_macho_from_command)
          ((refl, refl, refl, refl, refl, refl), inr (refl, refl, refl))
  ]
    where
      named : Loader World
      named = record s { ram = sanitize_name p s.ram }
