-- ===== src/Loader/Placement.antt =====
-- Where a driver that is not compressed ends up, and what stays as it was.
use xnu_uboot_arm.Base.{
  ℕ, ◌+◌, ◌-◌, ◌%◌, ◌<◌, ◌≤◌, ◌≡◌, inl, refl, Bool, true, false, ◌&&◌, not, ltb, List, [], ◌∷◌,
  add32, sub32, word, Ram, read8, read32-lt, read32-SameOutside, write8, bcopy, bcopy-inside,
  bcopy-SameOutside, SameOutside, arith,
}
use xnu_uboot_arm.Runtime.{Range, Runtime, IsRuntime}
use xnu_uboot_arm.Macho.{Format}
use xnu_uboot_arm.Loader.{
  driver_pad_start, Driver, Services, Board, Loader, returned, assert_kernel_load,
  increment_kernel_memory,
}
use xnu_uboot_arm.Loader.Command.{
  is_driver, is_kernel, is_compressed, is_no_exec, has_info_plist, info_offset, flags_of,
  command_size, sizeof_command, sanitize_name, driver_entry, load_driver, place_image, load_image,
  load_macho_from_command,
}

-- The images of the list lie below `top`, each below the one loaded after it.
abbrev pub IsStacked : ℕ → List Driver → Type 0
IsStacked top [] = Unit {0}
IsStacked top (d ∷ ds) = (d.range.base + d.range.size ≤ top) × IsStacked d.range.base ds

module _ (sv : Services) (rt : Runtime) (laws : IsRuntime rt) where
  open sv use {World}

  -- A page at most is lost to the alignment, and the offset in the page stays.
  pub increment_kernel_memory-aligned :
      (by : ℕ) (s : Loader World)
      → s.memory_top + by + 0x1000 ≤ word
      → let top = (increment_kernel_memory sv rt by s).memory_top in
        (s.memory_top + by ≤ top)
        × (top < s.memory_top + by + 0x1000)
        × (top % 0x1000 ≡ s.memory_top % 0x1000)
  unfolding increment_kernel_memory
  increment_kernel_memory-aligned by s room =
      let ge = laws.align_up_ge by 12 (omega arith) in
      let lt = laws.align_up_lt by 12 (omega arith) in
      let page = laws.align_up_mod by 12 (omega arith) in omega arith

  module _ (f : Format) (board : Board) where
    -- What a driver of `size` bytes at `address` leaves, loaded from the command at `p`.
    pub record DriverLoaded (p address size : ℕ) (s s' : Loader World) : Type 0 where
      pub range : Range
      pub has_exec : Bool
      pub offset : ℕ
      pub name : List ℕ
      pub listed :
          s'.drivers
          ≡ record { range = range; info_offset = offset; has_exec = has_exec; name = name }
            ∷ s.drivers
      pub base_is : range.base ≡ s.memory_top
      pub size_is : range.size ≡ size + driver_pad_start
      pub stacked : range.base + range.size ≤ s'.memory_top
      pub copied :
          (i : ℕ)
          → i < size
          → read8 s'.ram (s.memory_top + driver_pad_start + i) ≡ read8 s.ram (address + i)
      pub same : SameOutside (s.memory_top + driver_pad_start) size s.ram s'.ram
      pub kernel : s'.kernel_range ≡ s.kernel_range
      pub tree : s'.has_device_tree ≡ s.has_device_tree
      pub ramdisk : s'.ramdisk_range ≡ s.ramdisk_range

    module _ (p address size : ℕ) (s : Loader World)
        (room : s.memory_top + size + driver_pad_start + 0x1000 ≤ word)
        (offset_inside : info_offset s.ram p ≤ size)
        (allocated : (sv.malloc board.driver_image_size s.world).0 ≡ true) where
      abbrev image_ram : Ram
      image_ram = bcopy s.ram address (s.memory_top + driver_pad_start) size

      abbrev image_state : Loader World
      image_state = record s {
        ram = image_ram;
        world = (sv.malloc board.driver_image_size s.world).1;
      }

      abbrev entry : (flags : ℕ) → Driver
      entry flags = driver_entry sv rt f board p flags size image_state

      abbrev final : (flags : ℕ) → Loader World
      final flags =
          increment_kernel_memory sv rt (add32 size driver_pad_start)
            (record image_state { drivers = entry flags ∷ s.drivers })

      final-DriverLoaded : (flags : ℕ) → DriverLoaded p address size s (final flags)
      unfolding increment_kernel_memory driver_entry
      final-DriverLoaded flags =
          let top =
            increment_kernel_memory-aligned (add32 size driver_pad_start)
              (record image_state { drivers = entry flags ∷ s.drivers }) (omega arith) in
          record {
            range = (entry flags).range;
            has_exec = (entry flags).has_exec;
            offset = (entry flags).info_offset;
            name = (entry flags).name;
            listed = refl;
            base_is = refl;
            size_is = omega arith;
            stacked = omega (arith, top.0);
            copied = λ i h. bcopy-inside s.ram address (s.memory_top + driver_pad_start) size i h;
            same = bcopy-SameOutside s.ram address (s.memory_top + driver_pad_start) size;
            kernel = refl;
            tree = refl;
            ramdisk = refl;
          }

      load_driver-final :
          (flags : ℕ)
          → is_compressed flags ≡ false
          → (is_no_exec flags && not (has_info_plist flags)) ≡ false
          → load_driver sv rt f board p flags address size (s.memory_top + driver_pad_start) s
            ≡ returned 0 (final flags)
      unfolding load_driver driver_entry
      load_driver-final flags plain valid =
          let inside : ltb size (info_offset s.ram p) ≡ false = ground arith in
          rw (inside, allocated, valid, plain, load_driver)

    sanitize_name-SameOutside : (p : ℕ) (m : Ram) → SameOutside (p + 87) 1 m (sanitize_name p m)
    unfolding sanitize_name write8 read8
    sanitize_name-SameOutside p m a out = ground arith

    IsStacked-lower :
        (ds : List Driver) (top top' : ℕ) → top ≤ top' → IsStacked top ds → IsStacked top' ds
    IsStacked-lower [] top top' h k = tt
    IsStacked-lower (d ∷ ds) top top' h k = (omega arith, k.1)

    DriverLoaded-IsStacked :
        (p address size : ℕ) (s s' : Loader World)
        → DriverLoaded p address size s s'
        → IsStacked s.memory_top s.drivers
        → IsStacked s'.memory_top s'.drivers
    DriverLoaded-IsStacked p address size s s' d below = rw d.listed (d.stacked, rw d.base_is below)

    module _ (p : ℕ) (s : Loader World) where
      -- A command for a driver that is stored as it is and that the checks of the loader accept. It
      -- does not check that the command is as long as its header, nor that the command and the image
      -- lie below the end of the address space.
      pub record IsPlainDriver : Type 0 where
        pub driver : is_driver (flags_of s.ram p) ≡ true
        pub no_kernel : is_kernel (flags_of s.ram p) ≡ false
        pub plain : is_compressed (flags_of s.ram p) ≡ false
        pub has_plist :
            (is_no_exec (flags_of s.ram p) && not (has_info_plist (flags_of s.ram p))) ≡ false
        pub long_enough : sizeof_command ≤ command_size s.ram p
        pub offset_inside : info_offset s.ram p + sizeof_command ≤ command_size s.ram p
        pub in_memory : p + sizeof_command < word
        pub room :
            s.memory_top + (command_size s.ram p - sizeof_command) + driver_pad_start + 0x1000
            ≤ word

      abbrev pub named : Loader World
      named = record s { ram = sanitize_name p s.ram }

      -- Beside a loaded kernel, and with the heap not exhausted, a command for a driver that is
      -- stored as it is, that is at least as long as its header and lies below the end of the
      -- address space, whose offset of a property list does not lead beyond the image, that has
      -- code or a property list, and for whose image, its pad and a page there is room above the
      -- top of the kernel's memory, is taken: the bytes of the image are copied behind a pad of
      -- 256 bytes at that top and nothing else is overwritten but the last byte of the name; it
      -- heads the list of drivers, whose images, if they were below one another, stay so; the new
      -- top lies beyond the image; the kernel, the ramdisk and the device tree stay.
      pub load_macho_from_command-DriverLoaded :
          IsPlainDriver
          → rt.range_is_null s.kernel_range ≡ false
          → (sv.malloc board.driver_image_size s.world).0 ≡ true
          → IsStacked s.memory_top s.drivers
          → (s' : Loader World) × (load_macho_from_command sv rt f board p s ≡ returned 0 s')
            × DriverLoaded p (p + sizeof_command) (command_size s.ram p - sizeof_command) named s'
            × IsStacked s'.memory_top s'.drivers
      unfolding load_macho_from_command load_image place_image assert_kernel_load
      load_macho_from_command-DriverLoaded d loaded allocated below = (
        final p address size named room offset allocated flags,
        runs,
        done,
        DriverLoaded-IsStacked p address size named _ done below,
      )
        where
          flags : ℕ
          flags = flags_of s.ram p

          address : ℕ
          address = p + sizeof_command

          size : ℕ
          size = command_size s.ram p - sizeof_command

          room : s.memory_top + size + driver_pad_start + 0x1000 ≤ word
          room = d.room

          same_offset : info_offset named.ram p ≡ info_offset s.ram p
          same_offset =
              read32-SameOutside (p + 87) 1 s.ram named.ram (p + 12)
                (sanitize_name-SameOutside p s.ram) (inl (omega arith))

          offset : info_offset named.ram p ≤ size
          offset = omega (arith, same_offset, d.offset_inside)

          done :
              DriverLoaded p address size named
                (final p address size named room offset allocated flags)
          done = final-DriverLoaded p address size named room offset allocated flags

          same_address : add32 p sizeof_command ≡ address
          same_address = omega (arith, d.in_memory)

          same_size : sub32 (command_size s.ram p) sizeof_command ≡ size
          same_size = omega (arith, d.long_enough, read32-lt s.ram (p + 4))

          same_dest : add32 s.memory_top driver_pad_start ≡ s.memory_top + driver_pad_start
          same_dest = omega (arith, d.room)

          runs :
              load_macho_from_command sv rt f board p s
              ≡ returned 0 (final p address size named room offset allocated flags)
          runs =
              rw
                (
                  d.no_kernel, load_macho_from_command, loaded, assert_kernel_load, same_address,
                  same_size, d.driver, d.plain, load_image, place_image, same_dest,
                )
                (load_driver-final p address size named room offset allocated flags d.plain
                  d.has_plist)
