-- ===== src/Loader.antt =====
-- main/loader.c: the globals of the loader, and what it calls outside itself.
pub mod Macho
pub mod Command
pub mod Image
pub mod Console
pub mod Ends
pub mod Invariant
pub mod Failure
pub mod Total
pub mod Placement
pub mod Sequence
pub mod Ramdisk
mod Tests
use xnu_uboot_arm.Base.{
  ℕ, zero, suc, ◌+◌, Bool, true, false, List, [], ◌∷◌, Option, not, if◌then◌else◌, add32, codes,
  Ram,
}
use xnu_uboot_arm.Runtime.{Range, range, Runtime}
use xnu_uboot_arm.Macho.{Format, Context}

-- NAME_LEN and DRIVER_PAD_START
abbrev pub name_len : ℕ
name_len = 64

abbrev pub driver_pad_start : ℕ
driver_pad_start = 256

-- `loaded_driver_image_t`; the list of the loaded images is a list of these, the head first.
pub record Driver : Type 0 where
  pub range : Range
  pub info_offset : ℕ
  pub has_exec : Bool
  pub name : List ℕ

-- How a parser of device trees ends: it returns whether there was a tree, with what it has written;
-- a failed `assert`, a panic or a null pointer stops the machine; or it never ends.
pub data TreeParse (W : Type 0) : Type 0 where
  parsed : (done : Bool) → Ram → W → TreeParse W
  stopped : TreeParse W
  endless : TreeParse W

-- What loader.c reaches outside itself: U-Boot, the C heap, the device tree and its parsers, the
-- QuickLZ library. `World` is the state of all of these; the parsers may write into memory.
pub record Services : Type 1 where
  pub World : Type 0
  pub malloc : ℕ → World → Bool × World
  pub free : World → World
  pub setenv_hex : List ℕ → ℕ → World → World
  pub getenv : List ℕ → World → Option (List ℕ)
  pub simple_strtoul : List ℕ → ℕ → ℕ
  pub dt_finalize : World → World
  pub parse_xml_device_tree : ℕ → Ram → World → TreeParse World
  pub parse_jsdt_device_tree : ℕ → Ram → World → TreeParse World
  pub qlz_size_decompressed : Ram → ℕ → ℕ
  pub qlz_decompress : (src dst : ℕ) → Ram → Ram

-- The board, and what is on the stack where the code leaves a variable uninitialised.
pub record Board : Type 0 where
  pub nr_dram_banks : ℕ
  pub dram_start : ℕ
  pub driver_image_size : ℕ
  pub qlz_state_size : ℕ
  pub stack_context : Context
  pub stack_text_buf : ℕ → ℕ

-- The globals, the memory and the world.
pub record Loader (W : Type 0) : Type 0 where
  pub drivers : List Driver
  pub kernel_range : Range
  pub ramdisk_range : Range
  pub entry_point : ℕ
  pub memory_top : ℕ
  pub virtual_base : ℕ
  pub physical_base : ℕ
  pub has_device_tree : Bool
  pub ram : Ram
  pub world : W

-- A function returns a code, with zero for success; it stops the machine by a failed `assert`; or
-- a loop of it has run out of the fuel that the model gives.
pub data Outcome (W : Type 0) : Type 0 where
  returned : (ret : ℕ) → Loader W → Outcome W
  halted : Outcome W
  out_of_fuel : Outcome W

module _ (sv : Services) where
  open sv use {World}

  unfoldable pub free_all : List Driver → World → World
  free_all [] w = w
  free_all (d ∷ ds) w = free_all ds (sv.free w)

  unfoldable pub teardown_loaded_driver_images : Loader World → Loader World
  unfolding free_all
  teardown_loaded_driver_images s = record s { drivers = []; world = free_all s.drivers s.world }

  module _ (rt : Runtime) where
    unfoldable pub assert_kernel_load : Loader World → Bool
    assert_kernel_load s = not (rt.range_is_null s.kernel_range)

    unfoldable pub teardown_old_loader_context : Loader World → Loader World
    unfolding teardown_loaded_driver_images
    teardown_old_loader_context s = teardown_loaded_driver_images (record s {
      world = if s.has_device_tree then sv.dt_finalize s.world else s.world;
      has_device_tree = false;
      memory_top = 0;
      physical_base = 0;
      virtual_base = 0;
      kernel_range = rt.zero_range s.kernel_range;
      ramdisk_range = rt.zero_range s.ramdisk_range;
    })

    unfoldable pub increment_kernel_memory : ℕ → Loader World → Loader World
    increment_kernel_memory by s =
        let top = add32 s.memory_top (rt.align_up by 0x1000) in
        record s { memory_top = top; world = sv.setenv_hex (codes "KernelMemoryTop") top s.world }
