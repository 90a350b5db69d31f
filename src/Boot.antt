-- ===== src/Boot.antt =====
-- main/mach_boot.c and main/boot_args.h: the hand-over to the kernel. The state is what the command
-- reads and changes: the globals of the image loader, the region behind the kernel, the device tree
-- with the heap, and the memory.
pub mod Map
pub mod Start
pub mod Refusal
pub mod Counted
pub mod Entered
pub mod Started
pub mod Layout
mod Tests
use xnu_uboot_arm.Base.{
  ℕ, ◌+◌, ◌/◌, Bool, true, false, Option, none, some, List, [], ◌∷◌, ◌++◌, ◌==◌, if◌then◌else◌,
  codes, length, add32, sub32, le32, Ram, write8, write32,
}
use xnu_uboot_arm.Runtime.{Range, range}
use xnu_uboot_arm.Region.{Region}
use xnu_uboot_arm.DeviceTree.{DeviceTree}
use xnu_uboot_arm.Loader.{Driver}

pub record Boot (W : Type 0) : Type 0 where
  pub has_device_tree : Bool
  pub memory_top : ℕ
  pub virtual_base : ℕ
  pub physical_base : ℕ
  pub kernel_range : Range
  pub ramdisk_range : Range
  pub entry_point : ℕ
  pub drivers : List Driver
  pub kernel_mem : Region
  pub tree : DeviceTree W
  pub ram : Ram

-- What the file takes from outside: `%x` of the C library, the bytes of `iBoot_range`, which is not
-- initialised, and the address that `malloc` gives to a device tree that has no place of its own.
pub record Host : Type 0 where
  pub print_hex : ℕ → List ℕ
  pub stack_range : Range
  pub allocated : ℕ

-- How the command ends: it returns a code, a failed `assert` stops it, or the kernel runs, entered
-- with an address of its boot arguments.
pub data Ending (W : Type 0) : Type 0 where
  returned : (code : ℕ) → Boot W → Ending W
  halted : Ending W
  started : (entry_point boot_args : ℕ) → Boot W → Ending W

-- kDeviceTreeMagic, kBootArgsRevision, kBootArgsVersion3, sizeof(boot_args_t), sizeof(struct DriverInfo)
abbrev pub device_tree_magic : ℕ
device_tree_magic = 0xBABE_5A55

abbrev pub boot_args_revision : ℕ
boot_args_revision = 1

abbrev pub boot_args_version3 : ℕ
boot_args_version3 = 3

abbrev pub sizeof_boot_args : ℕ
sizeof_boot_args = 312

abbrev pub sizeof_driver_info : ℕ
sizeof_driver_info = 24

unfoldable pub write16 : Ram → ℕ → ℕ → Ram
write16 m p v = write8 (write8 m p v) (p + 1) (v / 256)

-- `strlen` of an array of bytes
unfoldable pub strlen : List ℕ → ℕ
strlen [] = 0
strlen (x ∷ xs) = let rest = strlen xs in if x == 0 then 0 else rest + 1

module _ {W : Type 0} where
  abbrev pub ptokv : Boot W → ℕ → ℕ
  ptokv s addr = add32 (sub32 addr s.physical_base) s.virtual_base

  abbrev pub kvtop : Boot W → ℕ → ℕ
  kvtop s addr = add32 (sub32 addr s.virtual_base) s.physical_base
