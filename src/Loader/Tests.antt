-- ===== src/Loader/Tests.antt =====
-- Runs of main/loader.c on small images, and its theorems at them.
use xnu_uboot_arm.Base.{
  ℕ, ◌+◌, ◌-◌, ◌≡◌, refl, true, false, some, List, [], ◌∷◌, codes, strcmp_eq, if◌then◌else◌, Ram,
  read8, read16, read32, write8, write32, bcopy, arith,
}
use xnu_uboot_arm.Runtime.{range}
use xnu_uboot_arm.Runtime.Sample.{sample, sample-IsRuntime, holding}
use xnu_uboot_arm.Macho.Sample.{macho32, blank}
use xnu_uboot_arm.Loader.{
  TreeParse, Services, Board, Loader, Outcome, returned, halted, out_of_fuel,
  increment_kernel_memory, assert_kernel_load,
}
use xnu_uboot_arm.Loader.Command.{
  command_size, sizeof_command, load_macho_from_command, load_image, place_image, load_driver,
  driver_entry, sanitize_name,
}
use xnu_uboot_arm.Loader.Image.{
  run_command, run_commands, load_general_image, take_tree, parse_tree, parse_xdt_command,
  parse_table_of_contents,
}
use xnu_uboot_arm.Loader.Console.{do_imgx}
use xnu_uboot_arm.Loader.Ends.{Ends}
use xnu_uboot_arm.Loader.Failure.{OneMore, load_macho_from_command-OneMore}
use xnu_uboot_arm.Loader.Placement.{
  IsStacked, IsPlainDriver, DriverLoaded, named, load_macho_from_command-DriverLoaded,
}
use xnu_uboot_arm.Loader.Sequence.{Went, run_commands-Went}
use xnu_uboot_arm.Loader.Invariant.Console.{here, next, imgx, Reaches-IsConsistent}

-- An environment with the address and the size of the last file; the heap never runs out.
abbrev services : Services
services = record {
  World = Unit {0};
  malloc = λ size w. (true, w);
  free = λ w. w;
  setenv_hex = λ name value w. w;
  getenv =
      λ name w. if strcmp_eq name (codes "fileaddr") then some (codes "a") else some (codes "s");
  simple_strtoul = λ text base.
      if strcmp_eq text (codes "a")
      then 0x2000_0000
      else if strcmp_eq text (codes "s")
      then 2048
      else 0x4000;
  dt_finalize = λ w. w;
  parse_xml_device_tree = λ p m w. TreeParse.parsed true m w;
  parse_jsdt_device_tree = λ p m w. TreeParse.parsed true m w;
  qlz_size_decompressed = λ m p. 0;
  qlz_decompress = λ src dst m. m;
}

abbrev board : Board
board = record {
  nr_dram_banks = 1;
  dram_start = 0x2000_0000;
  driver_image_size = 84;
  qlz_state_size = 64;
  stack_context = blank;
  stack_text_buf = λ a. 0;
}

-- At 0x4000 a table of contents of two commands, a driver of 16 bytes and an XML device tree; an
-- HFS+ volume at 0x2000_0000.
abbrev image : Ram
image = holding (
    (0x4000, 0x4366_6F54)
    ∷ (0x4004, 2)
    ∷ (0x4008, 0x6863_614D)
    ∷ (0x400C, 104)
    ∷ (0x401C, 1)
    ∷ (0x4060, 0xFEED_FACE)
    ∷ (0x4070, 0x5444_2D58)
    ∷ (0x4074, 8)
    ∷ (0x2000_0400, 0x2B48)
    ∷ [])

abbrev before : Loader (Unit {0})
before = record {
  drivers = [];
  kernel_range = range 0x8000 0x1000;
  ramdisk_range = range 0 0;
  entry_point = 0x8000;
  memory_top = 0x9000;
  virtual_base = 0x8000_0000;
  physical_base = 0;
  has_device_tree = false;
  ram = image;
  world = tt;
}

abbrev state_of : Outcome (Unit {0}) → Loader (Unit {0})
state_of (returned ret s) = s
state_of halted = before
state_of out_of_fuel = before

-- What the table of contents leaves.
abbrev loaded_both : Loader (Unit {0})
loaded_both = state_of (run_commands services sample macho32 board 2 0x4008 before)

runs_both : run_commands services sample macho32 board 2 0x4008 before ≡ returned 0 loaded_both
unfolding run_commands run_command load_macho_from_command load_image place_image load_driver
    driver_entry sanitize_name assert_kernel_load increment_kernel_memory parse_xdt_command
    parse_tree take_tree holding read32 read16 read8 write8 write32 bcopy
runs_both = refl

run_commands-Went_example : Went services sample macho32 board 2 0x4008 before 0 loaded_both
run_commands-Went_example =
    run_commands-Went services sample macho32 board 2 0x4008 before runs_both

abbrev imgx_argv : List (List ℕ)
imgx_argv = codes "imgx" ∷ codes "toc" ∷ []

runs_imgx : do_imgx services sample macho32 board imgx_argv before ≡ returned 0 loaded_both
unfolding do_imgx strcmp_eq load_general_image parse_table_of_contents run_commands run_command
    load_macho_from_command load_image place_image load_driver driver_entry sanitize_name
    assert_kernel_load increment_kernel_memory parse_xdt_command parse_tree take_tree holding read32
    read16 read8 write8 write32 bcopy
runs_imgx = refl

has_tree : loaded_both.has_device_tree ≡ true
unfolding run_commands run_command load_macho_from_command load_image place_image load_driver
    driver_entry sanitize_name assert_kernel_load increment_kernel_memory parse_xdt_command
    parse_tree take_tree holding read32 read16 read8 write8 write32 bcopy
has_tree = refl

Reaches-IsConsistent_example : sample.range_is_null loaded_both.kernel_range ≡ false
Reaches-IsConsistent_example =
    Reaches-IsConsistent services sample macho32 board refl (next here (imgx imgx_argv 0 runs_imgx))
      has_tree

is_plain_driver : IsPlainDriver services sample sample-IsRuntime macho32 board 0x4008 before
unfolding holding read32 read16 read8 write32
is_plain_driver = record {
  driver = refl;
  no_kernel = refl;
  plain = refl;
  has_plist = refl;
  long_enough = omega arith;
  offset_inside = omega arith;
  in_memory = omega arith;
  room = omega arith;
}

load_macho_from_command-DriverLoaded_example :
    (s' : Loader (Unit {0})) × (load_macho_from_command services sample macho32 board 0x4008 before
      ≡ returned 0 s')
    × DriverLoaded services sample sample-IsRuntime macho32 board 0x4008
        (0x4008 + sizeof_command)
        (command_size image 0x4008 - sizeof_command)
        (named services sample sample-IsRuntime macho32 board 0x4008 before)
        s'
    × IsStacked s'.memory_top s'.drivers
load_macho_from_command-DriverLoaded_example =
    load_macho_from_command-DriverLoaded services sample sample-IsRuntime macho32 board 0x4008
      before is_plain_driver refl refl tt

load_macho_from_command-OneMore_example :
    Ends
      (OneMore services sample macho32 board before)
      (load_macho_from_command services sample macho32 board 0x4008 before)
load_macho_from_command-OneMore_example =
    load_macho_from_command-OneMore services sample macho32 board 0x4008 before
      is_plain_driver.no_kernel

-- The last file stands at the top of the kernel's memory.
abbrev at_top : Loader (Unit {0})
at_top = record before { memory_top = 0x2000_0000 }
