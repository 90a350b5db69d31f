-- ===== src/Macho/Tests.antt =====
-- Runs of mach-o/macho.c on small images, and its theorems at them.
use xnu_uboot_arm.Base.{
  ℕ, ◌+◌, ◌%◌, ◌<◌, ◌≤◌, ◌≡◌, ◌⊎◌, inl, ◌||◌, refl, false, word, Ram, read8, read16, read32,
  write32, SameOutside, arith,
}
use xnu_uboot_arm.Runtime.Sample.{sample, sample-IsRuntime, holding}
use xnu_uboot_arm.Macho.{Context, ok, mach_file_init}
use xnu_uboot_arm.Macho.Sample.{macho32, macho32-IsFormat, blank, executable, object}
use xnu_uboot_arm.Macho.Size.{add_sections, size_command, size_commands, mach_file_vmsize}
use xnu_uboot_arm.Macho.Size.Total.{
  sum, keep, any, is_segment, is_symtab, vmsize_of, file_commands, object_size,
  mach_file_vmsize-execute, mach_file_vmsize-object,
}
use xnu_uboot_arm.Macho.Map.{map_executable, next}
use xnu_uboot_arm.Macho.Map.Segment.{
  after, vmsize, filesize, extent, source, target, prelink_segment, map_executable-placed,
}

abbrev program : Context
program = record blank { filetype = 2; file = 0x1000; vm_bias = 0x8000_0000 }

abbrev library : Context
library = record blank { filetype = 1; file = 0x1000 }

opened :
    mach_file_init macho32 (holding executable) blank 0x1000 ≡ ok (record program { vm_bias = 0 })
unfolding mach_file_init holding read32 read16 read8 write32
opened = refl

program_size : mach_file_vmsize sample macho32 (holding executable) program ≡ ok 8
unfolding mach_file_vmsize size_commands size_command holding read32 read16 read8 write32
program_size = refl

library_size : mach_file_vmsize sample macho32 (holding object) library ≡ ok 0x24
unfolding mach_file_vmsize size_commands size_command add_sections holding read32 read16 read8
    write32
library_size = refl

mach_file_vmsize-execute_example :
    mach_file_vmsize sample macho32 (holding executable) program
    ≡ ok (
        sum (vmsize_of sample macho32 (holding executable)) (
          keep
            (is_segment sample macho32 (holding executable))
            (file_commands sample macho32 (holding executable) 0x1000))
        % word)
mach_file_vmsize-execute_example =
    mach_file_vmsize-execute sample macho32 (holding executable) program macho32-IsFormat refl

mach_file_vmsize-object_example :
    mach_file_vmsize sample macho32 (holding object) library
    ≡ object_size sample macho32
        (holding object)
        library
        (keep
          (is_segment sample macho32 (holding object))
          (file_commands sample macho32 (holding object) 0x1000))
        (any
          (is_symtab sample macho32 (holding object))
          (file_commands sample macho32 (holding object) 0x1000))
mach_file_vmsize-object_example =
    mach_file_vmsize-object sample macho32 (holding object) library macho32-IsFormat refl

-- The arguments that the lemmas on a segment share.
abbrev image : Ram
image = holding executable

abbrev mapped_ram : Ram
mapped_ram = after sample sample-IsRuntime macho32 macho32-IsFormat program 0x101C 0x2000_0000 image

abbrev size : ℕ
size = vmsize sample sample-IsRuntime macho32 macho32-IsFormat program 0x101C 0x2000_0000 image

abbrev file_size : ℕ
file_size =
    filesize sample sample-IsRuntime macho32 macho32-IsFormat program 0x101C 0x2000_0000 image

abbrev from_address : ℕ
from_address =
    source sample sample-IsRuntime macho32 macho32-IsFormat program 0x101C 0x2000_0000 image

abbrev to_address : ℕ
to_address =
    target sample sample-IsRuntime macho32 macho32-IsFormat program 0x101C 0x2000_0000 image

fields : (size ≡ 8) × (file_size ≡ 4) × (from_address ≡ 0x1100) × (to_address ≡ 0x2000_0010)
unfolding holding read32 read16 read8 write32
fields = (refl, refl, refl, refl)

abbrev taken : ℕ
taken = extent sample sample-IsRuntime macho32 macho32-IsFormat program 0x101C 0x2000_0000 image

taken_lem : taken ≡ 8
unfolding holding read32 read16 read8 write32
taken_lem = refl

in_memory : to_address + taken ≤ word
in_memory = omega (arith, fields, taken_lem)

clear : (0x101C + 56 ≤ to_address) ⊎ (to_address + taken ≤ 0x101C)
clear = inl (omega (arith, fields))

map_executable-placed_example :
    (map_executable sample macho32 program 0x101C 0x2000_0000 0 image
      ≡ next
          (record program {
            is_prelinked =
                false
                || prelink_segment sample sample-IsRuntime macho32 macho32-IsFormat program 0x101C
                    0x2000_0000 image in_memory clear;
          })
          1
          mapped_ram)
    × ((i : ℕ) → i < file_size → read8 mapped_ram (to_address + i) ≡ read8 image (from_address + i))
    × ((i : ℕ) → file_size ≤ i → i < size → read8 mapped_ram (to_address + i) ≡ 0)
    × SameOutside to_address taken image mapped_ram
map_executable-placed_example =
    map_executable-placed sample sample-IsRuntime macho32 macho32-IsFormat program 0x101C
      0x2000_0000 image in_memory clear 0 (inl (omega arith))
