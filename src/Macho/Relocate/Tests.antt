-- ===== src/Macho/Relocate/Tests.antt =====
-- A run of the relocation of an executable, and its theorems at it.
use xnu_uboot_arm.Base.{
  ℕ, ◌+◌, ◌/◌, ◌%◌, ◌^◌, ◌≡◌, inl, refl, ◌==◌, [], ◌∷◌, Ram, read8, read16, read32, write32, arith,
}
use xnu_uboot_arm.Runtime.Sample.{sample, sample-IsRuntime, holding}
use xnu_uboot_arm.Macho.{Context}
use xnu_uboot_arm.Macho.Sample.{macho32, blank}
use xnu_uboot_arm.Macho.Relocate.{
  RelocFormat, Relocated, relocated, out_of_fuel, mach_file_relocate_object,
  mach_file_relocate_executable, relocate_entries, executable_entry, is_bad_addr, slide_word,
}
use xnu_uboot_arm.Macho.Relocate.Bounds.{
  Confined, mach_file_relocate_object-Confined, mach_file_relocate_executable-Confined,
}
use xnu_uboot_arm.Macho.Relocate.Table.{
  IsRelocFormat, AllOutside, apply_all, entries_of, entry_addresses, table,
  mach_file_relocate_executable-apply_all,
}

abbrev reloc32 : RelocFormat
reloc32 = record {
  reloc_size = 8;
  reloc_address = 0;
  reloc_info = 4;
  r_symbolnum = λ info. info % 2 ^ 24;
  r_pcrel = λ info. info / 2 ^ 24 % 2 == 1;
  r_length = λ info. info / 2 ^ 25 % 4;
  r_extern = λ info. info / 2 ^ 27 % 2 == 1;
  r_type = λ info. info / 2 ^ 28;
  sect_reloff = 48;
  sect_nreloc = 52;
  dysymtab_locreloff = 72;
  dysymtab_nlocrel = 76;
  r_scattered = 0x8000_0000;
  generic_reloc_vanilla = 0;
  r_abs = 0;
}

reloc32-IsRelocFormat : IsRelocFormat reloc32
reloc32-IsRelocFormat = record { address_inside = omega arith; info_inside = omega arith }

-- A file at 0x1000 with its `dysymtab` at 0x1054 and one entry at 0x1100, for the word at offset 4 of
-- the image at 0x2000_0000.
abbrev image : Ram
image = holding (
    (0x1054 + 72, 0x100)
    ∷ (0x1054 + 76, 1)
    ∷ (0x1100, 4)
    ∷ (0x1104, 0x0400_0001)
    ∷ (0x2000_0004, 0x8000_1234)
    ∷ [])

abbrev program : Context
program = record blank {
  filetype = 2;
  file = 0x1000;
  base = 0x2000_0000;
  vmsize = 0x1000;
  loader_bias = 0xA000_0000;
  dsymtab = 0x1054;
}

abbrev library : Context
library = record program { filetype = 1; first_segment = 0x101C }

abbrev word_after : Relocated → ℕ
word_after (relocated r m) = read32 m 0x2000_0004
word_after out_of_fuel = 0

slid : word_after (mach_file_relocate_executable sample macho32 reloc32 program image) ≡ 0x2000_1234
unfolding mach_file_relocate_executable relocate_entries executable_entry is_bad_addr slide_word
    holding read32 read16 read8 write32
slid = refl

mach_file_relocate_object-Confined_example :
    Confined sample sample-IsRuntime macho32 reloc32 library
      (omega arith)
      image
      (mach_file_relocate_object sample macho32 reloc32 library image)
mach_file_relocate_object-Confined_example =
    mach_file_relocate_object-Confined sample sample-IsRuntime macho32 reloc32 library (omega arith)
      image

mach_file_relocate_executable-Confined_example :
    Confined sample sample-IsRuntime macho32 reloc32 program
      (omega arith)
      image
      (mach_file_relocate_executable sample macho32 reloc32 program image)
mach_file_relocate_executable-Confined_example =
    mach_file_relocate_executable-Confined sample sample-IsRuntime macho32 reloc32 program
      (omega arith) image

outside : AllOutside sample macho32 reloc32 program (
    table sample macho32 reloc32 program sample-IsRuntime reloc32-IsRelocFormat (omega arith) image)
unfolding entry_addresses holding read32 read16 read8 write32
outside = (inl (omega arith), tt)

mach_file_relocate_executable-apply_all_example :
    mach_file_relocate_executable sample macho32 reloc32 program image
    ≡ apply_all sample macho32 reloc32 program
        (entries_of sample macho32 reloc32 program image (
          table sample macho32 reloc32 program sample-IsRuntime reloc32-IsRelocFormat
            (omega arith)
            image))
        image
mach_file_relocate_executable-apply_all_example =
    mach_file_relocate_executable-apply_all sample macho32 reloc32 program sample-IsRuntime
      reloc32-IsRelocFormat (omega arith) image refl (omega arith) (inl (omega arith)) outside
