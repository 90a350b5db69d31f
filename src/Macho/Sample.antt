-- ===== src/Macho/Sample.antt =====
-- The sizes, offsets and constants of 32-bit Mach-O on ARM.
use xnu_uboot_arm.Base.{ℕ, false, codes, arith, List, [], ◌∷◌}
use xnu_uboot_arm.Macho.{Format, IsFormat, Context}

abbrev pub macho32 : Format
macho32 = record {
  header_size = 28;
  segment_size = 56;
  section_size = 68;
  head_magic = 0;
  head_filetype = 12;
  head_ncmds = 16;
  lc_cmd = 0;
  lc_cmdsize = 4;
  seg_segname = 8;
  seg_vmaddr = 24;
  seg_vmsize = 28;
  seg_fileoff = 32;
  seg_filesize = 36;
  seg_nsects = 48;
  sect_addr = 32;
  sect_size = 36;
  sect_offset = 40;
  sect_flags = 56;
  thread_pc = 76;
  symtab_symoff = 8;
  symtab_stroff = 16;
  mh_magic = 0xFEED_FACE;
  mh_execute = 2;
  mh_object = 1;
  lc_segment = 1;
  lc_symtab = 2;
  lc_unixthread = 5;
  lc_dysymtab = 0xB;
  lc_dyld_info = 0x22;
  lc_dyld_info_only = 0x8000_0022;
  section_type = 0xFF;
  s_zerofill = 1;
  prelink_info_segment = codes "__PRELINK_INFO";
}

pub macho32-IsFormat : IsFormat macho32
macho32-IsFormat = record {
  execute-ne-object = omega arith;
  segment-ne-symtab = omega arith;
  vmsize_inside = omega arith;
  filesize_inside = omega arith;
}

-- What a fresh stack may hold.
abbrev pub blank : Context
blank = record {
  filetype = 0;
  file = 0;
  base = 0;
  vmsize = 0;
  vm_bias = 0;
  loader_bias = 0;
  entry_point = 0;
  is_prelinked = false;
  compressed = false;
  first_segment = 0;
  symtab = 0;
  dsymtab = 0;
  dyld_info = 0;
  string_base = 0;
  symbol_base = 0;
}

-- An executable at 0x1000: a segment of eight bytes, four of them from the file, to go to
-- 0x8000_0010 by its own address, and a thread command.
abbrev pub executable : List (ℕ × ℕ)
executable =
    (0x1000, 0xFEED_FACE)
    ∷ (0x100C, 2)
    ∷ (0x1010, 2)
    ∷ (0x101C, 1)
    ∷ (0x1020, 56)
    ∷ (0x1034, 0x8000_0010)
    ∷ (0x1038, 8)
    ∷ (0x103C, 0x100)
    ∷ (0x1040, 4)
    ∷ (0x1054, 5)
    ∷ (0x1058, 84)
    ∷ (0x10A0, 0x8000_0010)
    ∷ (0x1100, 0xE320_F000)
    ∷ []

-- An object file at 0x1000: one segment with a section of 0x24 bytes, and a symbol table.
abbrev pub object : List (ℕ × ℕ)
object =
    (0x1000, 0xFEED_FACE)
    ∷ (0x100C, 1)
    ∷ (0x1010, 2)
    ∷ (0x101C, 1)
    ∷ (0x1020, 124)
    ∷ (0x104C, 1)
    ∷ (0x1078, 0x24)
    ∷ (0x1098, 2)
    ∷ (0x109C, 24)
    ∷ []
