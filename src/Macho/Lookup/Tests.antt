-- ===== src/Macho/Lookup/Tests.antt =====
-- A lookup in a table of two exported symbols, and its theorem at it.
use Prim.Native.Nat.{lt}
use xnu_uboot_arm.Base.{
  ℕ, zero, suc, ◌<◌, ◌≡◌, refl, some, [], ◌∷◌, get_or, codes, arith, Ram, read8, read16, read32,
  write32,
}
use xnu_uboot_arm.Runtime.Sample.{holding}
use xnu_uboot_arm.Symbols.{Name, strcmp, search_loop}
use xnu_uboot_arm.Symbols.Search.{IsSorted}
use xnu_uboot_arm.Macho.{Context}
use xnu_uboot_arm.Macho.Sample.{macho32, blank}
use xnu_uboot_arm.Macho.Lookup.{
  SymbolFormat, string_in, located, symbol_address, symbol_name, symtab_loop, symtab_find_symbol,
  first_exported, exported, exported_name, rebased, mach_file_find_symbol, IsSearchable, IsLookup,
  mach_file_find_symbol-IsLookup,
}

abbrev symbols32 : SymbolFormat
symbols32 = record {
  dysym_tocoff = 32;
  dysym_iextdefsym = 16;
  dysym_nextdefsym = 20;
  symtab_nsyms = 12;
  nlist_size = 12;
  n_strx = 0;
  n_type = 4;
  n_desc = 6;
  n_value = 8;
  n_stab = 0xE0;
  n_arm_thumb_def = 8;
}

-- The symbols _a and _b at 0x3000, the first of them in Thumb code.
abbrev memory : Ram
memory = holding (
    (0x100C, 2)
    ∷ (0x2014, 2)
    ∷ (0x3000, 4)
    ∷ (0x3004, 0x8_010F)
    ∷ (0x3008, 0x8000_0040)
    ∷ (0x300C, 8)
    ∷ (0x3014, 0x8000_0080)
    ∷ (0x4004, 0x615F)
    ∷ (0x4008, 0x625F)
    ∷ [])

abbrev program : Context
program = record blank {
  filetype = 2;
  file = 0x1000;
  symtab = 0x1000;
  dsymtab = 0x2000;
  symbol_base = 0x3000;
  string_base = 0x4000;
  loader_bias = 0x10;
}

abbrev name : ℕ → Name
name i = get_or (codes "_a" ∷ codes "_b" ∷ []) i []

looks_up : mach_file_find_symbol symbols32 memory program macho32 (codes "_b") ≡ located 0x8000_0090
unfolding mach_file_find_symbol search_loop strcmp exported exported_name first_exported symbol_name
    symbol_address string_in rebased holding read32 read16 read8 write32
looks_up = refl

finds_thumb : symtab_find_symbol symbols32 memory program 0x8000_0041 ≡ some 0x3000
unfolding symtab_find_symbol symtab_loop symbol_address holding read32 read16 read8 write32
finds_thumb = refl

searchable : IsSearchable symbols32 memory program macho32
unfolding holding read32 read16 read8 write32
searchable = record {
  executable = refl;
  dynamic = refl;
  strings = refl;
  symbols = refl;
  no_contents = refl;
}

sorted : IsSorted (exported_name symbols32 memory program) name (exported symbols32 memory program)
unfolding strcmp exported exported_name first_exported symbol_name symbol_address string_in holding
    read32 read16 read8 write32
sorted = record { reads = reads; rises = rises }
  where
    reads :
        (i : ℕ)
        → i < exported symbols32 memory program
        → exported_name symbols32 memory program i ≡ some (name i)
    reads zero h = refl
    reads (suc zero) h = refl
    reads (suc (suc i)) h = absurd (omega (arith, h))

    rises :
        (i j : ℕ) → i < j → j < exported symbols32 memory program → strcmp (name i) (name j) ≡ lt
    rises zero (suc zero) h k = refl
    rises i zero h k = absurd (omega (arith, h))
    rises (suc i) (suc zero) h k = absurd (omega (arith, h))
    rises i (suc (suc j)) h k = absurd (omega (arith, k))

mach_file_find_symbol-IsLookup_example :
    IsLookup symbols32 memory program
      (codes "_b")
      name
      (mach_file_find_symbol symbols32 memory program macho32 (codes "_b"))
mach_file_find_symbol-IsLookup_example =
    mach_file_find_symbol-IsLookup symbols32 memory program macho32 (codes "_b") name searchable
      sorted
