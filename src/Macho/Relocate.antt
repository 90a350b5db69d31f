-- ===== src/Macho/Relocate.antt =====
-- The relocation of a mapped image, mach-o/macho.c: `_relocate_sect` and its two callers. The
-- structures of relocation stand in headers that the repository does not hold.
pub mod Bounds
pub mod Table
mod Tests
use xnu_uboot_arm.Base.{
  ℕ, zero, suc, ◌+◌, ◌*◌, Bool, true, false, ◌||◌, not, ltb, ◌==◌, if◌then◌else◌, add32, word,
  bit_and, Ram, read32, write32,
}
use xnu_uboot_arm.Runtime.{Runtime}
use xnu_uboot_arm.Macho.{
  Format, Context, LoaderReturn, success, badfiletype, exec_unsupported, badreloc, outofbounds,
}

-- A `struct relocation_info` is a word with the address, and a word that the bit fields are read of.
pub record RelocFormat : Type 0 where
  pub reloc_size : ℕ
  pub reloc_address : ℕ
  pub reloc_info : ℕ
  pub r_symbolnum : ℕ → ℕ
  pub r_pcrel : ℕ → Bool
  pub r_length : ℕ → ℕ
  pub r_extern : ℕ → Bool
  pub r_type : ℕ → ℕ
  -- struct section and struct dysymtab_command
  pub sect_reloff : ℕ
  pub sect_nreloc : ℕ
  pub dysymtab_locreloff : ℕ
  pub dysymtab_nlocrel : ℕ
  -- constants
  pub r_scattered : ℕ
  pub generic_reloc_vanilla : ℕ
  pub r_abs : ℕ

-- The outcome of one entry: the word at an address is to be slid, nothing is to be done, or the
-- function returns.
pub data Entry : Type 0 where
  slide : (address : ℕ) → Entry
  skip : Entry
  refuse : LoaderReturn → Entry

-- What a function of this file returns, with the memory that it leaves.
pub data Relocated : Type 0 where
  relocated : LoaderReturn → Ram → Relocated
  out_of_fuel : Relocated

module _ (rt : Runtime) (f : Format) (g : RelocFormat) (file : Context) where
  unfoldable pub is_bad_addr : (addr : ℕ) → Bool
  is_bad_addr addr = ltb addr file.base || ltb (rt.add_ptr2 file.base file.vmsize) addr

  abbrev pub is_scattered : (address : ℕ) → Bool
  is_scattered address = not (bit_and address g.r_scattered == 0)

  -- `*entry += (uint32_t)file->loader_bias`
  unfoldable pub slide_word : (address : ℕ) → Ram → Ram
  slide_word address m = write32 m address (add32 (read32 m address) file.loader_bias)

  -- The section with the given ordinal.
  abbrev pub sect_by_ordinal : (seg ordinal : ℕ) → ℕ
  sect_by_ordinal seg ordinal = add32 seg (f.segment_size + (ordinal * f.section_size))

  -- The body of the loop of `_relocate_sect`.
  unfoldable pub sect_entry : (sect rinfo : ℕ) → Ram → Entry
  sect_entry sect rinfo m =
      let address = read32 m (rinfo + g.reloc_address) in
      let info = read32 m (rinfo + g.reloc_info) in
      let entry = rt.add_ptr3 address (read32 m (sect + f.sect_addr)) file.base in
      if is_scattered address
      then refuse badreloc
      else if not (g.r_length info == 2)
      then refuse badreloc
      else if not (g.r_type info == g.generic_reloc_vanilla)
      then if g.r_pcrel info then skip else refuse badreloc
      else if is_bad_addr entry
      then refuse outofbounds
      else if g.r_extern info
      then refuse badreloc
      else if g.r_symbolnum info == g.r_abs
      then refuse badreloc
      else slide entry

  -- The body of the loop of `mach_file_relocate_executable`.
  unfoldable pub executable_entry : (rinfo : ℕ) → Ram → Entry
  executable_entry rinfo m =
      let address = read32 m (rinfo + g.reloc_address) in
      let info = read32 m (rinfo + g.reloc_info) in
      let pp = rt.add_ptr2 file.base address in
      if is_scattered address
      then refuse badreloc
      else if not (g.r_length info == 2)
      then refuse badreloc
      else if not (g.r_type info == g.generic_reloc_vanilla)
      then refuse badreloc
      else if g.r_symbolnum info == g.r_abs
      then refuse badreloc
      else if is_bad_addr pp
      then refuse outofbounds
      else slide pp

  -- A loop over the entries, round `i` at `rinfo`, with the entries' number read again in each
  -- round at `count`: the two loops of the file differ in the body alone.
  unfoldable pub relocate_entries :
      (entry : ℕ → Ram → Entry) → (fuel count i rinfo : ℕ) → Ram → Relocated
  relocate_entries entry zero count i rinfo m = out_of_fuel
  relocate_entries entry (suc fuel) count i rinfo m = elim (ltb i (read32 m count)) [
    | false ↦ relocated success m
    | true ↦ elim (entry rinfo m) [
      | refuse r ↦ relocated r m
      | skip ↦ relocate_entries entry fuel count (i + 1) (add32 rinfo g.reloc_size) m
      | slide address ↦
          relocate_entries entry fuel count (i + 1) (add32 rinfo g.reloc_size)
            (slide_word address m)
    ]
  ]

  -- The section has ordinal `ordinal + 1`.
  unfoldable pub relocate_sect : (seg ordinal : ℕ) → Ram → Relocated
  relocate_sect seg ordinal m =
      let sect = sect_by_ordinal seg ordinal in
      relocate_entries (sect_entry sect) word (sect + g.sect_nreloc) 0
        (rt.add_ptr2 file.file (read32 m (sect + g.sect_reloff))) m

  unfoldable pub relocate_sects : (fuel cmd i : ℕ) → Ram → Relocated
  relocate_sects zero cmd i m = out_of_fuel
  relocate_sects (suc fuel) cmd i m = elim (ltb i (read32 m (cmd + f.seg_nsects))) [
    | false ↦ relocated success m
    | true ↦ elim (relocate_sect cmd i m) [
      | out_of_fuel ↦ out_of_fuel
      | relocated success m' ↦ relocate_sects fuel cmd (i + 1) m'
      | relocated r m' ↦ relocated r m'
    ]
  ]

  unfoldable pub mach_file_relocate_object : Ram → Relocated
  mach_file_relocate_object m =
      if file.filetype == f.mh_object
      then relocate_sects word file.first_segment 0 m
      else relocated badfiletype m

  unfoldable pub mach_file_relocate_executable : Ram → Relocated
  mach_file_relocate_executable m =
      if file.filetype == f.mh_execute
      then if file.dsymtab == 0
        then relocated exec_unsupported m
        else relocate_entries executable_entry word (file.dsymtab + g.dysymtab_nlocrel) 0
            (rt.add_ptr2 file.file (read32 m (file.dsymtab + g.dysymtab_locreloff))) m
      else relocated badfiletype m
