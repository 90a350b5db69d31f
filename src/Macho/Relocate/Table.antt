-- ===== src/Macho/Relocate/Table.antt =====
-- Relocation of an executable against its table as it was before the first word was slid.
use xnu_uboot_arm.Base.{
  ℕ, zero, suc, ◌+◌, ◌<◌, ◌≤◌, ◌≡◌, ◌≢◌, ◌⊎◌, inl, inr, refl, true, false, ltb, List, [], ◌∷◌,
  add32, word, Ram, read32, read32-lt, read32-SameOutside, SameOutside, SameOutside-trans, arith,
}
use xnu_uboot_arm.Runtime.{Runtime, IsRuntime}
use xnu_uboot_arm.Macho.{Format, Context, success}
use xnu_uboot_arm.Macho.Relocate.{
  RelocFormat, Entry, slide, skip, refuse, Relocated, relocated, slide_word, executable_entry,
  relocate_entries, mach_file_relocate_executable,
}
use xnu_uboot_arm.Macho.Relocate.Bounds.{
  Entry-cases, executable_entry-IsInside, slide_word-SameOutside,
}

-- The two words of an entry lie inside it.
pub record IsRelocFormat (g : RelocFormat) : Type 0 where
  pub address_inside : g.reloc_address + 4 ≤ g.reloc_size
  pub info_inside : g.reloc_info + 4 ≤ g.reloc_size

module _ (rt : Runtime) (f : Format) (g : RelocFormat) (file : Context) where
  -- The words are slid one after the other, up to the first entry that is refused.
  unfoldable pub apply_all : List Entry → Ram → Relocated
  apply_all [] m = relocated success m
  apply_all (refuse r ∷ es) m = relocated r m
  apply_all (skip ∷ es) m = apply_all es m
  apply_all (slide a ∷ es) m = apply_all es (slide_word rt f g file a m)

  -- The addresses of `n` entries from `rinfo` on.
  unfoldable pub entry_addresses : (n rinfo : ℕ) → List ℕ
  entry_addresses zero rinfo = []
  entry_addresses (suc n) rinfo = rinfo ∷ entry_addresses n (add32 rinfo g.reloc_size)

  unfoldable pub entries_of : Ram → List ℕ → List Entry
  entries_of m [] = []
  entries_of m (r ∷ rs) = executable_entry rt f g file r m ∷ entries_of m rs

  -- No byte of the entries is one that a relocation may write.
  abbrev pub AllOutside : List ℕ → Type 0
  AllOutside [] = Unit {0}
  AllOutside (r ∷ rs) =
      ((r + g.reloc_size ≤ file.base) ⊎ (file.base + (file.vmsize + 4) ≤ r)) × AllOutside rs

  module _ (laws : IsRuntime rt) (format : IsRelocFormat g)
      (in_memory : file.base + file.vmsize < word) (m0 : Ram) where
    executable_entry-same :
        (r : ℕ) (m : Ram)
        → (r + g.reloc_size ≤ file.base) ⊎ (file.base + (file.vmsize + 4) ≤ r)
        → SameOutside file.base (file.vmsize + 4) m0 m
        → executable_entry rt f g file r m ≡ executable_entry rt f g file r m0
    unfolding executable_entry
    executable_entry-same r m out same =
        let address : read32 m (r + g.reloc_address) ≡ read32 m0 (r + g.reloc_address) =
          read32-SameOutside file.base (file.vmsize + 4) m0 m (r + g.reloc_address) same
            (ground (arith, out, format.address_inside)) in
        let info : read32 m (r + g.reloc_info) ≡ read32 m0 (r + g.reloc_info) =
          read32-SameOutside file.base (file.vmsize + 4) m0 m (r + g.reloc_info) same
            (ground (arith, out, format.info_inside)) in
        rw (address, info)

    relocate_entries-apply_all :
        (fuel count i n rinfo : ℕ) (m : Ram)
        → (count + 4 ≤ file.base) ⊎ (file.base + (file.vmsize + 4) ≤ count)
        → i + n ≡ read32 m0 count
        → n < fuel
        → AllOutside (entry_addresses n rinfo)
        → SameOutside file.base (file.vmsize + 4) m0 m
        → relocate_entries rt f g file (executable_entry rt f g file) fuel count i rinfo m
          ≡ apply_all (entries_of m0 (entry_addresses n rinfo)) m
    unfolding relocate_entries apply_all entries_of entry_addresses
    relocate_entries-apply_all zero count i n rinfo m c e h out same = absurd (omega arith)
    relocate_entries-apply_all (suc fuel) count i zero rinfo m c e h out same =
        let fresh = read32-SameOutside file.base (file.vmsize + 4) m0 m count same c in
        let done : ltb i (read32 m count) ≡ false = ground arith in rw (done, relocate_entries)
    relocate_entries-apply_all (suc fuel) count i (suc n) rinfo m c e h out same =
        let fresh = read32-SameOutside file.base (file.vmsize + 4) m0 m count same c in
        let more : ltb i (read32 m count) ≡ true = ground arith in
        let old = executable_entry-same rinfo m out.0 same in
        elim (Entry-cases (executable_entry rt f g file rinfo m0)) [
          | inl (r, x) ↦ rw (more, old, x, relocate_entries, apply_all)
          | inr (inl x) ↦
              rw (more, old, x, relocate_entries, apply_all)
                (relocate_entries-apply_all fuel count (i + 1) n (add32 rinfo g.reloc_size) m c
                  (omega arith) (omega arith) out.1 same)
          | inr (inr (a, x)) ↦
              let inside = executable_entry-IsInside rt laws f g file in_memory rinfo m0 a x in
              rw (more, old, x, relocate_entries, apply_all)
                (relocate_entries-apply_all fuel count (i + 1) n (add32 rinfo g.reloc_size)
                  (slide_word rt f g file a m) c (omega arith) (omega arith) out.1
                  (SameOutside-trans file.base (file.vmsize + 4) m0 m _ same
                    (slide_word-SameOutside rt laws f g file in_memory a m inside)))
        ]

    abbrev pub count_address : ℕ
    count_address = file.dsymtab + g.dysymtab_nlocrel

    abbrev pub table : List ℕ
    table =
        entry_addresses (read32 m0 count_address)
          (rt.add_ptr2 file.file (read32 m0 (file.dsymtab + g.dysymtab_locreloff)))

    -- On an executable with a dynamic symbol table, whose relocation table and its count lie outside
    -- the image and the four bytes behind it, which do not wrap round the address space, the
    -- relocation slides the words of the table as it was at the start, one after the other, up to the
    -- first entry that is refused, whose code is the result.
    pub mach_file_relocate_executable-apply_all :
        file.filetype ≡ f.mh_execute
        → file.dsymtab ≢ 0
        → (count_address + 4 ≤ file.base) ⊎ (file.base + (file.vmsize + 4) ≤ count_address)
        → AllOutside table
        → mach_file_relocate_executable rt f g file m0 ≡ apply_all (entries_of m0 table) m0
    unfolding mach_file_relocate_executable
    mach_file_relocate_executable-apply_all execute has_symtab c out =
        let small = read32-lt m0 count_address in
        let run =
          relocate_entries-apply_all word count_address 0 (read32 m0 count_address)
            (rt.add_ptr2 file.file (read32 m0 (file.dsymtab + g.dysymtab_locreloff))) m0 c
            (omega arith) (omega arith) out (λ a o. refl) in
        ground (arith, run)
