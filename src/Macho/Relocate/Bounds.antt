-- ===== src/Macho/Relocate/Bounds.antt =====
-- Relocation ends, and which bytes it may write.
use xnu_uboot_arm.Base.{
  ℕ, zero, suc, ◌+◌, ◌<◌, ◌≤◌, ◌≡◌, ◌⊎◌, inl, inr, refl, false, ltb, Bool-cases, add32, word, Ram,
  read32, read32-lt, SameOutside, SameOutside-trans, SameOutside-widen, write32-SameOutside, arith,
}
use xnu_uboot_arm.Runtime.{Runtime, IsRuntime}
use xnu_uboot_arm.Macho.{Format, Context, LoaderReturn, success}
use xnu_uboot_arm.Macho.Relocate.{
  RelocFormat, Entry, slide, skip, refuse, Relocated, relocated, out_of_fuel, is_bad_addr,
  slide_word, sect_entry, executable_entry, relocate_entries, relocate_sect, relocate_sects,
  sect_by_ordinal, mach_file_relocate_object, mach_file_relocate_executable,
}

pub Entry-cases :
    (e : Entry) → ((r : LoaderReturn) × (e ≡ refuse r)) ⊎ ((e ≡ skip) ⊎ ((a : ℕ) × (e ≡ slide a)))
Entry-cases (refuse r) = inl (r, refl)
Entry-cases skip = inr (inl refl)
Entry-cases (slide a) = inr (inr (a, refl))

module _ (rt : Runtime) (laws : IsRuntime rt) (f : Format) (g : RelocFormat) (file : Context)
    (in_memory : file.base + file.vmsize < word) where
  -- The function has returned, and of the memory only the mapped image and the four bytes behind it
  -- may have changed.
  abbrev pub Confined : Ram → Relocated → Type 0
  Confined m (relocated r m') = SameOutside file.base (file.vmsize + 4) m m'
  Confined m out_of_fuel = ⊥

  Confined-trans :
      (m m' : Ram) (o : Relocated)
      → SameOutside file.base (file.vmsize + 4) m m'
      → Confined m' o
      → Confined m o
  Confined-trans m m' (relocated r m'') p q =
      SameOutside-trans file.base (file.vmsize + 4) m m' m'' p q
  Confined-trans m m' out_of_fuel p q = q

  -- The address of a word that an entry slides lies in the image, or right behind it.
  abbrev pub IsInside : (ℕ → Ram → Entry) → Type 0
  IsInside entry =
      (r : ℕ) (m : Ram) (a : ℕ)
      → entry r m ≡ slide a
      → (file.base ≤ a) × (a ≤ file.base + file.vmsize)

  is_bad_addr-inside :
      (a : ℕ) → is_bad_addr rt f g file a ≡ false → (file.base ≤ a) × (a ≤ file.base + file.vmsize)
  unfolding is_bad_addr
  is_bad_addr-inside a h = ground (arith, laws.add_ptr2_lem file.base file.vmsize)

  sect_entry-IsInside : (sect : ℕ) → IsInside (sect_entry rt f g file sect)
  unfolding sect_entry
  sect_entry-IsInside sect r m a h = ground (arith, is_bad_addr-inside a)

  pub executable_entry-IsInside : IsInside (executable_entry rt f g file)
  unfolding executable_entry
  executable_entry-IsInside r m a h = ground (arith, is_bad_addr-inside a)

  pub slide_word-SameOutside :
      (a : ℕ) (m : Ram)
      → (file.base ≤ a) × (a ≤ file.base + file.vmsize)
      → SameOutside file.base (file.vmsize + 4) m (slide_word rt f g file a m)
  unfolding slide_word
  slide_word-SameOutside a m h =
      SameOutside-widen a 4 file.base (file.vmsize + 4) m _ h.0 (omega (arith, h.1))
        (write32-SameOutside m a _)

  relocate_entries-Confined :
      (entry : ℕ → Ram → Entry)
      → IsInside entry
      → (fuel count i rinfo : ℕ) (m : Ram) → i < word
      → i + fuel ≡ word
      → Confined m (relocate_entries rt f g file entry fuel count i rinfo m)
  unfolding relocate_entries
  relocate_entries-Confined entry inside zero count i rinfo m h e = absurd (omega arith)
  relocate_entries-Confined entry inside (suc fuel) count i rinfo m h e =
      elim (Bool-cases (ltb i (read32 m count))) [
        | inr done ↦ rw (done, relocate_entries) (λ a out. refl)
        | inl more ↦
            let below = read32-lt m count in
            let room : i + 1 < word = ground arith in
            elim (Entry-cases (entry rinfo m)) [
              | inl (r, c) ↦ rw (more, c, relocate_entries) (λ a out. refl)
              | inr (inl c) ↦
                  rw (more, c, relocate_entries)
                    (relocate_entries-Confined entry inside fuel count (i + 1)
                      (add32 rinfo g.reloc_size) m room (omega arith))
              | inr (inr (a, c)) ↦
                  rw (more, c, relocate_entries)
                    (Confined-trans m (slide_word rt f g file a m) _
                      (slide_word-SameOutside a m (inside rinfo m a c))
                      (relocate_entries-Confined entry inside fuel count (i + 1)
                        (add32 rinfo g.reloc_size) (slide_word rt f g file a m) room (omega arith)))
            ]
      ]

  relocate_sect-Confined : (seg i : ℕ) (m : Ram) → Confined m (relocate_sect rt f g file seg i m)
  unfolding relocate_sect
  relocate_sect-Confined seg i m =
      relocate_entries-Confined _ (sect_entry-IsInside (sect_by_ordinal rt f g file seg i)) word _ 0
        _ m (omega arith) (omega arith)

  relocate_sects-Confined :
      (fuel cmd i : ℕ) (m : Ram)
      → i < word
      → i + fuel ≡ word
      → Confined m (relocate_sects rt f g file fuel cmd i m)
  unfolding relocate_sects
  relocate_sects-Confined zero cmd i m h e = absurd (omega arith)
  relocate_sects-Confined (suc fuel) cmd i m h e =
      elim (Bool-cases (ltb i (read32 m (cmd + f.seg_nsects)))) [
        | inr done ↦ rw (done, relocate_sects) (λ a out. refl)
        | inl more ↦
            let below = read32-lt m (cmd + f.seg_nsects) in
            let room : i + 1 < word = ground arith in
            rw (more, relocate_sects)
              (go (relocate_sect rt f g file cmd i m) (relocate_sect-Confined cmd i m)
                (λ m'. relocate_sects-Confined fuel cmd (i + 1) m' room (omega arith)))
      ]
    where
      go :
          (o : Relocated)
          → Confined m o
          → ((m' : Ram) → Confined m' (relocate_sects rt f g file fuel cmd (i + 1) m'))
          → Confined m (elim o [
            | out_of_fuel ↦ out_of_fuel
            | relocated success m' ↦ relocate_sects rt f g file fuel cmd (i + 1) m'
            | relocated r m' ↦ relocated r m'
          ])
      go out_of_fuel p rest = p
      go (relocated success m') p rest = Confined-trans m m' _ p (rest m')
      go (relocated r m') p rest = p

  -- On an image that does not wrap round the address space, the relocation of an object file
  -- returns, whatever its entries say, and it writes at most to the mapped image and to the four
  -- bytes behind it.
  pub mach_file_relocate_object-Confined :
      (m : Ram) → Confined m (mach_file_relocate_object rt f g file m)
  unfolding mach_file_relocate_object
  mach_file_relocate_object-Confined m =
      ground (arith, relocate_sects-Confined word file.first_segment 0 m)

  -- On an image that does not wrap round the address space, the relocation of an executable
  -- returns, whatever its entries say, and it writes at most to the mapped image and to the four
  -- bytes behind it.
  pub mach_file_relocate_executable-Confined :
      (m : Ram) → Confined m (mach_file_relocate_executable rt f g file m)
  unfolding mach_file_relocate_executable
  mach_file_relocate_executable-Confined m = ground (
    arith,
    relocate_entries-Confined (executable_entry rt f g file) executable_entry-IsInside word
        (file.dsymtab + g.dysymtab_nlocrel) 0
        (rt.add_ptr2 file.file (read32 m (file.dsymtab + g.dysymtab_locreloff))) m,
  )
