-- ===== src/Macho/Map/Total.antt =====
-- `mach_file_map` ends: its loop counter stays below a 32-bit number.
use xnu_uboot_arm.Base.{
  ℕ, zero, suc, ◌+◌, ◌<◌, ◌≡◌, refl, ◌⊎◌, ◌≢◌, ltb, Bool-cases, inl, inr, word, Ram, read32,
  read32-lt, arith,
}
use xnu_uboot_arm.Runtime.{Runtime}
use xnu_uboot_arm.Macho.{Format, Context, LoaderReturn}
use xnu_uboot_arm.Macho.Map.{
  Step, next, stop, out_of_fuel, map_command, map_commands, mach_file_map,
}

Step-cases :
    (s : Step)
    → ((r : LoaderReturn) × (file : Context) × (m : Ram) × (s ≡ stop r file m))
      ⊎ ((file : Context) × (k : ℕ) × (m : Ram) × (s ≡ next file k m))
Step-cases (stop r file m) = inl (r, file, m, refl)
Step-cases (next file k m) = inr (file, k, m, refl)

module _ (rt : Runtime) (f : Format) (head load_addr vmsize : ℕ) where
  map_commands-ne-out_of_fuel :
      (fuel : ℕ) (file : Context) (i lcp k : ℕ) (m : Ram)
      → i < word
      → i + fuel ≡ word
      → map_commands rt f fuel head load_addr vmsize file i lcp k m ≢ out_of_fuel
  unfolding map_commands
  map_commands-ne-out_of_fuel zero file i lcp k m h e = absurd (omega arith)
  map_commands-ne-out_of_fuel (suc fuel) file i lcp k m h e =
      elim (Bool-cases (ltb i (read32 m (head + f.head_ncmds)))) [
        | inr done ↦ rw (done, map_commands) cc
        | inl more ↦
            let below = read32-lt m (head + f.head_ncmds) in
            let room : i + 1 < word = ground arith in
            elim (Step-cases (map_command rt f file lcp load_addr k m)) [
              | inl (r, file', m', ends) ↦ rw (more, ends, map_commands) cc
              | inr (file', k', m', goes) ↦
                  rw (more, goes, map_commands)
                    (map_commands-ne-out_of_fuel fuel file' (i + 1)
                      (rt.add_ptr2 lcp (read32 m' (lcp + f.lc_cmdsize))) k' m' room (omega arith))
            ]
      ]

-- Whatever the image, the walk over its load commands ends: `mach_file_map` returns.
pub mach_file_map-ne-out_of_fuel :
    (rt : Runtime) (f : Format) (file : Context) (load_addr vmsize : ℕ) (m : Ram)
    → mach_file_map rt f file load_addr vmsize m ≢ out_of_fuel
unfolding mach_file_map
mach_file_map-ne-out_of_fuel rt f file load_addr vmsize m =
    map_commands-ne-out_of_fuel rt f file.file load_addr vmsize word file 0
      (file.file + f.header_size) 0 m (omega arith) (omega arith)
