-- ===== src/Loader/Macho.antt =====
-- `load_macho`: the hand-over to the Mach-O loader.
use xnu_uboot_arm.Base.{ℕ, Ram}
use xnu_uboot_arm.Runtime.{Runtime}
use xnu_uboot_arm.Macho.{
  Format, Context, ok, fail, success, mach_file_init, mach_file_set_vm_bias,
  mach_file_get_entry_point,
}
use xnu_uboot_arm.Macho.Size.{mach_file_vmsize}
use xnu_uboot_arm.Macho.Map
use xnu_uboot_arm.Macho.Map.{Mapped, mapped, mach_file_map}

-- TRUE with the two results, or FALSE; the memory may have changed either way.
pub data Loaded : Type 0 where
  loaded : (entry_point size : ℕ) → Ram → Loaded
  not_loaded : Ram → Loaded
  out_of_fuel : Loaded

module _ (rt : Runtime) (f : Format) where
  -- After the call of `mach_file_map`.
  unfoldable pub finish_load : (full_size : ℕ) → Mapped → Loaded
  finish_load full_size Map.out_of_fuel = out_of_fuel
  finish_load full_size (mapped success file m) = elim (mach_file_get_entry_point f file) [
    | fail r ↦ not_loaded m
    | ok entry ↦ loaded entry full_size m
  ]
  finish_load full_size (mapped r file m) = not_loaded m

  unfoldable pub load_macho :
      (stack : Context) → (image_address load_bias load_address : ℕ) → Ram → Loaded
  load_macho stack image_address load_bias load_address m =
      elim (mach_file_init f m stack image_address) [
        | fail r ↦ not_loaded m
        | ok file ↦ elim (mach_file_vmsize rt f m file) [
          | fail r ↦ not_loaded m
          | ok full_size ↦
              finish_load full_size
                (mach_file_map rt f (mach_file_set_vm_bias file load_bias) load_address full_size m)
        ]
      ]
