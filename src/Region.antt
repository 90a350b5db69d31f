-- ===== src/Region.antt =====
-- main/memory.c: the bump allocator over a `memory_region_t`, upwards or downwards.
pub mod Layout
mod Tests
use xnu_uboot_arm.Base.{
  ℕ, ◌+◌, ◌≡◌, Bool, true, false, List, [], ◌∷◌, ◌==◌, if◌then◌else◌, add32, sub32, not,
}
use xnu_uboot_arm.Runtime.{Runtime}

-- `memory_region_t`
pub record Region : Type 0 where
  pub base : ℕ
  pub down : Bool
  pub pos : ℕ

-- `memory_region_restore(dest, src)` and `memory_region_save(src, dest)` return the new `*dest`.
unfoldable pub memory_region_restore : (dest src : Region) → Region
memory_region_restore dest src = record dest { base = src.base; down = src.down; pos = src.pos }

unfoldable pub memory_region_save : (src dest : Region) → Region
memory_region_save src dest = record dest { base = src.base; down = src.down; pos = src.pos }

module _ (rt : Runtime) where
  -- The new region, and the address of the block.
  unfoldable pub memory_reserve : Region → (size align_boundary : ℕ) → Region × ℕ
  memory_reserve region size align_boundary =
      if region.down
      then (let moved = sub32 region.pos size in
          let start = if align_boundary == 0 then moved else rt.align_down moved align_boundary in
          (record region { pos = start }, start))
      else let start =
          if align_boundary == 0 then region.pos else rt.align_up region.pos align_boundary in
        (record region { pos = add32 start size }, start)

unfoldable pub get_memory_base : ℕ
get_memory_base = 0x2000_0000

unfoldable pub total_memory_size : ℕ
total_memory_size = 0x2000_0000
