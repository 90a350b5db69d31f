-- ===== src/Loader/Ramdisk.antt =====
-- `rdx`: which ramdisks it takes, and what it does with them.
use xnu_uboot_arm.Base.{ℕ, ◌+◌, ◌≤◌, ◌≡◌, ◌≢◌, ◌⊎◌, codes, read8, read16}
use xnu_uboot_arm.Runtime.{Runtime}
use xnu_uboot_arm.Loader.{Services, Loader}
use xnu_uboot_arm.Loader.Console.{swap16, last_env}

module _ (sv : Services) (rt : Runtime) (s : Loader sv.World) where
  abbrev pub address : ℕ
  address = last_env sv (codes "fileaddr") s.world

  abbrev pub length : ℕ
  length = last_env sv (codes "filesize") s.world

  -- The two bytes from `address + 1024` on, where the header of a volume begins.
  abbrev pub IsSigned : (first second : ℕ) → Type 0
  IsSigned first second =
      (read8 s.ram (address + 1024) ≡ first) × (read8 s.ram (address + 1025) ≡ second)

  -- The last file was loaded where the kernel's memory ends, it has room for the header of a volume,
  -- and this begins with the letters of HFS+, "H+", or those of HFS, "BD".
  pub record IsRamdisk : Type 0 where
    pub at_top : address ≡ s.memory_top
    pub not_null : address ≢ 0
    pub long_enough : 1136 ≤ length
    pub signed : IsSigned b'H' b'+' ⊎ IsSigned b'B' b'D'

  -- The word that the code compares, and the bytes in memory.
  signature : ℕ
  signature = swap16 (read16 s.ram (address + 1024))
