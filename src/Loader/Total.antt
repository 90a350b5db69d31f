-- ===== src/Loader/Total.antt =====
-- Every load of an image ends where the parsers of device trees do: the fuel that the model gives to
-- the loops of the decompressor and of the Mach-O loader is enough.
use xnu_uboot_arm.Base.{ℕ, ◌≢◌, Ram}
use xnu_uboot_arm.Runtime.{Runtime}
use xnu_uboot_arm.Macho.{Format}
use xnu_uboot_arm.Macho.Map
use xnu_uboot_arm.Loader.{TreeParse, endless, Services, Board, Loader}
use xnu_uboot_arm.Loader.Macho
use xnu_uboot_arm.Loader.Macho.{Loaded, loaded}

module _ (sv : Services) (rt : Runtime) (f : Format) (board : Board) where
  open sv use {World}

  -- The parser ends on the text behind every header, whatever lies in memory.
  abbrev pub IsEnding : (ℕ → Ram → World → TreeParse World) → Type 0
  IsEnding parser = (p : ℕ) (m : Ram) (w : World) → parser p m w ≢ endless
