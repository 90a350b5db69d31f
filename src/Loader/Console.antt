-- ===== src/Loader/Console.antt =====
-- The commands `imgx` and `rdx` of the U-Boot console, and main/hfs_header.h.
use xnu_uboot_arm.Base.{
  ℕ, ◌+◌, ◌*◌, ◌/◌, ◌%◌, ◌&&◌, ◌||◌, not, none, some, List, [], ◌∷◌, ltb, ◌==◌, if◌then◌else◌,
  codes, strcmp_eq, word, read16,
}
use xnu_uboot_arm.Runtime.{range, Runtime}
use xnu_uboot_arm.Macho.{Format}
use xnu_uboot_arm.Loader.{Services, Board, Loader, Outcome, returned, increment_kernel_memory}
use xnu_uboot_arm.Loader.Image.{load_general_image}

abbrev pub hfs_sig_word : ℕ
hfs_sig_word = 0x4244

abbrev pub hfs_plus_sig_word : ℕ
hfs_plus_sig_word = 0x482B

abbrev pub hfsx_sig_word : ℕ
hfsx_sig_word = 0x4858

-- sizeof(struct HFSPlusVolumeHeader): a multiple of 8, for its 64-bit field.
abbrev pub sizeof_volume_header : ℕ
sizeof_volume_header = 112

-- `OSSwapInt16`: the header is big endian.
abbrev pub swap16 : ℕ → ℕ
swap16 x = x % 256 * 256 + x / 256

module _ (sv : Services) where
  open sv use {World}

  -- `last_filesize` and `last_fileaddr`: a variable of the environment as a 32-bit number.
  unfoldable pub last_env : List ℕ → World → ℕ
  last_env name w = elim (sv.getenv name w) [ none ↦ 0 | some en ↦ sv.simple_strtoul en 16 % word ]

  unfoldable pub do_imgx :
      Runtime → Format → Board → (argv : List (List ℕ)) → Loader World → Outcome World
  do_imgx rt f board (name ∷ arg ∷ []) s =
      let addr = last_env (codes "fileaddr") s.world in
      if strcmp_eq arg (codes "last") || strcmp_eq arg (codes "l")
      then if addr == 0 then returned 1 s else load_general_image sv rt f board addr s
      else load_general_image sv rt f board (sv.simple_strtoul arg 16 % word) s
  do_imgx rt f board _ s = returned 1 s

  unfoldable pub do_rdx : Runtime → Loader World → Outcome World
  do_rdx rt s =
      let addr = last_env (codes "fileaddr") s.world in
      let size = last_env (codes "filesize") s.world in
      let signature = swap16 (read16 s.ram (addr + 1024)) in
      if addr == 0
      then returned 1 s
      else if size == 0
      then returned 1 s
      else if not (addr == s.memory_top)
      then returned 1 s
      else if ltb size (1024 + sizeof_volume_header)
      then returned 1 s
      else if not (signature == hfs_plus_sig_word) && not (signature == hfs_sig_word)
      then returned 1 s
      else returned 0
          (increment_kernel_memory sv rt size (record s { ramdisk_range = range addr size }))
