-- ===== src/Loader/Command.antt =====
-- `load_macho_from_command`: one `Mach` command of an image, a kernel or a driver.
use xnu_uboot_arm.Base.{
  ℕ, ◌+◌, ◌-◌, ◌%◌, ◌^◌, Bool, true, false, ◌&&◌, ◌||◌, not, none, some, ◌∷◌, ltb, ◌==◌,
  if◌then◌else◌, add32, sub32, mul32, has_bit, Ram, read8, read32, write8, bcopy, read_bytes,
}
use xnu_uboot_arm.Runtime.{range, Runtime}
use xnu_uboot_arm.Macho.{Format}
use xnu_uboot_arm.Lzss.{decompress_lzss}
use xnu_uboot_arm.Loader.{
  name_len, driver_pad_start, Driver, Services, Board, Loader, Outcome, returned, halted,
  out_of_fuel, assert_kernel_load, teardown_old_loader_context, increment_kernel_memory,
}
use xnu_uboot_arm.Loader.Macho
use xnu_uboot_arm.Loader.Macho.{Loaded, loaded, not_loaded, load_macho}

-- `command_macho_t`: the fields of a command at `p`, and its size.
abbrev pub command_size : Ram → ℕ → ℕ
command_size m p = read32 m (p + 4)

abbrev pub decomp_size : Ram → ℕ → ℕ
decomp_size m p = read32 m (p + 8)

abbrev pub info_offset : Ram → ℕ → ℕ
info_offset m p = read32 m (p + 12)

abbrev pub load_address : Ram → ℕ → ℕ
load_address m p = read32 m (p + 16)

abbrev pub flags_of : Ram → ℕ → ℕ
flags_of m p = read32 m (p + 20)

abbrev pub name_at : ℕ → ℕ
name_at p = p + 24

abbrev pub sizeof_command : ℕ
sizeof_command = 88

-- The flags: kMachDriver 0x1, kMachKernel 0x2, CompressedLZSS 0x100, HasInfoPlist 0x200,
-- CompressedQLZ 0x400, NoExec 0x800.
abbrev pub is_driver : ℕ → Bool
is_driver = has_bit 0

abbrev pub is_kernel : ℕ → Bool
is_kernel = has_bit 1

abbrev pub is_lzss : ℕ → Bool
is_lzss = has_bit 8

abbrev pub has_info_plist : ℕ → Bool
has_info_plist = has_bit 9

abbrev pub is_qlz : ℕ → Bool
is_qlz = has_bit 10

abbrev pub is_no_exec : ℕ → Bool
is_no_exec = has_bit 11

abbrev pub is_compressed : ℕ → Bool
is_compressed flags = is_lzss flags || is_qlz flags

-- "Sanitize the filename": a NUL in its last byte.
unfoldable pub sanitize_name : (command : ℕ) → Ram → Ram
sanitize_name p m =
    let last = name_at p + (name_len - 1) in if read8 m last == 0 then m else write8 m last 0

module _ (sv : Services) (rt : Runtime) (f : Format) (board : Board) where
  open sv use {World}

  -- "Setup kernel memory pointer", for a kernel: false where there is no bank of memory.
  unfoldable pub setup_kernel : (command : ℕ) → Loader World → Bool × Loader World
  setup_kernel p s =
      let address = load_address s.ram p in
      let clean =
        if rt.range_is_null s.kernel_range then s else teardown_old_loader_context sv rt s in
      if ltb board.nr_dram_banks 1 then (false, clean) else (
        true,
        record clean {
          memory_top = add32 board.dram_start (address % 2 ^ 20);
          virtual_base = address - address % 2 ^ 20;
          physical_base = board.dram_start;
        },
      )

  -- The pointer where a compressed image is unpacked.
  unfoldable pub decomp_image : (command flags raw_image_dest : ℕ) → Ram → ℕ
  decomp_image p flags raw_image_dest m =
      if is_driver flags then raw_image_dest else add32 raw_image_dest (mul32 (decomp_size m p) 4)

  -- What "Decompress first" leaves behind.
  pub data Unpacked : Type 0 where
    unpacked : Ram → World → Unpacked
    refused : World → Unpacked
    no_fuel : Unpacked

  unfoldable pub unpack : (command flags image_address blob_size dest : ℕ) → Ram → World → Unpacked
  unpack p flags image_address blob_size dest m w =
      if is_lzss flags
      then elim (decompress_lzss board.stack_text_buf m dest image_address blob_size) [
        | none ↦ no_fuel
        | some (m', length) ↦ unpacked m' w
      ]
      else if sv.qlz_size_decompressed m image_address == decomp_size m p
      then (let (got, w') = sv.malloc board.qlz_state_size w in
          if got
          then unpacked (sv.qlz_decompress image_address dest m) (sv.free w')
          else refused w')
      else refused w

  -- The new element of the list of drivers.
  unfoldable pub driver_entry : (command flags image_size : ℕ) → Loader World → Driver
  driver_entry p flags image_size s = record {
    range = range s.memory_top (add32 image_size driver_pad_start);
    info_offset = if has_info_plist flags then info_offset s.ram p else 0;
    has_exec = not (is_no_exec flags);
    name = read_bytes s.ram (name_at p) name_len;
  }

  -- The branch of a driver. `raw_image_dest` is past the pad.
  unfoldable pub load_driver :
      (command flags image_address image_size raw_image_dest : ℕ) → Loader World → Outcome World
  load_driver p flags image_address image_size raw_image_dest s =
      let (got, w) = sv.malloc board.driver_image_size s.world in
      let copied = record s {
        ram =
            if is_compressed flags
            then s.ram
            else bcopy s.ram image_address raw_image_dest image_size;
        world = w;
      } in
      let entry = driver_entry p flags image_size copied in
      if ltb image_size (info_offset s.ram p)
      then returned 1 s
      else if not got
      then halted
      else if is_no_exec flags && not (has_info_plist flags)
      then returned 1 (record copied { world = sv.free w })
      else returned 0 (
          increment_kernel_memory sv rt entry.range.size
            (record copied { drivers = entry ∷ s.drivers }))

  -- The branch of a kernel.
  unfoldable pub load_kernel : (command image_address : ℕ) → Loader World → Outcome World
  load_kernel p image_address s =
      elim (load_macho rt f board.stack_context image_address (load_address s.ram p) s.memory_top
        s.ram) [
          | Macho.out_of_fuel ↦ out_of_fuel
          | not_loaded m ↦ returned 1 (record s { ram = m })
          | loaded entry_point size m ↦ returned 0 (
              increment_kernel_memory sv rt size (record s {
                kernel_range = range s.memory_top size;
                entry_point = entry_point;
                ram = m;
              }))
        ]

  unfoldable pub place_image :
      (command flags image_address image_size raw_image_dest : ℕ) → Loader World → Outcome World
  place_image p flags image_address image_size raw_image_dest s =
      if is_driver flags
      then load_driver p flags image_address image_size raw_image_dest s
      else if is_kernel flags
      then load_kernel p image_address s
      else returned 1 s

  -- From `raw_image_dest = gKernelMemoryTop` on.
  unfoldable pub load_image :
      (command flags image_address blob_size : ℕ) → Loader World → Outcome World
  load_image p flags image_address blob_size s =
      let raw_image_dest =
        if is_driver flags then add32 s.memory_top driver_pad_start else s.memory_top in
      let dest = decomp_image p flags raw_image_dest s.ram in
      if is_compressed flags
      then elim (unpack p flags image_address blob_size dest s.ram s.world) [
        | no_fuel ↦ out_of_fuel
        | refused w ↦ returned 1 (record s { world = w })
        | unpacked m w ↦
            place_image p flags dest (decomp_size m p) raw_image_dest
              (record s { ram = m; world = w })
      ]
      else place_image p flags image_address blob_size raw_image_dest s

  unfoldable pub load_macho_from_command : (command : ℕ) → Loader World → Outcome World
  load_macho_from_command p s =
      let flags = flags_of s.ram p in
      let image_address = add32 p sizeof_command in
      let blob_size = sub32 (command_size s.ram p) sizeof_command in
      let named = record s { ram = sanitize_name p s.ram } in
      if is_kernel flags
      then (let (ready, s') = setup_kernel p named in
          if ready then load_image p flags image_address blob_size s' else returned 1 s')
      else if assert_kernel_load sv rt named
      then load_image p flags image_address blob_size named
      else returned 1 named
