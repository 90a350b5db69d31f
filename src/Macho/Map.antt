-- ===== src/Macho/Map.antt =====
-- `mach_file_map`: copying the image into place. Memory is threaded through the loop, since the
-- image may overwrite the file that is being read.
pub mod Total
pub mod Segment
use xnu_uboot_arm.Base.{
  ℕ, zero, suc, ◌+◌, ◌≡◌, Bool, true, false, ◌&&◌, ◌||◌, not, ltb, ◌==◌, if◌then◌else◌, add32,
  sub32, word, bit_and, Ram, read32, bcopy, bzero,
}
use xnu_uboot_arm.Runtime.{Runtime}
use xnu_uboot_arm.Macho.{
  Format, Context, LoaderReturn, success, badfiletype, object_badsegment, exec_unsupported,
  strncmp_is,
}

-- The outcome of one command: go on to the next, or leave the function.
pub data Step : Type 0 where
  next : Context → (seg_count : ℕ) → Ram → Step
  stop : LoaderReturn → Context → Ram → Step

-- What `mach_file_map` returns and leaves behind.
pub data Mapped : Type 0 where
  mapped : LoaderReturn → Context → Ram → Mapped
  out_of_fuel : Mapped

module _ (rt : Runtime) (f : Format) where
  unfoldable pub map_section : Context → (sect load_addr : ℕ) → Ram → Ram
  map_section file sect load_addr m =
      let va = rt.add_ptr2 load_addr (read32 m (sect + f.sect_addr)) in
      let size = read32 m (sect + f.sect_size) in
      if bit_and (read32 m (sect + f.sect_flags)) f.section_type == f.s_zerofill
      then bzero m va size
      else bcopy m (rt.add_ptr2 file.file (read32 m (sect + f.sect_offset))) va size

  -- `for_each_section`, round `i` at `sect`; `nsects` is read again in each round.
  unfoldable pub map_sections : ℕ → Context → (cmd i sect load_addr : ℕ) → Ram → Ram
  map_sections zero file cmd i sect load_addr m = m
  map_sections (suc fuel) file cmd i sect load_addr m =
      elim (ltb i (read32 m (cmd + f.seg_nsects))) [
        | false ↦ m
        | true ↦
            map_sections fuel file cmd (i + 1) (add32 sect f.section_size) load_addr
              (map_section file sect load_addr m)
      ]

  -- The copy of an executable's segment, and the zeros behind it.
  unfoldable pub copy_segment : Context → (cmd load_addr actual_vmaddr : ℕ) → Ram → Ram
  copy_segment file cmd load_addr actual_vmaddr m =
      let filesize = read32 m (cmd + f.seg_filesize) in
      if filesize == 0
      then m
      else bcopy m (rt.add_ptr2 file.file (read32 m (cmd + f.seg_fileoff)))
          (rt.add_ptr2 load_addr actual_vmaddr) filesize

  unfoldable pub zero_rest : (cmd load_addr actual_vmaddr delta : ℕ) → Ram → Ram
  zero_rest cmd load_addr actual_vmaddr delta m =
      let filesize = read32 m (cmd + f.seg_filesize) in
      if not (delta == 0) && ltb filesize (read32 m (cmd + f.seg_vmsize))
      then bzero m (rt.add_ptr3 load_addr actual_vmaddr filesize) delta
      else m

  abbrev pub segment_memory : Context → (cmd load_addr actual_vmaddr delta : ℕ) → Ram → Ram
  segment_memory file cmd load_addr actual_vmaddr delta m =
      zero_rest cmd load_addr actual_vmaddr delta (copy_segment file cmd load_addr actual_vmaddr m)

  -- A segment of an executable.
  unfoldable pub map_executable : Context → (cmd load_addr seg_count : ℕ) → Ram → Step
  map_executable file cmd load_addr seg_count m =
      let vmaddr = read32 m (cmd + f.seg_vmaddr) in
      let delta = sub32 (read32 m (cmd + f.seg_vmsize)) (read32 m (cmd + f.seg_filesize)) in
      let actual_vmaddr = sub32 vmaddr file.vm_bias in
      let m' = segment_memory file cmd load_addr actual_vmaddr delta m in
      let prelinked =
        strncmp_is m' (cmd + f.seg_segname) f.prelink_info_segment 15
        && not (read32 m' (cmd + f.seg_vmsize) == 0) in
      if file.vm_bias == 0 && seg_count == 0 && not (vmaddr == 0)
      then stop exec_unsupported file m
      else next (record file { is_prelinked = file.is_prelinked || prelinked }) (seg_count + 1) m'

  -- The one segment of an object file.
  unfoldable pub map_object : Context → (cmd load_addr seg_count : ℕ) → Ram → Step
  map_object file cmd load_addr seg_count m =
      if seg_count == 0
      then next (record file { first_segment = cmd }) (seg_count + 1)
          (map_sections word (record file { first_segment = cmd }) cmd 0 (add32 cmd f.segment_size)
            load_addr m)
      else stop object_badsegment file m

  -- The body of the loop over the load commands.
  unfoldable pub map_command : Context → (lcp load_addr seg_count : ℕ) → Ram → Step
  map_command file lcp load_addr seg_count m =
      let cmd = read32 m (lcp + f.lc_cmd) in
      if cmd == f.lc_segment
      then if file.filetype == f.mh_execute
        then map_executable file lcp load_addr seg_count m
        else if file.filetype == f.mh_object
        then map_object file lcp load_addr seg_count m
        else stop badfiletype file m
      else if cmd == f.lc_unixthread
      then next (record file { entry_point = read32 m (lcp + f.thread_pc) }) seg_count m
      else if cmd == f.lc_dysymtab
      then next (record file { dsymtab = lcp }) seg_count m
      else if cmd == f.lc_dyld_info || cmd == f.lc_dyld_info_only
      then stop exec_unsupported (record file { dyld_info = lcp; compressed = true }) m
      else if cmd == f.lc_symtab
      then next
          (record file {
            symtab = lcp;
            string_base = rt.add_ptr2 file.file (read32 m (lcp + f.symtab_stroff));
            symbol_base = rt.add_ptr2 file.file (read32 m (lcp + f.symtab_symoff));
          })
          seg_count m
      else next file seg_count m

  -- `for_each_lc`, round `i` at `lcp`; the header is read again in each round.
  unfoldable pub map_commands :
      ℕ → (head load_addr vmsize : ℕ) → Context → (i lcp seg_count : ℕ) → Ram → Mapped
  map_commands zero head load_addr vmsize file i lcp seg_count m = out_of_fuel
  map_commands (suc fuel) head load_addr vmsize file i lcp seg_count m =
      elim (ltb i (read32 m (head + f.head_ncmds))) [
        | false ↦ mapped success (record file { base = load_addr; vmsize = vmsize }) m
        | true ↦ elim (map_command file lcp load_addr seg_count m) [
          | stop r file' m' ↦ mapped r file' m'
          | next file' seg_count' m' ↦
              map_commands fuel head load_addr vmsize file' (i + 1)
                (rt.add_ptr2 lcp (read32 m' (lcp + f.lc_cmdsize))) seg_count' m'
        ]
      ]

  -- `i` is below `ncmds`, so 2 ^ 32 rounds are enough.
  unfoldable pub mach_file_map : Context → (load_addr vmsize : ℕ) → Ram → Mapped
  mach_file_map file load_addr vmsize m =
      map_commands word file.file load_addr vmsize file 0 (file.file + f.header_size) 0 m
