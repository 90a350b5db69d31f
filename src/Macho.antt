-- ===== src/Macho.antt =====
-- mach-o/macho.c: the loader of Mach-O images. The structures and constants of the format stand in
-- headers that the repository does not hold: `Format` takes their sizes, offsets and values.
pub mod Sample
pub mod Size
pub mod Map
pub mod Relocate
pub mod Lookup
pub mod Extent
mod Tests
use xnu_uboot_arm.Base.{
  ℕ, zero, suc, ◌+◌, ◌≤◌, ◌≢◌, Bool, true, false, List, [], ◌∷◌, ◌&&◌, ◌==◌, if◌then◌else◌, Ram,
  read8, read32,
}

-- All fields that are read are 32-bit words at the given offset of their structure.
pub record Format : Type 0 where
  -- sizeof(mach_header_t), sizeof(struct segment_command), sizeof(struct section)
  pub header_size : ℕ
  pub segment_size : ℕ
  pub section_size : ℕ
  -- mach_header_t
  pub head_magic : ℕ
  pub head_filetype : ℕ
  pub head_ncmds : ℕ
  -- struct load_command
  pub lc_cmd : ℕ
  pub lc_cmdsize : ℕ
  -- struct segment_command
  pub seg_segname : ℕ
  pub seg_vmaddr : ℕ
  pub seg_vmsize : ℕ
  pub seg_fileoff : ℕ
  pub seg_filesize : ℕ
  pub seg_nsects : ℕ
  -- struct section
  pub sect_addr : ℕ
  pub sect_size : ℕ
  pub sect_offset : ℕ
  pub sect_flags : ℕ
  -- thread_command_t and struct symtab_command
  pub thread_pc : ℕ
  pub symtab_symoff : ℕ
  pub symtab_stroff : ℕ
  -- constants
  pub mh_magic : ℕ
  pub mh_execute : ℕ
  pub mh_object : ℕ
  pub lc_segment : ℕ
  pub lc_symtab : ℕ
  pub lc_unixthread : ℕ
  pub lc_dysymtab : ℕ
  pub lc_dyld_info : ℕ
  pub lc_dyld_info_only : ℕ
  pub section_type : ℕ
  pub s_zerofill : ℕ
  -- the characters of kPrelinkInfoSegment
  pub prelink_info_segment : List ℕ

-- `loader_return_t`
pub data LoaderReturn : Type 0 where
  success badmagic badfiletype object_badsegment nosymtab exec_unsupported : LoaderReturn
  badreloc outofbounds malformed symbol_not_found exec_noncontigious : LoaderReturn
  exec_unexpected_seg : LoaderReturn

abbrev pub is_success : LoaderReturn → Bool
is_success success = true
is_success _ = false

-- A result that is only there on LOADER_SUCCESS.
pub data Result {ℓ} (A : Type ℓ) : Type ℓ where
  ok : A → Result A
  fail : LoaderReturn → Result A

-- `mach_loader_context_t`; pointers are addresses.
pub record Context : Type 0 where
  pub filetype : ℕ
  pub file : ℕ
  pub base : ℕ
  pub vmsize : ℕ
  pub vm_bias : ℕ
  pub loader_bias : ℕ
  pub entry_point : ℕ
  pub is_prelinked : Bool
  pub compressed : Bool
  pub first_segment : ℕ
  pub symtab : ℕ
  pub dsymtab : ℕ
  pub dyld_info : ℕ
  pub string_base : ℕ
  pub symbol_base : ℕ

-- `strncmp(p, s, n) == 0` for the text `s`, which holds no NUL.
unfoldable pub strncmp_is : Ram → ℕ → List ℕ → ℕ → Bool
strncmp_is m p s zero = true
strncmp_is m p [] (suc n) = read8 m p == 0
strncmp_is m p (c ∷ s) (suc n) = read8 m p == c && strncmp_is m (p + 1) s n

module _ (f : Format) where
  unfoldable pub mach_file_init : Ram → Context → (fbase : ℕ) → Result Context
  mach_file_init m file fbase =
      let filetype = read32 m (fbase + f.head_filetype) in
      if read32 m (fbase + f.head_magic) == f.mh_magic
      then if filetype == f.mh_execute
        then ok
            (record file { filetype = filetype; file = fbase; vm_bias = 0; is_prelinked = false })
        else if filetype == f.mh_object
        then ok
            (record file { filetype = filetype; file = fbase; vm_bias = 0; is_prelinked = false })
        else fail badfiletype
      else fail badmagic

  unfoldable pub mach_file_get_entry_point : Context → Result ℕ
  mach_file_get_entry_point file =
      if file.filetype == f.mh_execute then ok file.entry_point else fail badfiletype

unfoldable pub mach_file_set_vm_bias : Context → ℕ → Context
mach_file_set_vm_bias file loader_bias = record file { vm_bias = loader_bias }

unfoldable pub mach_file_set_loader_bias : Context → ℕ → Context
mach_file_set_loader_bias file loader_bias = record file { loader_bias = loader_bias }

unfoldable pub mach_file_is_prelinked : Context → Bool
mach_file_is_prelinked file = file.is_prelinked

-- The constants of the headers are told apart, and a segment's fields lie inside its command.
pub record IsFormat (f : Format) : Type 0 where
  pub execute-ne-object : f.mh_execute ≢ f.mh_object
  pub segment-ne-symtab : f.lc_segment ≢ f.lc_symtab
  pub vmsize_inside : f.seg_vmsize + 4 ≤ f.segment_size
  pub filesize_inside : f.seg_filesize + 4 ≤ f.segment_size
