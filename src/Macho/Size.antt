-- ===== src/Macho/Size.antt =====
-- `mach_file_vmsize`: the size of the image in memory.
pub mod Total
use xnu_uboot_arm.Base.{
  ℕ, zero, suc, ◌+◌, ◌%◌, ◌≡◌, Bool, true, false, ◌&&◌, not, ltb, ◌==◌, if◌then◌else◌, add32, Ram,
  read32,
}
use xnu_uboot_arm.Runtime.{Runtime}
use xnu_uboot_arm.Macho.{
  Format, Context, Result, ok, fail, success, badfiletype, object_badsegment, nosymtab,
}

module _ (f : Format) where
  -- `for_each_section` from `sect` on, `nsects` rounds, adding the sizes up.
  unfoldable pub add_sections : Ram → (nsects sect sc : ℕ) → ℕ
  add_sections m zero sect sc = sc
  add_sections m (suc n) sect sc =
      add_sections m n (add32 sect f.section_size) (add32 sc (read32 m (sect + f.sect_size)))

-- The variables of the loop over the load commands.
pub record Tally : Type 0 where
  pub sc : ℕ
  pub seg_count : ℕ
  pub has_symtab : Bool

module _ (rt : Runtime) (f : Format) (m : Ram) (file : Context) where
  -- The body of the loop.
  unfoldable pub size_command : (lcp : ℕ) → Tally → Result Tally
  size_command lcp t =
      if read32 m (lcp + f.lc_cmd) == f.lc_segment
      then if file.filetype == f.mh_execute
        then ok (record t { sc = add32 t.sc (read32 m (lcp + f.seg_vmsize)) })
        else if file.filetype == f.mh_object
        then if t.seg_count == 0
          then ok (record t {
            sc = add_sections f m (read32 m (lcp + f.seg_nsects)) (add32 lcp f.segment_size) t.sc;
            seg_count = t.seg_count + 1;
          })
          else fail object_badsegment
        else fail badfiletype
      else if read32 m (lcp + f.lc_cmd) == f.lc_symtab
      then ok (record t { has_symtab = true })
      else ok t

  -- `for_each_lc`: the command at `lcp`, with `n` rounds left.
  unfoldable pub size_commands : (n lcp : ℕ) → Tally → Result Tally
  size_commands zero lcp t = ok t
  size_commands (suc n) lcp t = elim (size_command lcp t) [
    | fail r ↦ fail r
    | ok t' ↦ size_commands n (rt.add_ptr2 lcp (read32 m (lcp + f.lc_cmdsize))) t'
  ]

  abbrev pub object_without_symtab : Tally → Bool
  object_without_symtab t = file.filetype == f.mh_object && not t.has_symtab

  unfoldable pub mach_file_vmsize : Result ℕ
  mach_file_vmsize =
      elim (size_commands (read32 m (file.file + f.head_ncmds)) (file.file + f.header_size)
        (record { sc = 0; seg_count = 0; has_symtab = false })) [
          | fail r ↦ fail r
          | ok t ↦ if object_without_symtab t then fail nosymtab else ok t.sc
        ]
