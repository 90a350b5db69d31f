-- ===== src/Macho/Extent.antt =====
-- `mach_file_code_data_range`, mach-o/macho.c: where the code and the data of an executable lie. The
-- first segment is passed over; the second is to be the code, and the third the data.
mod Tests
use xnu_uboot_arm.Base.{
  ℕ, zero, suc, ◌+◌, Bool, List, ◌==◌, if◌then◌else◌, length, add32, sub32, Ram, read32,
}
use xnu_uboot_arm.Runtime.{Runtime}
use xnu_uboot_arm.Macho.{
  Format, Context, Result, ok, fail, badfiletype, malformed, exec_noncontigious,
  exec_unexpected_seg, strncmp_is,
}

-- The variables of the loop over the load commands; `seg_accounted` is never read.
pub record Extent : Type 0 where
  pub last_vmaddr : ℕ
  pub seg_index : ℕ
  pub code_start : ℕ
  pub vmsize : ℕ

-- `seg_text` and `seg_data` are the characters of SEG_TEXT and SEG_DATA.
module _ (rt : Runtime) (f : Format) (seg_text seg_data : List ℕ) (m : Ram) (file : Context) where
  -- `strcmp(cmd->segname, s) == 0`
  abbrev pub is_segment : (cmd : ℕ) → List ℕ → Bool
  is_segment cmd s = strncmp_is m (cmd + f.seg_segname) s (length s + 1)

  -- The size and the start that a segment adds, by its index.
  unfoldable pub measure : (cmd : ℕ) → Extent → Result Extent
  measure cmd e =
      let sect = add32 cmd f.segment_size in
      let addr = read32 m (sect + f.sect_addr) in
      let vmsize = read32 m (cmd + f.seg_vmsize) in
      if e.seg_index == 1
      then if is_segment cmd seg_text
        then if sect == 0
          then fail malformed
          else ok (record e {
            code_start = addr;
            vmsize = add32 e.vmsize (sub32 vmsize (sub32 addr (read32 m (cmd + f.seg_vmaddr))));
          })
        else fail exec_unexpected_seg
      else if e.seg_index == 2
      then if is_segment cmd seg_data
        then ok (record e { vmsize = add32 e.vmsize vmsize })
        else fail exec_unexpected_seg
      else ok e

  -- The body of the loop.
  unfoldable pub extent_command : (lcp : ℕ) → Extent → Result Extent
  extent_command lcp e =
      if read32 m (lcp + f.lc_cmd) == f.lc_segment
      then if read32 m (lcp + f.seg_vmaddr) == e.last_vmaddr
        then elim (measure lcp e) [
          | fail r ↦ fail r
          | ok e1 ↦ ok (record e1 {
            last_vmaddr = add32 (read32 m (lcp + f.seg_vmaddr)) (read32 m (lcp + f.seg_vmsize));
            seg_index = e1.seg_index + 1;
          })
        ]
        else fail exec_noncontigious
      else ok e

  unfoldable pub extent_commands : (n lcp : ℕ) → Extent → Result Extent
  extent_commands zero lcp e = ok e
  extent_commands (suc n) lcp e = elim (extent_command lcp e) [
    | fail r ↦ fail r
    | ok e1 ↦ extent_commands n (rt.add_ptr2 lcp (read32 m (lcp + f.lc_cmdsize))) e1
  ]

  -- The start and the size.
  unfoldable pub mach_file_code_data_range : Result (ℕ × ℕ)
  mach_file_code_data_range =
      if file.filetype == f.mh_execute
      then elim (extent_commands (read32 m (file.file + f.head_ncmds)) (file.file + f.header_size)
          (record { last_vmaddr = 0; seg_index = 0; code_start = 0; vmsize = 0 })) [
            | fail r ↦ fail r
            | ok e ↦ ok (e.code_start, e.vmsize)
          ]
      else fail badfiletype
