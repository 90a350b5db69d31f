-- ===== src/Macho/Extent/Tests.antt =====
-- The range of a kernel with three segments, and of one whose segments leave a gap.
use xnu_uboot_arm.Base.{ℕ, ◌≡◌, refl, List, [], ◌∷◌, codes, read8, read16, read32, write32}
use xnu_uboot_arm.Runtime.Sample.{sample, holding}
use xnu_uboot_arm.Macho.{Context, Result, ok, fail, exec_noncontigious, strncmp_is}
use xnu_uboot_arm.Macho.Sample.{macho32, blank}
use xnu_uboot_arm.Macho.Extent.{measure, extent_command, extent_commands, mach_file_code_data_range}

-- At 0x1000: a page that is not mapped, the code with a section that starts at 0x1100, and the data.
abbrev segments : (data_at : ℕ) → List (ℕ × ℕ)
segments data_at =
    (0x1010, 3)
    ∷ (0x101C, 1)
    ∷ (0x1020, 56)
    ∷ (0x1038, 0x1000)
    ∷ (0x1054, 1)
    ∷ (0x1058, 124)
    ∷ (0x105C, 0x45545F5F)
    ∷ (0x1060, 0x5458)
    ∷ (0x106C, 0x1000)
    ∷ (0x1070, 0x1000)
    ∷ (0x10AC, 0x1100)
    ∷ (0x10D0, 1)
    ∷ (0x10D4, 56)
    ∷ (0x10D8, 0x41445F5F)
    ∷ (0x10DC, 0x4154)
    ∷ (0x10E8, data_at)
    ∷ (0x10EC, 0x800)
    ∷ []

abbrev kernel : Context
kernel = record blank { filetype = 2; file = 0x1000 }

abbrev range_of : (data_at : ℕ) → Result (ℕ × ℕ)
range_of data_at =
    mach_file_code_data_range sample macho32 (codes "__TEXT") (codes "__DATA")
      (holding (segments data_at)) kernel

behind_headers : range_of 0x2000 ≡ ok (0x1100, 0x1700)
unfolding mach_file_code_data_range extent_commands extent_command measure strncmp_is holding read32
    read16 read8 write32
behind_headers = refl

with_gap : range_of 0x3000 ≡ fail exec_noncontigious
unfolding mach_file_code_data_range extent_commands extent_command measure strncmp_is holding read32
    read16 read8 write32
with_gap = refl
