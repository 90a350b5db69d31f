-- ===== src/Region/Tests.antt =====
-- Runs of main/memory.c, and its theorems at an input.
use xnu_uboot_arm.Base.{◌≡◌, refl, false, none, some, List, [], ◌∷◌, arith}
use xnu_uboot_arm.Runtime.{range}
use xnu_uboot_arm.Runtime.Sample.{sample, sample-IsRuntime}
use xnu_uboot_arm.Region.{Region, memory_reserve}
use xnu_uboot_arm.Region.Layout.{
  Request, boundary, Beyond, IsAligned, reserve_all, AreDisjoint, AllPast, memory_reserve-placed,
  reserve_all-AreDisjoint,
}

abbrev kernel_mem : Region
kernel_mem = record { base = 0x2000_0000; down = false; pos = 0x2000_1234 }

abbrev requests : List Request
requests = record { size = 0x118; order = none } ∷ record { size = 0x30; order = some 12 } ∷ []

blocks :
    reserve_all sample kernel_mem requests ≡ range 0x2000_1234 0x118 ∷ range 0x2000_2000 0x30 ∷ []
unfolding reserve_all memory_reserve
blocks = refl

memory_reserve-placed_example :
    let out = memory_reserve sample kernel_mem 0x30 (boundary (some 12)) in
    IsAligned (some 12) out.1
    × Beyond false 0x2000_1234 0x30 out.1 out.0.pos
    × (out.0.base ≡ 0x2000_0000)
    × (out.0.down ≡ false)
memory_reserve-placed_example =
    memory_reserve-placed sample sample-IsRuntime kernel_mem 0x30 (some 12) (omega arith)

reserve_all-AreDisjoint_example :
    AreDisjoint (reserve_all sample kernel_mem requests)
    × AllPast false 0x2000_1234 (reserve_all sample kernel_mem requests)
reserve_all-AreDisjoint_example =
    reserve_all-AreDisjoint sample sample-IsRuntime kernel_mem requests
      (unfold memory_reserve in (omega arith, (omega arith, tt)))
