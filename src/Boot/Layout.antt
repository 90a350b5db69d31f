-- ===== src/Boot/Layout.antt =====
-- Where the boot arguments and the flat tree lie behind the kernel.
use mathlib.Core.Path.{subst}
use xnu_uboot_arm.Base.{
  ℕ, ◌+◌, ◌^◌, ◌%◌, ◌<◌, ◌≤◌, ◌≡◌, ◌∙◌, inr, refl, ap, false, Option, none, some, ◌++◌, ◌==◌,
  if◌then◌else◌, length, word, add32, le32, Ram, write32, write32-Writes, write32-Holds,
  write32-SameOutside, SameOutside, Holds, Holds-append, Holds-at, Holds-same, Writes,
  Writes-append, Writes-at, arith,
}
use xnu_uboot_arm.Runtime.{Range, Runtime, IsRuntime}
use xnu_uboot_arm.Region.{memory_reserve, total_memory_size}
use xnu_uboot_arm.DeviceTree.{Heap}
use xnu_uboot_arm.DeviceTree.Count.{IsCounted}
use xnu_uboot_arm.DeviceTree.Flatten.{alone, total_size, flatten_device_tree}
use xnu_uboot_arm.DeviceTree.Flatten.Written.{IsFlatTree, bytes_of}
use xnu_uboot_arm.DeviceTree.Flatten.Nodes.{total_size-IsCounted}
use xnu_uboot_arm.DeviceTree.Flatten.Output.{flatten_device_tree-Writes}
use xnu_uboot_arm.Boot.{Boot, Host, device_tree_magic, ptokv}
use xnu_uboot_arm.Boot.Start.{place_device_tree, populate_boot_args, lay_out}

-- The tree can be flattened behind `top`, and the region behind the kernel ends there.
pub record IsReady {W : Type 0} (s : Boot W) (top : ℕ) : Type 0 where
  pub counted : IsCounted s.tree
  pub one_root : alone s.tree.root ≡ s.tree.root
  pub flat : IsFlatTree s.tree.root
  pub not_empty : 0 < length (bytes_of s.tree.root)
  pub upwards : s.kernel_mem.down ≡ false
  pub at_top : s.kernel_mem.pos ≡ top
  pub fits : top + 4 + length (bytes_of s.tree.root) + 2 ^ 20 ≤ word

module _ {W : Type 0} (rt : Runtime) (host : Host) (s : Boot W) (top : ℕ) (r : IsReady s top) where
  abbrev n : ℕ
  n = length (bytes_of s.tree.root)

  abbrev marked : Ram
  marked = write32 s.ram top device_tree_magic

  record IsPlaced (p : Range × Boot W) : Type 0 where
    base_of : p.0.base ≡ top + 4
    size_of : p.0.size ≡ n
    end_of : p.1.kernel_mem.pos ≡ top + 4 + n
    block : Writes top (le32 device_tree_magic ++ bytes_of s.tree.root) s.ram p.1.ram

  size : total_size s.tree ≡ n
  size = total_size-IsCounted s.tree r.counted r.flat (omega (arith, r.fits))

  measured : (flatten_device_tree host.allocated none s.tree s.ram).0 ≡ n
  unfolding flatten_device_tree
  measured = size

  reserved :
      memory_reserve rt s.kernel_mem (add32 n 4) 0
      ≡ (record s.kernel_mem { pos = top + 4 + n }, top)
  unfolding memory_reserve
  reserved = ground (arith, r.upwards, r.at_top, r.fits)

  after_magic : add32 top 4 ≡ top + 4
  after_magic = omega (arith, r.fits)

  abbrev flattened : ℕ × Option ℕ × Ram
  flattened = flatten_device_tree host.allocated (some (top + 4)) s.tree marked

  flattened-Writes :
      (flattened.0 ≡ n)
      × (flattened.1 ≡ some (top + 4))
      × Writes (top + 4) (bytes_of s.tree.root) marked flattened.2
  flattened-Writes =
      let at = if top + 4 == 0 then host.allocated else top + 4 in
      let w =
        flatten_device_tree-Writes r.counted r.one_root r.flat (omega (arith, r.fits))
          host.allocated (top + 4) marked in
      let picked : at ≡ top + 4 = ground arith in
      let full : (if n == 0 then 0 else at) ≡ top + 4 = ground (arith, r.not_empty) in
      (
        w.0,
        w.1 ∙ ap some full,
        Writes-at at (top + 4) (bytes_of s.tree.root) marked flattened.2 picked w.2,
      )

  place_device_tree-IsPlaced : (h : Heap W) → IsPlaced (place_device_tree h rt host s)
  unfolding place_device_tree
  place_device_tree-IsPlaced h =
      let f = flattened-Writes in
      rw (measured, reserved, after_magic, f.0, f.1)
        (record {
          base_of = refl;
          size_of = refl;
          end_of = refl;
          block =
              Writes-append top (le32 device_tree_magic) (bytes_of s.tree.root) s.ram marked
                flattened.2 (write32-Writes s.ram top device_tree_magic) f.2;
        })

-- The six fields, in the order in which they are written.
module _ (m : Ram) (args phys virt dt_base dt_size mem_size data_end : ℕ) where
  abbrev m1 : Ram
  m1 = write32 m (args + 8) phys

  abbrev m2 : Ram
  m2 = write32 m1 (args + 4) virt

  abbrev m3 : Ram
  m3 = write32 m2 (args + 48) dt_base

  abbrev m4 : Ram
  m4 = write32 m3 (args + 52) dt_size

  abbrev m5 : Ram
  m5 = write32 m4 (args + 12) mem_size

  abbrev m6 : Ram
  m6 = write32 m5 (args + 16) data_end

  behind_m2 : (c : ℕ) → args + 4 ≤ c → c < args + 12 → m6 c ≡ m2 c
  behind_m2 c l k = ground (
    arith,
    write32-SameOutside m2 (args + 48) dt_base c,
    write32-SameOutside m3 (args + 52) dt_size c,
    write32-SameOutside m4 (args + 12) mem_size c,
    write32-SameOutside m5 (args + 16) data_end c,
  )

  behind_m4 : (c : ℕ) → args + 48 ≤ c → c < args + 56 → m6 c ≡ m4 c
  behind_m4 c l k = ground (
    arith,
    write32-SameOutside m4 (args + 12) mem_size c,
    write32-SameOutside m5 (args + 16) data_end c,
  )

  fields-SameOutside : SameOutside (args + 4) 52 m m6
  fields-SameOutside c out = ground (
    arith,
    write32-SameOutside m (args + 8) phys c,
    write32-SameOutside m1 (args + 4) virt c,
    write32-SameOutside m2 (args + 48) dt_base c,
    write32-SameOutside m3 (args + 52) dt_size c,
    write32-SameOutside m4 (args + 12) mem_size c,
    write32-SameOutside m5 (args + 16) data_end c,
  )

  bases-Holds : Holds m6 (args + 4) (le32 virt ++ le32 phys)
  bases-Holds =
      Holds-same m2 m6 (args + 4) (le32 virt ++ le32 phys)
        (λ c l k. behind_m2 c l (omega (arith, k)))
        (Holds-append m2 (args + 4) (le32 virt) (le32 phys) (write32-Holds m1 (args + 4) virt) (
          Holds-at m2 (args + 8) (args + 4 + 4) (le32 phys) (omega arith) (
            Holds-same m1 m2 (args + 8) (le32 phys)
              (λ c l k. write32-SameOutside m1 (args + 4) virt c (inr (omega arith)))
              (write32-Holds m (args + 8) phys))))

  tree_range-Holds : Holds m6 (args + 48) (le32 dt_base ++ le32 dt_size)
  tree_range-Holds =
      Holds-same m4 m6 (args + 48) (le32 dt_base ++ le32 dt_size)
        (λ c l k. behind_m4 c l (omega (arith, k)))
        (Writes-append (args + 48) (le32 dt_base) (le32 dt_size) m2 m3 m4
          (write32-Writes m2 (args + 48) dt_base)
          (Writes-at (args + 52) (args + 48 + 4) (le32 dt_size) m3 m4 (omega arith)
            (write32-Writes m3 (args + 52) dt_size))).0

  sizes-Holds : Holds m6 (args + 12) (le32 mem_size ++ le32 data_end)
  sizes-Holds =
      (Writes-append (args + 12) (le32 mem_size) (le32 data_end) m4 m5 m6
        (write32-Writes m4 (args + 12) mem_size)
        (Writes-at (args + 16) (args + 12 + 4) (le32 data_end) m5 m6 (omega arith)
          (write32-Writes m5 (args + 16) data_end))).0

-- What the kernel finds from the boot arguments on.
pub record IsLaidOut {W : Type 0} (s s' : Boot W) (args : ℕ) : Type 0 where
  pub bases : Holds s'.ram (args + 4) (le32 s.virtual_base ++ le32 s.physical_base)
  pub sizes : Holds s'.ram (args + 12) (le32 total_memory_size ++ le32 s'.kernel_mem.pos)
  pub tree_range :
      Holds s'.ram (args + 48) (le32 (ptokv s (args + 316)) ++ le32 (length (bytes_of s.tree.root)))
  pub tree : Holds s'.ram (args + 312) (le32 device_tree_magic ++ bytes_of s.tree.root)
  pub data_end : args + 316 + length (bytes_of s.tree.root) ≤ s'.kernel_mem.pos
  pub page_table : s'.kernel_mem.pos % 2 ^ 20 ≡ 0
  pub rest : SameOutside (args + 4) (312 + length (bytes_of s.tree.root)) s.ram s'.ram

-- Where the tree is ready, and the region behind the kernel ends behind the boot arguments, the
-- arguments get the two bases, the size of the memory, the end of what is in use, and the kernel's
-- address and the length of the flat tree, which stands behind its magic number right behind the
-- arguments. It ends below the end of what is in use, which is a multiple of a megabyte, and no byte
-- outside the arguments and the tree changes.
pub lay_out-IsLaidOut :
    {W : Type 0} (h : Heap W) (rt : Runtime) (host : Host) (laws : IsRuntime rt) (s : Boot W)
    (args : ℕ)
    → IsReady s (args + 312)
    → IsLaidOut s (lay_out h rt host args s) args
unfolding lay_out populate_boot_args place_device_tree
lay_out-IsLaidOut h rt host laws s args r =
    let placed = place_device_tree-IsPlaced rt host s (args + 312) r h in
    let p = place_device_tree h rt host s in
    let end = rt.align_up p.1.kernel_mem.pos (2 ^ 20) in
    let room : p.1.kernel_mem.pos + 2 ^ 20 ≤ word = omega (arith, placed.end_of, r.fits) in
    let n = length (bytes_of s.tree.root) in
    let at = ptokv s p.0.base in
    let out = (lay_out h rt host args s).ram in
    let base : p.0.base ≡ args + 316 = omega (arith, placed.base_of) in
    let found : (p.0.base, p.0.size) ≡ (args + 316, n) = rw (base, placed.size_of) refl in
    let same =
      fields-SameOutside p.1.ram args s.physical_base s.virtual_base at p.0.size total_memory_size
        end in
    record {
      bases =
          bases-Holds p.1.ram args s.physical_base s.virtual_base at p.0.size total_memory_size end;
      sizes =
          sizes-Holds p.1.ram args s.physical_base s.virtual_base at p.0.size total_memory_size end;
      tree_range =
          subst (λ (v : ℕ × ℕ). Holds out (args + 48) (le32 (ptokv s v.0) ++ le32 v.1)) found
            (tree_range-Holds p.1.ram args s.physical_base s.virtual_base at p.0.size
              total_memory_size end);
      tree =
          Holds-same p.1.ram out (args + 312) (le32 device_tree_magic ++ bytes_of s.tree.root)
            (λ c l k. same c (inr (omega arith))) placed.block.0;
      data_end = omega (arith, placed.end_of, laws.align_up_ge p.1.kernel_mem.pos 20 room);
      page_table = laws.align_up_mod p.1.kernel_mem.pos 20 room;
      rest = λ c o. ground (arith, same c, placed.block.1 c);
    }
