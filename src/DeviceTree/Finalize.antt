-- ===== src/DeviceTree/Finalize.antt =====
-- `DT__Finalize` gives back every block that the operations of device_tree/device_tree.c took, by the
-- lists of the elements that record them.
use xnu_uboot_arm.Base.{ℕ, ◌+◌, ◌≡◌, true, false, List, [], ◌∷◌, ◌==◌, if◌then◌else◌}
use xnu_uboot_arm.DeviceTree.{DeviceTree, Heap}
use xnu_uboot_arm.DeviceTree.Built.{Built, initial, child, property}

abbrev pub at : ℕ → ℕ → ℕ
at a b = if a == b then 1 else 0

-- What happened to each address can be counted: `taken` says how often a block there was allocated,
-- and `given` how often it was freed. A block that is freed keeps its link until the next allocation.
pub record IsCounting {W : Type 0} (h : Heap W) (taken given : W → ℕ → ℕ) : Type 0 where
  pub malloc_some :
      (n : ℕ) (w : W) (a : ℕ)
      → (h.malloc n w).0 ≡ true
      → taken (h.malloc n w).1 a ≡ taken w a + at a (h.address (h.malloc n w).1)
  pub malloc_none :
      (n : ℕ) (w : W) (a : ℕ) → (h.malloc n w).0 ≡ false → taken (h.malloc n w).1 a ≡ taken w a
  pub malloc_given : (n : ℕ) (w : W) (a : ℕ) → given (h.malloc n w).1 a ≡ given w a
  pub free_taken : (p : ℕ) (w : W) (a : ℕ) → taken (h.free_at p w) a ≡ taken w a
  pub free_given : (p : ℕ) (w : W) (a : ℕ) → given (h.free_at p w) a ≡ given w a + at a p
  pub link_kept : (p : ℕ) (w : W) → h.keeps_link p (h.free_at p w) ≡ true

-- The heap that a tree was begun with.
abbrev pub begun : {W : Type 0} {h : Heap W} {t : DeviceTree W} → Built h t → W
begun (initial t) = t.heap
begun (child parent name b one) = begun b
begun (property id name value b one) = begun b

-- How often an address stands in a list of blocks.
abbrev pub count : ℕ → List ℕ → ℕ
count a [] = 0
count a (b ∷ bs) = at a b + count a bs

module _ {W : Type 0} (h : Heap W) (taken given : W → ℕ → ℕ) (c : IsCounting h taken given)
    (a : ℕ) where
  -- The blocks that were taken on top of those of `base` are the recorded ones; none was given back.
  record Owns (base : W) (t : DeviceTree W) : Type 0 where
    took : taken t.heap a ≡ taken base a + count a t.alloced_nodes + count a t.alloced_properties
    gave : given t.heap a ≡ given base a
