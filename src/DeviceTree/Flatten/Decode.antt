-- ===== src/DeviceTree/Flatten/Decode.antt =====
-- A reader of the flat form, as the kernel that gets the block has one: it follows the counts and
-- the lengths, and rebuilds the tree without the addresses of its nodes.
use xnu_uboot_arm.Base.{
  ℕ, zero, suc, ◌+◌, ◌-◌, ◌<◌, ◌≤◌, ◌≡◌, ◌≢◌, refl, sym, none, some, List, [], ◌∷◌, ◌++◌, ◌==◌,
  if◌then◌else◌, length, length-append, replicate, word, Ram, read8, read_bytes, read32, Holds,
  le32, Holds-at, Holds-left, Holds-right, Holds-read32, arith,
}
use xnu_uboot_arm.DeviceTree.{
  Property, Node, null, node, round_to_long, DeviceTree, Heap, root_node,
}
use xnu_uboot_arm.DeviceTree.Count.{total}
use xnu_uboot_arm.DeviceTree.Built.{Built, Built-IsCounted}
use xnu_uboot_arm.DeviceTree.Flatten.{
  sizeof_node, sizeof_property, prop_name_length, alone, flatten_device_tree,
}
use xnu_uboot_arm.DeviceTree.Flatten.Nodes.{length-bytes_of_properties, length-bytes_of}
use xnu_uboot_arm.DeviceTree.Flatten.Output.{Built-Alone, flatten_device_tree-Writes}
use xnu_uboot_arm.DeviceTree.Flatten.Written.{
  IsFlat, AllFlat, IsFlatTree, siblings, bytes_of_property, size_name_field,
  length-bytes_of_property, bytes_of_properties, bytes_of,
}

-- The bytes up to a NUL, `n` at most.
unfoldable pub read_name : Ram → (a n : ℕ) → List ℕ
read_name m a zero = []
read_name m a (suc n) =
    let rest = read_name m (a + 1) n in if read8 m a == 0 then [] else read8 m a ∷ rest

unfoldable pub read_properties : Ram → (a n : ℕ) → List Property × ℕ
read_properties m a zero = ([], a)
read_properties m a (suc n) =
    let size = read32 m (a + prop_name_length) in
    let (ps, end) = read_properties m (a + sizeof_property + round_to_long size) n in
    (
      record {
        name = read_name m a prop_name_length;
        value = read_bytes m (a + sizeof_property) size;
      }
          ∷ ps,
      end,
    )

-- `n` siblings from `a` on, and where they end.
unfoldable pub read_nodes : (fuel : ℕ) → Ram → (a n : ℕ) → Node × ℕ
read_nodes zero m a n = (null, a)
read_nodes (suc fuel) m a zero = (null, a)
read_nodes (suc fuel) m a (suc n) =
    let (ps, a1) = read_properties m (a + sizeof_node) (read32 m a) in
    let (children, a2) = read_nodes fuel m a1 (read32 m (a + 4)) in
    let (next, a3) = read_nodes fuel m a2 n in (node 0 ps children next, a3)

-- A tree without the addresses of its nodes.
unfoldable pub erase : Node → Node
erase null = null
erase (node id ps children next) = node 0 ps (erase children) (erase next)

-- The names are C strings.
abbrev pub NoNul : List ℕ → Type 0
NoNul [] = Unit {0}
NoNul (x ∷ xs) = (x ≢ 0) × NoNul xs

abbrev pub AllNamed : List Property → Type 0
AllNamed [] = Unit {0}
AllNamed (p ∷ ps) = NoNul p.name × AllNamed ps

abbrev pub IsNamed : Node → Type 0
IsNamed null = Unit {0}
IsNamed (node id ps children next) = AllNamed ps × IsNamed children × IsNamed next

read_bytes-Holds : (m : Ram) (a : ℕ) (bs : List ℕ) → Holds m a bs → read_bytes m a (length bs) ≡ bs
unfolding read_bytes
read_bytes-Holds m a [] h = refl
read_bytes-Holds m a (b ∷ bs) h = rw (h.0, read_bytes-Holds m (a + 1) bs h.1) refl

read_name-Holds :
    (m : Ram) (a n : ℕ) (name : List ℕ)
    → NoNul name
    → length name < n
    → Holds m a (name ++ 0 ∷ [])
    → read_name m a n ≡ name
unfolding read_name
read_name-Holds m a zero name ok fits h = absurd (omega (arith, fits))
read_name-Holds m a (suc n) [] ok fits h = ground (arith, h.0)
read_name-Holds m a (suc n) (x ∷ xs) ok fits h =
    ground (arith, h.0, ok.0, read_name-Holds m (a + 1) n xs ok.1 (omega (arith, fits)) h.1)

module _ (p : Property) (flat : IsFlat p) (m : Ram) (a : ℕ)
    (h : Holds m a (bytes_of_property p)) where
  abbrev named : List ℕ
  named = p.name ++ 0 ∷ []

  abbrev field : List ℕ
  field = named ++ replicate (31 - length p.name) 0

  abbrev padded : List ℕ
  padded = p.value ++ replicate (round_to_long (length p.value) - length p.value) 0

  name_field : Holds m a named
  name_field =
      Holds-left m a named (replicate (31 - length p.name) 0)
        (Holds-left m a field (le32 (length p.value) ++ padded) (unfold bytes_of_property in h))

  length_and_value : Holds m (a + 32) (le32 (length p.value) ++ padded)
  length_and_value =
      Holds-at m (a + length field) (a + 32) (le32 (length p.value) ++ padded)
        (omega (arith, size_name_field p flat))
        (Holds-right m a field (le32 (length p.value) ++ padded) (unfold bytes_of_property in h))

  length_field : read32 m (a + prop_name_length) ≡ length p.value
  length_field =
      Holds-read32 m (a + 32) (length p.value) (omega (arith, flat.value_fits))
        (Holds-left m (a + 32) (le32 (length p.value)) padded length_and_value)

  value_field : Holds m (a + sizeof_property) p.value
  value_field = Holds-at m (a + 32 + 4) (a + sizeof_property) p.value (omega arith) (
      Holds-left m (a + 32 + 4) p.value
        (replicate (round_to_long (length p.value) - length p.value) 0)
        (Holds-right m (a + 32) (le32 (length p.value)) padded length_and_value))

read_properties-Holds :
    (ps : List Property) (m : Ram) (a : ℕ)
    → AllFlat ps
    → AllNamed ps
    → Holds m a (bytes_of_properties ps)
    → read_properties m a (length ps) ≡ (ps, a + length (bytes_of_properties ps))
unfolding read_properties bytes_of_properties
read_properties-Holds [] m a flat named h = ground arith
read_properties-Holds (p ∷ ps) m a flat named h =
    let here = Holds-left m a (bytes_of_property p) (bytes_of_properties ps) h in
    let size = length-bytes_of_property p flat.0 in
    let next = a + sizeof_property + round_to_long (length p.value) in
    let there =
      Holds-at m (a + length (bytes_of_property p)) next (bytes_of_properties ps)
        (omega (arith, size)) (Holds-right m a (bytes_of_property p) (bytes_of_properties ps) h) in
    let rest = read_properties-Holds ps m next flat.1 named.1 there in
    let fits : length p.name < prop_name_length = omega (arith, flat.0.name_fits) in
    let end : next + length (bytes_of_properties ps)
        ≡ a + length (bytes_of_property p ++ bytes_of_properties ps) =
      omega (arith, size, length-append (bytes_of_property p) (bytes_of_properties ps)) in
    rw
      (
        length_field p flat.0 m a here,
        rest,
        read_name-Holds m a prop_name_length p.name named.0 fits (name_field p flat.0 m a here),
        read_bytes-Holds m (a + sizeof_property) p.value (value_field p flat.0 m a here),
        end,
      )
      refl

siblings-le : (t : Node) → siblings t ≤ length (bytes_of t)
unfolding siblings bytes_of
siblings-le null = omega arith
siblings-le (node id ps children next) = omega (
  arith,
  siblings-le next,
  length-append (bytes_of_properties ps) (bytes_of children ++ bytes_of next),
  length-append (bytes_of children) (bytes_of next),
)

read_nodes-Holds :
    (t : Node) (fuel : ℕ) (m : Ram) (a : ℕ)
    → total (λ ps. 1) t ≤ fuel
    → IsFlatTree t
    → IsNamed t
    → length (bytes_of t) < word
    → Holds m a (bytes_of t)
    → read_nodes fuel m a (siblings t) ≡ (erase t, a + length (bytes_of t))
unfolding read_nodes bytes_of siblings erase total
read_nodes-Holds null zero m a enough flat named fits h = ground arith
read_nodes-Holds null (suc fuel) m a enough flat named fits h = ground arith
read_nodes-Holds (node id ps children next) zero m a enough flat named fits h =
    absurd (omega (arith, enough))
read_nodes-Holds (node id ps children next) (suc fuel) m a enough flat named fits h =
    let props = bytes_of_properties ps in
    let cs = bytes_of children in
    let ns = bytes_of next in
    let e1 = length-append props (cs ++ ns) in
    let e2 = length-append cs ns in
    let e3 = length-bytes_of_properties ps flat.0 in
    let np : length ps < word = omega (arith, fits, e1, e2, e3) in
    let nc : siblings children < word = omega (arith, fits, e1, e2, siblings-le children) in
    let counts =
      Holds-right m a (le32 (length ps)) (le32 (siblings children) ++ (props ++ (cs ++ ns))) h in
    let body : Holds m (a + sizeof_node) (props ++ (cs ++ ns)) =
      Holds-at m (a + 4 + 4) (a + sizeof_node) (props ++ (cs ++ ns)) (omega arith)
        (Holds-right m (a + 4) (le32 (siblings children)) (props ++ (cs ++ ns)) counts) in
    let below = Holds-right m (a + sizeof_node) props (cs ++ ns) body in
    rw
      (
        Holds-read32 m a (length ps) np (
            Holds-left m a (le32 (length ps)) (le32 (siblings children) ++ (props ++ (cs ++ ns)))
              h),
        Holds-read32 m (a + 4) (siblings children) nc
            (Holds-left m (a + 4) (le32 (siblings children)) (props ++ (cs ++ ns)) counts),
        read_properties-Holds ps m (a + sizeof_node) flat.0 named.0
            (Holds-left m (a + sizeof_node) props (cs ++ ns) body),
        read_nodes-Holds children fuel m (a + sizeof_node + length props) (omega (arith, enough))
            flat.1 named.1 (omega (arith, fits, e1, e2))
            (Holds-left m (a + sizeof_node + length props) cs ns below),
        read_nodes-Holds next fuel m (a + sizeof_node + length props + length cs)
            (omega (arith, enough)) flat.2 named.2 (omega (arith, fits, e1, e2))
            (Holds-right m (a + sizeof_node + length props) cs ns below),
        e1,
        e2,
      )
      (ground arith)

-- The root's identity is there exactly where the root is, and it has no siblings.
alone-siblings :
    (t : Node) (id : ℕ)
    → alone t ≡ t
    → elim t [ null ↦ none | node i ps children next ↦ some i ] ≡ some id
    → siblings t ≡ 1
unfolding siblings
alone-siblings null id e r = absurd (ground (arith, r))
alone-siblings (node i ps children null) id e r = refl
alone-siblings (node i ps children (node j qs c n)) id e r = absurd (ground (arith, e))

module _ {W : Type 0} (h : Heap W) {t : DeviceTree W} (built : Built h t) (flat : IsFlatTree t.root)
    (named : IsNamed t.root) (fits : length (bytes_of t.root) < word) where
  -- What a tree that the operations built is flattened to reads back as the tree: where it has a
  -- root, its names are C strings that fit in their fields, and its flat form is shorter than 2 ^ 32
  -- bytes, following the counts and lengths from the start of the block gives every node with its
  -- properties, children and siblings in order, less the addresses, and ends at the end of the block.
  pub read_nodes-flatten_device_tree :
      (id allocated buffer : ℕ) (m : Ram)
      → root_node t ≡ some id
      → let out = flatten_device_tree allocated (some buffer) t m in
        let at = if buffer == 0 then allocated else buffer in
        read_nodes out.0 out.2 at 1 ≡ (erase t.root, at + out.0)
  read_nodes-flatten_device_tree id allocated buffer m root =
      let at = if buffer == 0 then allocated else buffer in
      let block =
        flatten_device_tree-Writes (Built-IsCounted h built) (Built-Alone h built) flat fits
          allocated buffer m in
      let one = alone-siblings t.root id (Built-Alone h built) (unfold root_node in root) in
      let enough = length-bytes_of t.root flat in
      rw (sym one, block.0)
        (read_nodes-Holds t.root (length (bytes_of t.root))
          (flatten_device_tree allocated (some buffer) t m).2 at (omega (arith, enough)) flat named
          fits block.2.0)
