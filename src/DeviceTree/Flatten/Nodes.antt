-- ===== src/DeviceTree/Flatten/Nodes.antt =====
-- What flattening a whole tree writes.
use xnu_uboot_arm.Base.{
  ℕ, ◌+◌, ◌*◌, ◌<◌, ◌≡◌, refl, List, [], ◌∷◌, ◌++◌, length, length-append, word, Ram, write32,
  write32-SameOutside, Holds, Zeros, le32, write32-Holds, Holds-append, Holds-at, Holds-same,
  Zeros-same, Writes, arith,
}
use xnu_uboot_arm.DeviceTree.{Property, Node, null, node, DeviceTree}
use xnu_uboot_arm.DeviceTree.Count.{total, sizes, IsCounted}
use xnu_uboot_arm.DeviceTree.Flatten.{
  sizeof_node, sizeof_property, flatten_properties, flatten_nodes, total_size,
}
use xnu_uboot_arm.DeviceTree.Flatten.Written.{
  AllFlat, IsFlatTree, siblings, bytes_of_property, length-bytes_of_property, bytes_of_properties,
  bytes_of, Laid, flatten_properties-Laid,
}

-- The order of the writes of one node: the properties `ps`, the first word of the header, the
-- children `cs`, the second word, and the next siblings `ns`.
module _ (m m1 m2 m3 : Ram) (b np nc : ℕ) (ps cs ns : List ℕ) where
  abbrev with_count : Ram
  with_count = write32 m1 b np

  abbrev with_children : Ram
  with_children = write32 m2 (b + 4) nc

  abbrev children_at : ℕ
  children_at = b + 8 + length ps

  abbrev next_at : ℕ
  next_at = children_at + length cs

  abbrev whole : List ℕ
  whole = le32 np ++ (le32 nc ++ (ps ++ (cs ++ ns)))

  length-whole : length whole ≡ 8 + length ps + length cs + length ns
  length-whole = omega (arith, length-append ps (cs ++ ns), length-append cs ns)

  module _ (wp : Writes (b + 8) ps m m1) where
    children-Zeros : Zeros m b (length whole) → Zeros with_count children_at (length cs)
    children-Zeros z =
        Zeros-same m with_count children_at (length cs)
          (λ c l k. ground (arith, wp.1 c, write32-SameOutside m1 b np c))
          (λ c l k. z c (omega arith) (omega (arith, length-whole)))

    module _ (wc : Writes children_at cs with_count m2) where
      next-Zeros : Zeros m b (length whole) → Zeros with_children next_at (length ns)
      next-Zeros z =
          Zeros-same m with_children next_at (length ns)
            (λ c l k. ground (
              arith,
              wp.1 c,
              write32-SameOutside m1 b np c,
              wc.1 c,
              write32-SameOutside m2 (b + 4) nc c,
            ))
            (λ c l k. z c (omega arith) (omega (arith, length-whole)))

      module _ (wn : Writes next_at ns with_children m3) where
        number-Holds : Holds m3 b (le32 np)
        number-Holds =
            Holds-same with_count m3 b (le32 np)
              (λ c l k. ground (arith, wc.1 c, write32-SameOutside m2 (b + 4) nc c, wn.1 c))
              (write32-Holds m1 b np)

        siblings-Holds : Holds m3 (b + 4) (le32 nc)
        siblings-Holds =
            Holds-same with_children m3 (b + 4) (le32 nc) (λ c l k. ground (arith, wn.1 c))
              (write32-Holds m2 (b + 4) nc)

        properties-Holds : Holds m3 (b + 8) ps
        properties-Holds =
            Holds-same m1 m3 (b + 8) ps
              (λ c l k. ground (
                arith,
                write32-SameOutside m1 b np c,
                wc.1 c,
                write32-SameOutside m2 (b + 4) nc c,
                wn.1 c,
              ))
              wp.0

        children-Holds : Holds m3 children_at cs
        children-Holds =
            Holds-same m2 m3 children_at cs
              (λ c l k. ground (arith, write32-SameOutside m2 (b + 4) nc c, wn.1 c)) wc.0

        node-Writes : Writes b whole m m3
        node-Writes = (
          Holds-append m3 b (le32 np) (le32 nc ++ (ps ++ (cs ++ ns))) number-Holds (
              Holds-append m3 (b + 4) (le32 nc) (ps ++ (cs ++ ns)) siblings-Holds (
                Holds-at m3 (b + 8) (b + 4 + 4) (ps ++ (cs ++ ns)) (omega arith) (
                  Holds-append m3 (b + 8) ps (cs ++ ns) properties-Holds
                    (Holds-append m3 children_at cs ns children-Holds wn.0)))),
          λ c out. ground (
            arith,
            length-whole,
            wp.1 c,
            write32-SameOutside m1 b np c,
            wc.1 c,
            write32-SameOutside m2 (b + 4) nc c,
            wn.1 c,
          ),
        )

pub flatten_nodes-Laid :
    (t : Node) (m : Ram) (b : ℕ)
    → IsFlatTree t
    → Zeros m b (length (bytes_of t))
    → Laid (bytes_of t) (siblings t) m b (flatten_nodes t m b)
unfolding flatten_nodes bytes_of siblings
flatten_nodes-Laid null m b flat z = record {
  writes = (tt, λ c out. refl);
  end_of = omega arith;
  count = refl;
}
flatten_nodes-Laid (node id ps children next) m b flat z =
    let props = bytes_of_properties ps in
    let cs = bytes_of children in
    let ns = bytes_of next in
    let np = length ps in
    let nc = siblings children in
    let r1 = flatten_properties ps m (b + sizeof_node) in
    let k1 =
      flatten_properties-Laid ps m (b + sizeof_node) flat.0
        (λ c l k. z c (omega arith) (omega (arith, length-whole m r1.0 m m b np nc props cs ns))) in
    let m1' = with_count m r1.0 m m b np nc props cs ns in
    let b1 = children_at m r1.0 m m b np nc props cs ns in
    let r2 = flatten_nodes children m1' b1 in
    let k2 =
      flatten_nodes-Laid children m1' b1 flat.1
        (children-Zeros m r1.0 m m b np nc props cs ns k1.writes z) in
    let m2' = with_children m r1.0 r2.0 m b np nc props cs ns in
    let b2 = next_at m r1.0 r2.0 m b np nc props cs ns in
    let k3 =
      flatten_nodes-Laid next m2' b2 flat.2
        (next-Zeros m r1.0 r2.0 m b np nc props cs ns k1.writes k2.writes z) in
    rw (k1.end_of, k1.count, k2.end_of, k2.count)
      (record {
        writes =
            node-Writes m r1.0 r2.0 (flatten_nodes next m2' b2).0 b np nc props cs ns k1.writes
              k2.writes k3.writes;
        end_of = omega (arith, k3.end_of, length-whole m r1.0 m m b np nc props cs ns);
        count = omega (arith, k3.count);
      })

pub length-bytes_of_properties :
    (ps : List Property)
    → AllFlat ps
    → length (bytes_of_properties ps) ≡ sizeof_property * length ps + sizes ps
unfolding bytes_of_properties sizes
length-bytes_of_properties [] flat = refl
length-bytes_of_properties (p ∷ ps) flat = omega (
  arith,
  length-append (bytes_of_property p) (bytes_of_properties ps),
  length-bytes_of_property p flat.0,
  length-bytes_of_properties ps flat.1,
)

pub length-bytes_of :
    (t : Node)
    → IsFlatTree t
    → length (bytes_of t)
      ≡ sizeof_node * total (λ ps. 1) t + sizeof_property * total length t + total sizes t
unfolding bytes_of total
length-bytes_of null flat = refl
length-bytes_of (node id ps children next) flat = omega (
  arith,
  length-whole (λ a. 0) (λ a. 0) (λ a. 0) (λ a. 0) 0 (length ps) (siblings children)
      (bytes_of_properties ps) (bytes_of children) (bytes_of next),
  length-bytes_of_properties ps flat.0,
  length-bytes_of children flat.1,
  length-bytes_of next flat.2,
)

pub total_size-IsCounted :
    {W : Type 0} (t : DeviceTree W)
    → IsCounted t
    → IsFlatTree t.root
    → length (bytes_of t.root) < word
    → total_size t ≡ length (bytes_of t.root)
unfolding total_size
total_size-IsCounted t c flat fits =
    omega (arith, c.nodes, c.properties, c.property_sizes, length-bytes_of t.root flat, fits)
