-- ===== src/DeviceTree/Flatten/Written.antt =====
-- What flattening writes: the bytes of the tree, one after the other, and nothing else.
use xnu_uboot_arm.Base.{
  ℕ, suc, ◌+◌, ◌-◌, ◌≤◌, ◌≡◌, refl, List, [], ◌∷◌, ◌++◌, length, length-append, length-replicate,
  replicate, word, Ram, write32, write32-SameOutside, write_bytes, AllBytes, Zeros, le32,
  write_bytes-SameOutside, Writes, Writes-append, Writes-at, Zeros-Writes, Zeros-part, Zeros-rest,
  write_bytes-Writes, write32-Writes, arith,
}
use xnu_uboot_arm.DeviceTree.{Property, Node, null, node, round_to_long}
use xnu_uboot_arm.DeviceTree.Flatten.{
  sizeof_property, prop_name_length, flatten_property, flatten_properties,
}

-- A property whose name fits in its field with its NUL, and whose value is not nearly 2 ^ 32 bytes.
pub record IsFlat (p : Property) : Type 0 where
  pub name_fits : length p.name ≤ 31
  pub name_bytes : AllBytes (p.name ++ 0 ∷ [])
  pub value_fits : length p.value + 4 ≤ word
  pub value_bytes : AllBytes p.value

abbrev pub AllFlat : List Property → Type 0
AllFlat [] = Unit {0}
AllFlat (p ∷ ps) = IsFlat p × AllFlat ps

abbrev pub IsFlatTree : Node → Type 0
IsFlatTree null = Unit {0}
IsFlatTree (node id ps children next) = AllFlat ps × IsFlatTree children × IsFlatTree next

-- The number of a node and its siblings.
unfoldable pub siblings : Node → ℕ
siblings null = 0
siblings (node id ps children next) = suc (siblings next)

-- The flat form: the name and the value are padded with zeros.
unfoldable pub bytes_of_property : Property → List ℕ
bytes_of_property p =
    ((p.name ++ 0 ∷ []) ++ replicate (31 - length p.name) 0)
    ++ (le32 (length p.value)
        ++ (p.value ++ replicate (round_to_long (length p.value) - length p.value) 0))

unfoldable pub bytes_of_properties : List Property → List ℕ
bytes_of_properties [] = []
bytes_of_properties (p ∷ ps) = bytes_of_property p ++ bytes_of_properties ps

unfoldable pub bytes_of : Node → List ℕ
bytes_of null = []
bytes_of (node id ps children next) =
    le32 (length ps)
    ++ (le32 (siblings children)
        ++ (bytes_of_properties ps ++ (bytes_of children ++ bytes_of next)))

module _ (p : Property) (h : IsFlat p) where
  abbrev named : List ℕ
  named = p.name ++ 0 ∷ []

  abbrev name_pad : List ℕ
  name_pad = replicate (31 - length p.name) 0

  abbrev value_pad : List ℕ
  value_pad = replicate (round_to_long (length p.value) - length p.value) 0

  size_named : length named ≡ length p.name + 1
  size_named = length-append p.name (0 ∷ [])

  pub size_name_field : length (named ++ name_pad) ≡ 32
  size_name_field = omega (
    arith,
    length-append named name_pad,
    size_named,
    length-replicate {A = ℕ} (31 - length p.name) 0,
    h.name_fits,
  )

  rounds : length p.value ≤ round_to_long (length p.value)
  rounds = omega (arith, h.value_fits)

  size_value_field : length (p.value ++ value_pad) ≡ round_to_long (length p.value)
  size_value_field = omega (
    arith,
    length-append p.value value_pad,
    length-replicate {A = ℕ} (round_to_long (length p.value) - length p.value) 0,
    rounds,
  )

  pub length-bytes_of_property :
      length (bytes_of_property p) ≡ sizeof_property + round_to_long (length p.value)
  unfolding bytes_of_property
  length-bytes_of_property = omega (
    arith,
    length-append (named ++ name_pad) (le32 (length p.value) ++ (p.value ++ value_pad)),
    size_name_field,
    length-append (le32 (length p.value)) (p.value ++ value_pad),
    size_value_field,
  )

  module _ (m : Ram) (b : ℕ)
      (z : Zeros m b (sizeof_property + round_to_long (length p.value))) where
    abbrev m1 : Ram
    m1 = write_bytes m b named

    abbrev m2 : Ram
    m2 = write32 m1 (b + prop_name_length) (length p.value)

    abbrev m3 : Ram
    m3 = write_bytes m2 (b + sizeof_property) p.value

    z1 :
        Zeros m1
          (b + length named)
          (sizeof_property + round_to_long (length p.value) - length named)
    z1 =
        Zeros-rest m m1 b (sizeof_property + round_to_long (length p.value)) (length named)
          (write_bytes-SameOutside m b named) z

    name_field-Writes : Writes b (named ++ name_pad) m m1
    name_field-Writes =
        Writes-append b named name_pad m m1 m1 (write_bytes-Writes m b named h.name_bytes) (
          Zeros-Writes m1 (b + length named) (31 - length p.name) (
            Zeros-part m1 (b + length named)
              (sizeof_property + round_to_long (length p.value) - length named) (b + length named)
              (31 - length p.name) (omega arith) (omega (arith, size_named)) z1))

    z3 :
        Zeros m3
          (b + sizeof_property + length p.value)
          (round_to_long (length p.value) - length p.value)
    z3 a low high =
        Zeros-rest m m3 b (sizeof_property + round_to_long (length p.value))
          (sizeof_property + length p.value)
          (λ c out. ground (
            arith,
            size_named,
            h.name_fits,
            write_bytes-SameOutside m2 (b + sizeof_property) p.value c,
            write32-SameOutside m1 (b + prop_name_length) (length p.value) c,
            write_bytes-SameOutside m b named c,
          ))
          z a (omega arith) (omega arith)

    value_field-Writes : Writes (b + sizeof_property) (p.value ++ value_pad) m2 m3
    value_field-Writes =
        Writes-append (b + sizeof_property) p.value value_pad m2 m3 m3
          (write_bytes-Writes m2 (b + sizeof_property) p.value h.value_bytes)
          (Zeros-Writes m3 (b + sizeof_property + length p.value)
            (round_to_long (length p.value) - length p.value) z3)

    pub flatten_property-Writes : Writes b (bytes_of_property p) m (flatten_property p m b)
    unfolding flatten_property bytes_of_property
    flatten_property-Writes =
        Writes-append b (named ++ name_pad) (le32 (length p.value) ++ (p.value ++ value_pad)) m m1
          m3 name_field-Writes
          (Writes-at (b + prop_name_length) (b + length (named ++ name_pad))
            (le32 (length p.value) ++ (p.value ++ value_pad)) m1 m3 (omega (arith, size_name_field))
            (Writes-append (b + prop_name_length) (le32 (length p.value)) (p.value ++ value_pad) m1
              m2 m3 (write32-Writes m1 (b + prop_name_length) (length p.value))
              (Writes-at (b + sizeof_property) (b + prop_name_length + 4) (p.value ++ value_pad) m2
                m3 (omega arith) value_field-Writes)))

-- A loop has written `bs`, ended behind it, and counted `n`.
pub record Laid (bs : List ℕ) (n : ℕ) (m : Ram) (b : ℕ) (r : Ram × ℕ × ℕ) : Type 0 where
  pub writes : Writes b bs m r.0
  pub end_of : r.1 ≡ b + length bs
  pub count : r.2 ≡ n

pub flatten_properties-Laid :
    (ps : List Property) (m : Ram) (b : ℕ)
    → AllFlat ps
    → Zeros m b (length (bytes_of_properties ps))
    → Laid (bytes_of_properties ps) (length ps) m b (flatten_properties ps m b)
unfolding flatten_properties bytes_of_properties
flatten_properties-Laid [] m b flat z = record {
  writes = (tt, λ c out. refl);
  end_of = omega arith;
  count = refl;
}
flatten_properties-Laid (p ∷ ps) m b flat z =
    let step = round_to_long (length p.value) in
    let size = length-bytes_of_property p flat.0 in
    let both = length-append (bytes_of_property p) (bytes_of_properties ps) in
    let here = flatten_property-Writes p flat.0 m b (
      Zeros-part m b (length (bytes_of_property p ++ bytes_of_properties ps)) b
        (sizeof_property + step) (omega arith) (omega (arith, size, both)) z) in
    let rest =
      flatten_properties-Laid ps (flatten_property p m b) (b + sizeof_property + step) flat.1
        (λ c l k.
          Zeros-rest m (flatten_property p m b) b
            (length (bytes_of_property p ++ bytes_of_properties ps)) (length (bytes_of_property p))
            here.1 z c (omega (arith, size)) (omega (arith, size, both))) in
    record {
      writes =
          Writes-append b (bytes_of_property p) (bytes_of_properties ps) m (flatten_property p m b)
            (flatten_properties ps (flatten_property p m b) (b + sizeof_property + step)).0 here
            (Writes-at (b + sizeof_property + step) (b + length (bytes_of_property p))
              (bytes_of_properties ps) (flatten_property p m b)
              (flatten_properties ps (flatten_property p m b) (b + sizeof_property + step)).0
              (omega (arith, size)) rest.writes);
      end_of = omega (arith, rest.end_of, size, both);
      count = omega (arith, rest.count);
    }
