-- ===== src/DeviceTree/Count.antt =====
-- `DTInfo` counts what is in the tree, and no node stands in it twice.
use xnu_uboot_arm.Base.{
  ℕ, ◌+◌, ◌%◌, ◌≤◌, ◌≡◌, refl, List, [], ◌∷◌, ◌++◌, ◌==◌, if◌then◌else◌, length, word, arith,
}
use xnu_uboot_arm.DeviceTree.{
  Property, Node, null, node, round_to_long, DeviceTree, append_property, insert_child,
}

-- How often a node stands in a tree, and a weight of the lists of properties summed over the nodes.
unfoldable pub occurs : (id : ℕ) → Node → ℕ
occurs id null = 0
occurs id (node i ps children next) =
    (if i == id then 1 else 0) + occurs id children + occurs id next

unfoldable pub total : (List Property → ℕ) → Node → ℕ
total f null = 0
total f (node i ps children next) = f ps + total f children + total f next

unfoldable pub sizes : List Property → ℕ
sizes [] = 0
sizes (p ∷ ps) = round_to_long (length p.value) + sizes ps

pub sizes-append :
    (ps : List Property) (p : Property)
    → sizes (ps ++ p ∷ []) ≡ sizes ps + round_to_long (length p.value)
unfolding sizes
sizes-append [] p = omega arith
sizes-append (q ∷ ps) p = omega (arith, sizes-append ps p)

append_property-absent :
    (id : ℕ) (p : Property) (t : Node) → occurs id t ≡ 0 → append_property id p t ≡ t
unfolding append_property occurs
append_property-absent id p null h = refl
append_property-absent id p (node i ps children next) h =
    ground (arith, append_property-absent id p children, append_property-absent id p next)

insert_child-absent : (id c : ℕ) (t : Node) → occurs id t ≡ 0 → insert_child id c t ≡ t
unfolding insert_child occurs
insert_child-absent id c null h = refl
insert_child-absent id c (node i ps children next) h =
    ground (arith, insert_child-absent id c children, insert_child-absent id c next)

pub occurs-append_property :
    (j id : ℕ) (p : Property) (t : Node) → occurs j (append_property id p t) ≡ occurs j t
unfolding append_property occurs
occurs-append_property j id p null = refl
occurs-append_property j id p (node i ps children next) =
    ground (arith, occurs-append_property j id p children, occurs-append_property j id p next)

pub occurs-insert_child :
    (j id c : ℕ) (t : Node)
    → occurs id t ≡ 1
    → occurs j (insert_child id c t) ≡ occurs j t + (if c == j then 1 else 0)
unfolding insert_child occurs
occurs-insert_child j id c null h = absurd (omega arith)
occurs-insert_child j id c (node i ps children next) h = ground (
  arith,
  insert_child-absent id c children,
  insert_child-absent id c next,
  occurs-insert_child j id c children,
  occurs-insert_child j id c next,
)

module _ (f : List Property → ℕ) where
  pub total-append_property :
      (id : ℕ) (p : Property) (k : ℕ) (t : Node)
      → ((ps : List Property) → f (ps ++ p ∷ []) ≡ f ps + k)
      → occurs id t ≡ 1
      → total f (append_property id p t) ≡ total f t + k
  unfolding append_property occurs total
  total-append_property id p k null grows h = absurd (omega arith)
  total-append_property id p k (node i ps children next) grows h = ground (
    arith,
    grows ps,
    append_property-absent id p children,
    append_property-absent id p next,
    total-append_property id p k children grows,
    total-append_property id p k next grows,
  )

  pub total-insert_child :
      (id c : ℕ) (t : Node) → occurs id t ≡ 1 → total f (insert_child id c t) ≡ total f t + f []
  unfolding insert_child occurs total
  total-insert_child id c null h = absurd (omega arith)
  total-insert_child id c (node i ps children next) h = ground (
    arith,
    insert_child-absent id c children,
    insert_child-absent id c next,
    total-insert_child id c children,
    total-insert_child id c next,
  )

-- The counts agree with the tree, modulo 2 ^ 32; no node stands in it twice, and the next one does
-- not stand in it.
pub record IsCounted {W : Type 0} (t : DeviceTree W) : Type 0 where
  pub nodes : t.num_nodes ≡ total (λ ps. 1) t.root % word
  pub properties : t.num_properties ≡ total length t.root % word
  pub property_sizes : t.total_property_size ≡ total sizes t.root % word
  pub fresh : (i : ℕ) → t.next_id ≤ i → occurs i t.root ≡ 0
  pub unique : (i : ℕ) → occurs i t.root ≤ 1
