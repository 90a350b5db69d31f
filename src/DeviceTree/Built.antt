-- ===== src/DeviceTree/Built.antt =====
-- Trees that the operations of device_tree/device_tree.c build keep their counts.
use xnu_uboot_arm.Base.{
  ℕ, ◌-◌, ◌≡◌, ◌∙◌, refl, ap, Bool-cases, inl, inr, Option, none, some, List, [], ◌∷◌, ◌++◌, length,
  length-append, add32, codes, arith,
}
use xnu_uboot_arm.DeviceTree.{
  Property, null, round_to_long, DeviceTree, Heap, append_property, refill_properties, refill_nodes,
  add_property, link_node, name_node, add_child, initialize,
}
use xnu_uboot_arm.DeviceTree.Count.{
  occurs, total, sizes, sizes-append, occurs-append_property, occurs-insert_child,
  total-append_property, total-insert_child, IsCounted,
}

module _ {W : Type 0} (h : Heap W) where
  -- The tree and its counts are the same.
  pub record SameTree (t t' : DeviceTree W) : Type 0 where
    pub root : t'.root ≡ t.root
    pub num_nodes : t'.num_nodes ≡ t.num_nodes
    pub num_properties : t'.num_properties ≡ t.num_properties
    pub total_property_size : t'.total_property_size ≡ t.total_property_size
    pub next_id : t'.next_id ≡ t.next_id

  pub refill_properties-SameTree : (t : DeviceTree W) → SameTree t (refill_properties h t).1
  unfolding refill_properties
  refill_properties-SameTree t = ground arith

  pub refill_nodes-SameTree : (t : DeviceTree W) → SameTree t (refill_nodes h t).1
  unfolding refill_nodes
  refill_nodes-SameTree t = ground arith

  pub SameTree-IsCounted : (t t' : DeviceTree W) → SameTree t t' → IsCounted t → IsCounted t'
  SameTree-IsCounted t t' s c = record {
    nodes = rw (s.root, s.num_nodes) c.nodes;
    properties = rw (s.root, s.num_properties) c.properties;
    property_sizes = rw (s.root, s.total_property_size) c.property_sizes;
    fresh = rw (s.root, s.next_id) c.fresh;
    unique = rw s.root c.unique;
  }

  -- The tree with one property more at the node `id`, and the counts with it.
  abbrev grown : (id : ℕ) (name value : List ℕ) → DeviceTree W → DeviceTree W
  grown id name value t = record t {
    free_properties = t.free_properties - 1;
    root = append_property id (record { name = name; value = value }) t.root;
    num_properties = add32 t.num_properties 1;
    total_property_size = add32 t.total_property_size (round_to_long (length value));
  }

  grown-IsCounted :
      (id : ℕ) (name value : List ℕ) (t : DeviceTree W)
      → occurs id t.root ≡ 1
      → IsCounted t
      → IsCounted (grown id name value t)
  grown-IsCounted id name value t one c =
      let p : Property = record { name = name; value = value } in
      record {
        nodes =
            omega (
              arith,
              c.nodes,
              total-append_property (λ ps. 1) id p 0 t.root (λ ps. omega arith) one,
            );
        properties = omega (
          arith,
          c.properties,
          total-append_property length id p 1 t.root
              (λ ps. omega (arith, length-append ps (p ∷ []))) one,
        );
        property_sizes = omega (
          arith,
          c.property_sizes,
          total-append_property sizes id p (round_to_long (length value)) t.root
              (λ ps. sizes-append ps p) one,
        );
        fresh = λ i k. occurs-append_property i id p t.root ∙ c.fresh i k;
        unique = λ i. omega (arith, occurs-append_property i id p t.root, c.unique i);
      }

  pub add_property-IsCounted :
      (id : ℕ) (name value : List ℕ) (t : DeviceTree W)
      → occurs id t.root ≡ 1
      → IsCounted t
      → IsCounted (add_property h id name value t).1
  unfolding add_property
  add_property-IsCounted id name value t one c =
      let same = refill_properties-SameTree t in
      let counted = SameTree-IsCounted t (refill_properties h t).1 same c in
      elim (Bool-cases (refill_properties h t).0) [
        | inr failed ↦ rw (failed, add_property) counted
        | inl ready ↦
            rw (ready, add_property)
              (grown-IsCounted id name value (refill_properties h t).1
                (ap (occurs id) same.root ∙ one) counted)
      ]

  pub link_node-IsCounted :
      (p : ℕ) (t : DeviceTree W)
      → occurs p t.root ≡ 1
      → IsCounted t
      → IsCounted (link_node h (some p) t) × (occurs t.next_id (link_node h (some p) t).root ≡ 1)
  unfolding link_node sizes
  link_node-IsCounted p t one c =
      let new = occurs-insert_child t.next_id p t.next_id t.root one in
      (
        record {
          nodes = omega (arith, c.nodes, total-insert_child (λ ps. 1) p t.next_id t.root one);
          properties =
              omega (arith, c.properties, total-insert_child length p t.next_id t.root one);
          property_sizes =
              omega (arith, c.property_sizes, total-insert_child sizes p t.next_id t.root one);
          fresh = λ i k. ground (arith, c.fresh i, occurs-insert_child i p t.next_id t.root one);
          unique = λ i.
              ground (arith, c.fresh i, c.unique i, occurs-insert_child i p t.next_id t.root one);
        },
        ground (arith, new, c.fresh t.next_id),
      )

  pub name_node-IsCounted :
      (id : ℕ) (name : Option (List ℕ)) (t : DeviceTree W)
      → occurs id t.root ≡ 1
      → IsCounted t
      → IsCounted (name_node h id name t)
  unfolding name_node
  name_node-IsCounted id none t one c = c
  name_node-IsCounted id (some name) t one c =
      add_property-IsCounted id (codes "name") (name ++ 0 ∷ []) t one c

  add_child-IsCounted :
      (p : ℕ) (name : Option (List ℕ)) (t : DeviceTree W)
      → occurs p t.root ≡ 1
      → IsCounted t
      → IsCounted (add_child h (some p) name t).1
  unfolding add_child
  add_child-IsCounted p name t one c =
      let t1 = (refill_nodes h t).1 in
      let same = refill_nodes-SameTree t in
      let counted = SameTree-IsCounted t t1 same c in
      elim (Bool-cases (refill_nodes h t).0) [
        | inr failed ↦ rw (failed, add_child) counted
        | inl ready ↦
            let linked = link_node-IsCounted p t1 (ap (occurs p) same.root ∙ one) counted in
            rw (ready, add_child)
              (name_node-IsCounted t1.next_id name (link_node h (some p) t1) linked.1 linked.0)
      ]

  -- The emptied state, and the state with its root linked.
  abbrev emptied : DeviceTree W → DeviceTree W
  emptied t = record t {
    free_nodes = 0;
    alloced_nodes = [];
    free_properties = 0;
    alloced_properties = [];
    num_nodes = 0;
    num_properties = 0;
    total_property_size = 0;
  }

  rooted-IsCounted :
      (t : DeviceTree W)
      → t.num_nodes ≡ 0
      → t.num_properties ≡ 0
      → t.total_property_size ≡ 0
      → IsCounted (link_node h none t) × (occurs t.next_id (link_node h none t).root ≡ 1)
  unfolding link_node occurs total sizes
  rooted-IsCounted t a b e = (
    record {
      nodes = omega arith;
      properties = omega arith;
      property_sizes = omega arith;
      fresh = λ i k. ground arith;
      unique = λ i. ground arith;
    },
    ground arith,
  )

  -- The root of a fresh tree has been linked, or there was no memory for it.
  abbrev Rooted : Option ℕ × DeviceTree W → Type 0
  Rooted (none, t) = IsCounted (record t { root = null })
  Rooted (some id, t) = IsCounted t

  add_child-Rooted : (t : DeviceTree W) → Rooted (add_child h none (some (codes "/")) (emptied t))
  unfolding add_child occurs total
  add_child-Rooted t =
      let t1 = (refill_nodes h (emptied t)).1 in
      let same = refill_nodes-SameTree (emptied t) in
      elim (Bool-cases (refill_nodes h (emptied t)).0) [
        | inr failed ↦
            rw (failed, add_child)
              (record {
                nodes = omega (arith, same.num_nodes);
                properties = omega (arith, same.num_properties);
                property_sizes = omega (arith, same.total_property_size);
                fresh = λ i k. refl;
                unique = λ i. omega arith;
              })
        | inl ready ↦
            let linked =
              rooted-IsCounted t1 same.num_nodes same.num_properties same.total_property_size in
            rw (ready, add_child)
              (name_node-IsCounted t1.next_id (some (codes "/")) (link_node h none t1) linked.1
                linked.0)
      ]

  initialize-IsCounted : (t : DeviceTree W) → IsCounted (initialize h t)
  unfolding initialize
  initialize-IsCounted t = go (add_child h none (some (codes "/")) (emptied t)) (add_child-Rooted t)
    where
      go :
          (r : Option ℕ × DeviceTree W)
          → Rooted r
          → IsCounted (elim r.0 [ none ↦ record r.1 { root = null } | some id ↦ r.1 ])
      go (none, u) c = c
      go (some id, u) c = c

  -- A state that `DT__Initialize` and any calls of `DT__AddChild` and `DT__AddProperty` on nodes of
  -- the tree lead to, failed ones included.
  pub data Built : DeviceTree W → Type 0 where
    initial : (t : DeviceTree W) → Built (initialize h t)
    child :
        {t : DeviceTree W} (parent : ℕ) (name : Option (List ℕ))
        → Built t
        → occurs parent t.root ≡ 1
        → Built (add_child h (some parent) name t).1
    property :
        {t : DeviceTree W} (id : ℕ) (name value : List ℕ)
        → Built t
        → occurs id t.root ≡ 1
        → Built (add_property h id name value t).1

  -- In every state that `DT__Initialize`, and after it `DT__AddChild` and `DT__AddProperty` on nodes
  -- of the tree, lead to, allocations that fail included, the counts of nodes, properties and bytes
  -- are those of the tree, modulo 2 ^ 32, no node stands in the tree twice, and the next node does not
  -- stand in it.
  pub Built-IsCounted : {t : DeviceTree W} → Built t → IsCounted t
  Built-IsCounted (initial t) = initialize-IsCounted t
  Built-IsCounted (child {t} parent name b one) =
      add_child-IsCounted parent name t one (Built-IsCounted b)
  Built-IsCounted (property {t} id name value b one) =
      add_property-IsCounted id name value t one (Built-IsCounted b)
