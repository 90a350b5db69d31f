-- ===== src/DeviceTree/Rooted.antt =====
-- The tree that `DT__Initialize` begins with is in order and has a root, which later steps keep.
use xnu_uboot_arm.Base.{
  ℕ, ◌≡◌, ◌≢◌, ◌∙◌, refl, ap, true, Option, none, some, List, [], ◌∷◌, ◌++◌, codes, arith,
}
use xnu_uboot_arm.DeviceTree.{
  Property, Node, null, node, Heap, DeviceTree, append_property, refill_properties, refill_nodes,
  link_node, name_node, add_property, add_child, initialize, root_node,
}
use xnu_uboot_arm.DeviceTree.Count.{occurs}
use xnu_uboot_arm.DeviceTree.Built.{refill_nodes-SameTree, initial, Built-IsCounted}
use xnu_uboot_arm.DeviceTree.Flatten.Output.{Built-Alone}
use xnu_uboot_arm.DeviceTree.Kept.{IsTended, refill_nodes-ready}
use xnu_uboot_arm.Boot.Counted.{root_node-IsHome}

module _ (id j : ℕ) (p : Property) where
  append_property-root :
      (n : Node)
      → elim n [ null ↦ none | node i ps children next ↦ some i ] ≡ some j
      → elim (append_property id p n) [ null ↦ none | node i ps children next ↦ some i ] ≡ some j
  unfolding append_property
  append_property-root null e = e
  append_property-root (node i ps children next) e = e

module _ {W : Type 0} where
  -- A tree in order, with a root.
  pub record IsRooted (t : DeviceTree W) : Type 0 where
    pub tended : IsTended t
    pub rooted : root_node t ≢ none

  pub occurs-rooted : (id : ℕ) (t : DeviceTree W) → occurs id t.root ≡ 1 → root_node t ≢ none
  unfolding root_node occurs
  occurs-rooted id t one = at_root t.root one
    where
      at_root :
          (n : Node)
          → occurs id n ≡ 1
          → elim n [ null ↦ none | node i ps children next ↦ some i ] ≢ none
      at_root null one e = omega (arith, one)
      at_root (node i ps children next) one e = ground (arith, e)

  module _ (h : Heap W) (plenty : (n : ℕ) (w : W) → (h.malloc n w).0 ≡ true) where
    add_property-root_node :
        (id j : ℕ) (name value : List ℕ) (t : DeviceTree W)
        → root_node t ≡ some j
        → root_node (add_property h id name value t).1 ≡ some j
    unfolding add_property refill_properties root_node
    add_property-root_node id j name value t e =
        ground
          (arith, e, append_property-root id j (record { name = name; value = value }) t.root e)

    root_is :
        (t : DeviceTree W)
        → root_node (add_child h none (some (codes "/")) t).1 ≡ some (refill_nodes h t).1.next_id
    unfolding add_child name_node
    root_is t =
        let t1 = (refill_nodes h t).1 in
        rw (refill_nodes-ready h plenty t) (
          add_property-root_node t1.next_id t1.next_id (codes "name") (codes "/" ++ 0 ∷ [])
            (link_node h none t1) (unfold link_node root_node in refl))

    made :
        (t : DeviceTree W)
        → (add_child h none (some (codes "/")) t).0 ≡ some (refill_nodes h t).1.next_id
    unfolding add_child
    made t = rw (refill_nodes-ready h plenty t) refl

    begun_is :
        (r : Option ℕ × DeviceTree W) (c : ℕ)
        → r.0 ≡ some c
        → (elim r.0 [ none ↦ record r.1 { root = null } | some id ↦ r.1 ]) ≡ r.1
    begun_is (none, t) c e = absurd (ground (arith, e))
    begun_is (some id, t) c e = refl

    pub initialize-root_node : (t : DeviceTree W) → root_node (initialize h t) ≡ some t.next_id
    unfolding initialize
    initialize-root_node t =
        let u : DeviceTree W = record t {
          free_nodes = 0;
          alloced_nodes = [];
          free_properties = 0;
          alloced_properties = [];
          num_nodes = 0;
          num_properties = 0;
          total_property_size = 0;
        } in
        ap root_node
          (begun_is (add_child h none (some (codes "/")) u) (refill_nodes h u).1.next_id (made u))
        ∙ root_is u
        ∙ ap some (refill_nodes-SameTree h u).next_id

    pub begun-IsTended : (t : DeviceTree W) → IsTended (initialize h t)
    begun-IsTended t = record {
      counted = Built-IsCounted h (initial t);
      one_root = Built-Alone h (initial t);
    }

    pub begun-there : (t : DeviceTree W) → occurs t.next_id (initialize h t).root ≡ 1
    begun-there t =
        let tended = begun-IsTended t in
        (root_node-IsHome h t.next_id (initialize h t) tended.counted tended.one_root
          (initialize-root_node t)).there
