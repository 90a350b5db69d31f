-- ===== src/DeviceTree/Kept.antt =====
-- A device tree that is in order stays so while nodes and properties are added, and keeps its nodes.
use xnu_uboot_arm.Base.{ℕ, ◌≡◌, ◌∙◌, ap, true, Option, none, some, List, arith}
use xnu_uboot_arm.DeviceTree.{
  Heap, DeviceTree, refill_nodes, link_node, name_node, add_property, add_child,
}
use xnu_uboot_arm.DeviceTree.Count.{occurs, occurs-insert_child, IsCounted}
use xnu_uboot_arm.DeviceTree.Built.{
  refill_nodes-SameTree, SameTree-IsCounted, link_node-IsCounted, add_property-IsCounted,
}
use xnu_uboot_arm.DeviceTree.Flatten.{alone}
use xnu_uboot_arm.DeviceTree.Flatten.Output.{add_property-Alone, link_node-Alone}
use xnu_uboot_arm.Boot.Counted.{occurs-add_property}

module _ {W : Type 0} where
  -- The counts agree with the tree, and its root has no siblings.
  pub record IsTended (t : DeviceTree W) : Type 0 where
    pub counted : IsCounted t
    pub one_root : alone t.root ≡ t.root

  -- The later tree is in order too, and every node of the earlier one is in it.
  pub record Kept (t t' : DeviceTree W) : Type 0 where
    pub tended : IsTended t'
    pub nodes : (j : ℕ) → occurs j t.root ≡ 1 → occurs j t'.root ≡ 1

  pub Kept-trans : {t t1 t2 : DeviceTree W} → Kept t t1 → Kept t1 t2 → Kept t t2
  Kept-trans a b = record { tended = b.tended; nodes = λ j e. b.nodes j (a.nodes j e) }

  pub with_heap : (w : W) (t : DeviceTree W) → IsTended t → Kept t (record t { heap = w })
  with_heap w t k = record {
    tended = record {
      counted = record {
        nodes = k.counted.nodes;
        properties = k.counted.properties;
        property_sizes = k.counted.property_sizes;
        fresh = k.counted.fresh;
        unique = k.counted.unique;
      };
      one_root = k.one_root;
    };
    nodes = λ j e. e;
  }

  module _ (h : Heap W) where
    pub add_property-Kept :
        (id : ℕ) (name value : List ℕ) (t : DeviceTree W)
        → IsTended t
        → occurs id t.root ≡ 1
        → Kept t (add_property h id name value t).1
    add_property-Kept id name value t k one = record {
      tended = record {
        counted = add_property-IsCounted h id name value t one k.counted;
        one_root = add_property-Alone h id name value t k.one_root;
      };
      nodes = λ j e. occurs-add_property id h j name value t ∙ e;
    }

    module _ (plenty : (n : ℕ) (w : W) → (h.malloc n w).0 ≡ true) where
      pub refill_nodes-ready : (t : DeviceTree W) → (refill_nodes h t).0 ≡ true
      unfolding refill_nodes
      refill_nodes-ready t = ground (arith, plenty 4096 t.heap)

      stays :
          (p j : ℕ) (t : DeviceTree W)
          → IsCounted t
          → occurs p t.root ≡ 1
          → occurs j t.root ≡ 1
          → occurs j (link_node h (some p) t).root ≡ 1
      unfolding link_node
      stays p j t c one e =
          ground (arith, c.fresh t.next_id, occurs-insert_child j p t.next_id t.root one, e)

      -- A new node without a name.
      unfoldable pub Born : DeviceTree W → Option ℕ × DeviceTree W → Type 0
      Born t (none, t') = ⊥
      Born t (some c, t') = Kept t t' × (occurs c t'.root ≡ 1)

      pub add_child-Born :
          (p : ℕ) (t : DeviceTree W)
          → IsTended t
          → occurs p t.root ≡ 1
          → Born t (add_child h (some p) none t)
      unfolding add_child Born name_node
      add_child-Born p t k one =
          let t1 = (refill_nodes h t).1 in
          let t2 = link_node h (some p) t1 in
          let same = refill_nodes-SameTree h t in
          let counted = SameTree-IsCounted h t t1 same k.counted in
          let there = ap (occurs p) same.root ∙ one in
          let linked = link_node-IsCounted h p t1 there counted in
          let one_root : alone t1.root ≡ t1.root = rw same.root k.one_root in
          rw (refill_nodes-ready t) (
            record {
              tended = record {
                counted = linked.0;
                one_root = link_node-Alone h (some p) t1 one_root;
              };
              nodes = λ j e. stays p j t1 counted there (ap (occurs j) same.root ∙ e);
            },
            linked.1,
          )
