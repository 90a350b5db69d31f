-- ===== src/XmlDeviceTree/Ends.antt =====
-- What `parse_xml_device_tree` leaves: the device tree, and the parser's tags and symbols.
use xnu_uboot_arm.Base.{
  ℕ, zero, suc, ◌+◌, ◌≤◌, ◌<◌, ◌≡◌, ◌∙◌, sym, refl, true, false, Option, none, some, length, arith,
}
use xnu_uboot_arm.DeviceTree.{Heap, DeviceTree, initialize, root_node}
use xnu_uboot_arm.DeviceTree.Count.{occurs}
use xnu_uboot_arm.DeviceTree.Kept.{IsTended, with_heap}
use xnu_uboot_arm.DeviceTree.Rooted.{
  IsRooted, occurs-rooted, initialize-root_node, begun-IsTended, begun-there,
}
use xnu_uboot_arm.Plist.{tag_dict, Tag, no_tag, tag, Plist, xml_free_tag, Format}
use xnu_uboot_arm.Plist.Parse.{Parsed, parsed, failed, panicked, exhausted, xml_parse_next_tag}
use xnu_uboot_arm.Plist.Count.{IsTable}
use xnu_uboot_arm.Plist.Held.{Reached, Reached-free, Ended}
use xnu_uboot_arm.Plist.Elements.{Advanced}
use xnu_uboot_arm.Plist.Ends.{GivenBack, Reached-GivenBack, by_dict, xml_parse_next_tag-Advanced}
use xnu_uboot_arm.XmlDeviceTree.{
  populate_pairs, Result, returned, stopped, no_fuel, load_dictionary, find_dictionary,
  parse_xml_device_tree,
}
use xnu_uboot_arm.XmlDeviceTree.Walks.{Good, populate_pairs-Good}

module _ {W : Type 0} where
  GivenBack-trans : {p p1 p2 : Plist W} → GivenBack p p1 → GivenBack p1 p2 → GivenBack p p2
  GivenBack-trans a b = record {
    counts = λ s. b.counts s ∙ a.counts s;
    table = b.table;
    tags = omega (arith, a.tags, b.tags);
  }

  -- What was taken is given back; the tree is in order with a root, and without a dictionary it is
  -- the one that was begun. The fuel is enough.
  unfoldable pub Ends : Plist W → DeviceTree W → Result W → Type 0
  Ends p begun (returned true p' t') = GivenBack p p' × IsRooted t'
  Ends p begun (returned false p' t') = GivenBack p p' × IsRooted t' × (t'.root ≡ begun.root)
  Ends p begun stopped = Unit {0}
  Ends p begun no_fuel = ⊥

  Ends-after :
      {p p1 : Plist W} (t : DeviceTree W) (r : Result W) → GivenBack p p1 → Ends p1 t r → Ends p t r
  unfolding Ends
  Ends-after t (returned true p' t') g e = (GivenBack-trans g e.0, e.1)
  Ends-after t (returned false p' t') g e = (GivenBack-trans g e.0, e.1, e.2)
  Ends-after t stopped g e = tt
  Ends-after t no_fuel g e = absurd e

  Reached-heap :
      {pos end : ℕ} {p p1 : Plist W} (w : W) (t : Tag)
      → Reached pos end p p1 t
      → Reached pos end p (record p1 { heap = w }) t
  Reached-heap w t r = record {
    counts = r.counts;
    table = r.table;
    tags = r.tags;
    writes = r.writes;
    forward = r.forward;
    bound = r.bound;
  }

  IsRooted-heap :
      (id : ℕ) (t : DeviceTree W) (w : W)
      → IsTended t
      → occurs id t.root ≡ 1
      → IsRooted (record t { heap = w })
  IsRooted-heap id t w k one = record {
    tended = (with_heap w t k).tended;
    rooted = occurs-rooted id (record t { heap = w }) one;
  }

  module _ (h : Heap W) (f : Format) (plenty : (n : ℕ) (w : W) → (h.malloc n w).0 ≡ true) (id : ℕ)
      (t : DeviceTree W) (k : IsTended t) (one : occurs id t.root ≡ 1)
      (root : root_node t ≡ some id) where
    load_dictionary-Ends :
        {pos end : ℕ} {p p1 : Plist W} (dict : Tag)
        → Reached pos end p p1 dict
        → Ends p t (load_dictionary h f dict p1 t)
    unfolding load_dictionary Ends Good
    load_dictionary-Ends no_tag r = tt
    load_dictionary-Ends {p = p} {p1 = p1} (tag type string child next) r =
        rw (root, load_dictionary)
          (let begun : DeviceTree W = record t { heap = p1.heap } in
            at_tree (populate_pairs h (some id) child begun)
              (populate_pairs-Good h plenty id child begun (with_heap p1.heap t k).tended one))
      where
        at_tree :
            (x : Option (DeviceTree W))
            → Good (record t { heap = p1.heap }) x
            → Ends p t (elim x [
              | none ↦ stopped
              | some t1 ↦
                  let p2 =
                    xml_free_tag h (tag type string child next) (record p1 { heap = t1.heap }) in
                  returned true p2 (record t1 { heap = p2.heap })
            ])
        at_tree none g = tt
        at_tree (some t1) g =
            let dict = tag type string child next in
            let p2 : Plist W = record p1 { heap = t1.heap } in
            (
              Reached-GivenBack (Reached-free h dict (Reached-heap t1.heap dict r)),
              IsRooted-heap id t1 (xml_free_tag h dict p2).heap g.tended (g.nodes id one),
            )

    find_dictionary-Ends :
        (fuel rounds pos : ℕ) (p : Plist W)
        → IsTable p.symbols
        → pos ≤ length p.text
        → length p.text < fuel + pos
        → length p.text < rounds + pos
        → Ends p t (find_dictionary h f fuel rounds pos p t)
    unfolding find_dictionary Advanced Ended
    find_dictionary-Ends fuel zero pos p kt a b c = absurd (omega (arith, a, c))
    find_dictionary-Ends fuel (suc n) pos p kt a b c =
        at_next (xml_parse_next_tag h f fuel pos p)
          (xml_parse_next_tag-Advanced h f fuel pos p kt a b)
          (λ len p1 m r.
            Ends-after t (find_dictionary h f fuel n (pos + len) p1 t) (Reached-GivenBack r) (
              find_dictionary-Ends fuel n (pos + len) p1 r.table
                (omega (arith, r.bound, r.writes.size)) (omega (arith, b, r.writes.size))
                (omega (arith, c, m, r.writes.size))))
      where
        at_next :
            (x : Parsed W)
            → Advanced pos p x
            → ((len : ℕ) (p1 : Plist W)
                → 2 ≤ len
                → Reached pos (pos + len) p p1 no_tag
                → Ends p t (find_dictionary h f fuel n (pos + len) p1 t))
            → Ends p t (elim x [
              | panicked ↦ stopped
              | exhausted ↦ no_fuel
              | failed p1 ↦ returned false p1 (record t { heap = p1.heap })
              | parsed len no_tag p1 ↦ find_dictionary h f fuel n (pos + len) p1 t
              | parsed len (tag type s c x) p1 ↦
                  let rest =
                    find_dictionary h f fuel n (pos + len) (xml_free_tag h (tag type s c x) p1) t in
                  elim type [ tag_dict ↦ load_dictionary h f (tag tag_dict s c x) p1 t | _ ↦ rest ]
            ])
        at_next panicked e again = unfold Ends in tt
        at_next exhausted e again = absurd e
        at_next (failed p1) e again =
            unfold Ends in (Reached-GivenBack e, IsRooted-heap id t p1.heap k one, refl)
        at_next (parsed len no_tag p1) e again = again len p1 e.0 e.1.0
        at_next (parsed len (tag type s c x) p1) e again =
            by_dict (Ends p t) type
              (λ d.
                let dict : Reached pos (pos + len) p p1 (tag tag_dict s c x) = rw (sym d) e.1.0 in
                load_dictionary-Ends (tag tag_dict s c x) dict)
              (again len (xml_free_tag h (tag type s c x) p1) e.0
                (Reached-free h (tag type s c x) e.1.0))

  module _ (h : Heap W) (f : Format) (plenty : (n : ℕ) (w : W) → (h.malloc n w).0 ≡ true) where
    -- On a heap that does not run out, whatever the text: the parser ends, or the boot stops. Where it
    -- returns, every symbol has the references that it had before and every tag that was taken is
    -- free again; the tree has a root without siblings, its counts agree with it, and no node stands
    -- in it twice; where there was no dictionary, it is the tree that was begun.
    pub parse_xml_device_tree-Ends :
        (p : Plist W) (t : DeviceTree W)
        → IsTable p.symbols
        → Ends p (initialize h (record t { heap = p.heap })) (parse_xml_device_tree h f p t)
    unfolding parse_xml_device_tree
    parse_xml_device_tree-Ends p t k =
        let old : DeviceTree W = record t { heap = p.heap } in
        let begun = initialize h old in
        let p1 : Plist W = record p { heap = begun.heap } in
        Ends-after begun _ (record { counts = λ s. refl; table = k; tags = refl })
          (find_dictionary-Ends h f plenty t.next_id begun (begun-IsTended h plenty old)
            (begun-there h plenty old) (initialize-root_node h plenty old) (length p.text + 1)
            (length p.text + 1) 0 p1 k (omega arith) (omega arith) (omega arith))
