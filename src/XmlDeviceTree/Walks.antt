-- ===== src/XmlDeviceTree/Walks.antt =====
-- The walks of main/XML_device_tree.c keep the tree in order, whatever the tags are.
use xnu_uboot_arm.Base.{
  by_if, ℕ, ◌+◌, ◌≡◌, true, Option, none, some, List, [], ◌∷◌, ◌++◌, length, le32,
}
use xnu_uboot_arm.DeviceTree.{Heap, DeviceTree, add_child, add_property}
use xnu_uboot_arm.DeviceTree.Count.{occurs}
use xnu_uboot_arm.DeviceTree.Kept.{
  IsTended, Kept, Kept-trans, with_heap, add_property-Kept, Born, add_child-Born,
}
use xnu_uboot_arm.Plist.{
  TagType, tag_dict, tag_key, tag_string, tag_integer, tag_data, tag_date, tag_false, tag_true,
  tag_array, Field, zero_field, symbol, number, Tag, no_tag, tag,
}
use xnu_uboot_arm.XmlDeviceTree.{
  string_of, names_children, array_bytes, allocate, array_to_device_tree_data,
  integer_to_device_tree_data, string_to_device_tree_data, add_copied, populate_pairs, walk_nodes,
}

module _ {W : Type 0} where
  -- Where a walk ends with a tree, the tree before it is kept.
  unfoldable pub Good : DeviceTree W → Option (DeviceTree W) → Type 0
  Good t none = Unit {0}
  Good t (some t') = Kept t t'

  unchanged : (t : DeviceTree W) → IsTended t → Kept t t
  unchanged t k = record { tended = k; nodes = λ j e. e }

  Good-trans : {t t1 : DeviceTree W} (r : Option (DeviceTree W)) → Kept t t1 → Good t1 r → Good t r
  unfolding Good
  Good-trans none k g = tt
  Good-trans (some t2) k g = Kept-trans k g

  goes_on :
      (t : DeviceTree W) (v : Option (DeviceTree W)) (next : DeviceTree W → Option (DeviceTree W))
      → Good t v
      → ((t1 : DeviceTree W) → Kept t t1 → Good t1 (next t1))
      → Good t (elim v [ none ↦ none | some t1 ↦ next t1 ])
  unfolding Good
  goes_on t none next g n = tt
  goes_on t (some t1) next g n = Good-trans (next t1) g (n t1 g)

  -- A value that was put on the heap leaves the tree as it was.
  unfoldable Stored : DeviceTree W → Option (List ℕ × DeviceTree W) → Type 0
  Stored t none = Unit {0}
  Stored t (some (value, t')) = Kept t t'

  by_value :
      (P : Option (DeviceTree W) → Type 0) (type : TagType) {a i s o : Option (DeviceTree W)}
      → P a
      → P i
      → P s
      → P o
      → P (elim type [ tag_array ↦ a | tag_integer ↦ i | tag_string ↦ s | _ ↦ o ])
  by_value P tag_array a i s o = a
  by_value P tag_integer a i s o = i
  by_value P tag_string a i s o = s
  by_value P tag_dict a i s o = o
  by_value P tag_key a i s o = o
  by_value P tag_data a i s o = o
  by_value P tag_date a i s o = o
  by_value P tag_false a i s o = o
  by_value P tag_true a i s o = o

  module _ (h : Heap W) where
    allocate-Good : (size : ℕ) (t : DeviceTree W) → IsTended t → Good t (allocate h size t)
    unfolding Good allocate
    allocate-Good size t k =
        by_if (Good t) (h.malloc size t.heap).0 (λ e. with_heap (h.malloc size t.heap).1 t k)
          (λ e. tt)

    allocated :
        (t : DeviceTree W) (r : Option (DeviceTree W)) (value : List ℕ)
        → Good t r
        → Stored t (elim r [ none ↦ none | some t1 ↦ some (value, t1) ])
    unfolding Good Stored
    allocated t none value g = tt
    allocated t (some t1) value g = g

    module _ (t : DeviceTree W) (k : IsTended t) where
      integer-Stored : (field : Field) → Stored t (integer_to_device_tree_data h field t)
      unfolding integer_to_device_tree_data Stored
      integer-Stored (number n) = allocated t (allocate h 4 t) (le32 n) (allocate-Good 4 t k)
      integer-Stored zero_field = allocated t (allocate h 4 t) (le32 0) (allocate-Good 4 t k)
      integer-Stored (symbol s) = tt

      string-Stored : (field : Field) → Stored t (string_to_device_tree_data h field t)
      unfolding string_to_device_tree_data Stored
      string-Stored (number n) = tt
      string-Stored zero_field = tt
      string-Stored (symbol s) =
          allocated t (allocate h (length s + 1) t) (s ++ 0 ∷ []) (allocate-Good (length s + 1) t k)

      array-Stored : (first : Tag) → Stored t (array_to_device_tree_data h first t)
      unfolding array_to_device_tree_data Stored
      array-Stored no_tag = tt
      array-Stored (tag type string child next) =
          at_bytes (array_bytes (tag type string child next))
        where
          at_bytes :
              (r : Option (List ℕ))
              → Stored t (elim r [
                | none ↦ none
                | some bytes ↦ elim (allocate h (length bytes) t) [
                  | none ↦ none
                  | some t1 ↦ some (bytes, t1)
                ]
              ])
          at_bytes none = tt
          at_bytes (some bytes) =
              allocated t (allocate h (length bytes) t) bytes (allocate-Good (length bytes) t k)

      add_copied-Good :
          (id : ℕ) (key : Field) (r : Option (List ℕ × DeviceTree W))
          → occurs id t.root ≡ 1
          → Stored t r
          → Good t (add_copied h (some id) key r)
      unfolding Good Stored add_copied
      add_copied-Good id key none one s = tt
      add_copied-Good id key (some (value, t1)) one s = at_key (string_of key)
        where
          at_key :
              (r : Option (List ℕ))
              → Good t (elim r [
                | none ↦ none
                | some name ↦ elim (allocate h (length name + 1) t1) [
                  | none ↦ none
                  | some t2 ↦ some (add_property h id name value t2).1
                ]
              ])
          at_key none = tt
          at_key (some name) =
              goes_on t (some t1)
                (λ u. elim (allocate h (length name + 1) u) [
                  | none ↦ none
                  | some t2 ↦ some (add_property h id name value t2).1
                ])
                s
                (λ u a.
                  goes_on u (allocate h (length name + 1) u)
                    (λ t2. some (add_property h id name value t2).1)
                    (allocate-Good (length name + 1) u a.tended)
                    (λ t2 b.
                      add_property-Kept h id name value t2 b.tended (b.nodes id (a.nodes id one))))

    module _ (plenty : (n : ℕ) (w : W) → (h.malloc n w).0 ≡ true) where
      at_child :
          (t : DeviceTree W) (walked : Option (DeviceTree W)) (child : Tag)
          → Good t walked
          → Good t (elim child [ no_tag ↦ none | tag a b c d ↦ walked ])
      unfolding Good
      at_child t walked no_tag g = tt
      at_child t walked (tag a b c d) g = g

      born :
          (t : DeviceTree W) (r : Option ℕ × DeviceTree W)
          (next : Option ℕ → DeviceTree W → Option (DeviceTree W))
          → Born h plenty t r
          → ((c : ℕ) (t1 : DeviceTree W)
              → Kept t t1
              → occurs c t1.root ≡ 1
              → Good t1 (next (some c) t1))
          → Good t (next r.0 r.1)
      unfolding Born
      born t (none, t1) next b n = absurd b
      born t (some c, t1) next b n = Good-trans (next (some c) t1) b.0 (n c t1 b.0 b.1)

      mutual
        unfolding Good populate_pairs walk_nodes

        pub populate_pairs-Good :
            (id : ℕ) (next : Tag) (t : DeviceTree W)
            → IsTended t
            → occurs id t.root ≡ 1
            → Good t (populate_pairs h (some id) next t)
        populate_pairs-Good id no_tag t k one = unchanged t k
        populate_pairs-Good id (tag tag_key key no_tag next) t k one =
            populate_pairs-Good id next t k one
        populate_pairs-Good id (tag tag_key key (tag type string child more) next) t k one =
            goes_on t _ (populate_pairs h (some id) next)
              (by_value (Good t) type
                (by_if (Good t) (names_children key)
                  (λ e.
                    at_child t (walk_nodes h (some id) child t) child
                      (walk_nodes-Good id child t k one))
                  (λ e.
                    add_copied-Good t k id key (array_to_device_tree_data h child t) one
                      (array-Stored t k child)))
                (add_copied-Good t k id key (integer_to_device_tree_data h string t) one
                  (integer-Stored t k string))
                (add_copied-Good t k id key (string_to_device_tree_data h string t) one
                  (string-Stored t k string))
                (unchanged t k))
              (λ t1 s. populate_pairs-Good id next t1 s.tended (s.nodes id one))
        populate_pairs-Good id (tag tag_dict key child next) t k one = tt
        populate_pairs-Good id (tag tag_string key child next) t k one = tt
        populate_pairs-Good id (tag tag_integer key child next) t k one = tt
        populate_pairs-Good id (tag tag_data key child next) t k one = tt
        populate_pairs-Good id (tag tag_date key child next) t k one = tt
        populate_pairs-Good id (tag tag_false key child next) t k one = tt
        populate_pairs-Good id (tag tag_true key child next) t k one = tt
        populate_pairs-Good id (tag tag_array key child next) t k one = tt

        walk_nodes-Good :
            (id : ℕ) (next : Tag) (t : DeviceTree W)
            → IsTended t
            → occurs id t.root ≡ 1
            → Good t (walk_nodes h (some id) next t)
        walk_nodes-Good id no_tag t k one = unchanged t k
        walk_nodes-Good id (tag tag_dict string child next) t k one =
            born t (add_child h (some id) none t)
              (λ me t1. elim (populate_pairs h me child t1) [
                | none ↦ none
                | some t2 ↦ walk_nodes h (some id) next t2
              ])
              (add_child-Born h plenty id t k one)
              (λ c t1 s there.
                goes_on t1 (populate_pairs h (some c) child t1) (walk_nodes h (some id) next)
                  (populate_pairs-Good c child t1 s.tended there)
                  (λ t2 s2. walk_nodes-Good id next t2 s2.tended (s2.nodes id (s.nodes id one))))
        walk_nodes-Good id (tag tag_key string child next) t k one = tt
        walk_nodes-Good id (tag tag_string string child next) t k one = tt
        walk_nodes-Good id (tag tag_integer string child next) t k one = tt
        walk_nodes-Good id (tag tag_data string child next) t k one = tt
        walk_nodes-Good id (tag tag_date string child next) t k one = tt
        walk_nodes-Good id (tag tag_false string child next) t k one = tt
        walk_nodes-Good id (tag tag_true string child next) t k one = tt
        walk_nodes-Good id (tag tag_array string child next) t k one = tt
