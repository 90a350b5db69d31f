-- ===== src/XmlDeviceTree.antt =====
-- main/XML_device_tree.c: the device tree from a property list. The walks follow the tags of the
-- first dictionary; none is an `assert`, a panic or a null pointer, which stop the boot. The count of
-- nodes is only printed and is left out.
pub mod Walks
pub mod Ends
mod Tests
use xnu_uboot_arm.Base.{
  ℕ, zero, suc, ◌+◌, Bool, true, false, Option, none, some, List, [], ◌∷◌, ◌++◌, ◌==◌,
  if◌then◌else◌, length, le32,
}
use xnu_uboot_arm.DeviceTree.{Heap, DeviceTree, add_child, add_property, initialize, root_node}
use xnu_uboot_arm.Plist.{
  TagType, tag_dict, tag_key, tag_string, tag_integer, tag_data, tag_date, tag_false, tag_true,
  tag_array, Field, zero_field, symbol, number, Tag, no_tag, tag, Plist, xml_free_tag, Format,
}
use xnu_uboot_arm.Plist.Parse.{Parsed, parsed, failed, panicked, exhausted, xml_parse_next_tag}

-- `next->string` as a string, and as a number: a null pointer is no string.
abbrev pub string_of : Field → Option (List ℕ)
string_of (symbol s) = some s
string_of zero_field = none
string_of (number n) = none

abbrev pub number_of : Field → Option ℕ
number_of (number n) = some n
number_of zero_field = some 0
number_of (symbol s) = none

-- `next->string && next->string[0] == '@'`
unfoldable pub names_children : Field → Bool
names_children (symbol (c ∷ s)) = c == b'@'
names_children field = false

-- The bytes of one tag of an array, without its siblings.
unfoldable pub element_data : TagType → Field → Option (List ℕ)
element_data tag_integer field = elim (number_of field) [ none ↦ none | some n ↦ some (le32 n) ]
element_data tag_string field = elim (string_of field) [ none ↦ none | some s ↦ some (s ++ 0 ∷ []) ]
element_data type field = none

-- Both passes over an array: its bytes in order, and their number is what is allocated.
unfoldable pub array_bytes : Tag → Option (List ℕ)
array_bytes no_tag = some []
array_bytes (tag type string child next) = elim (element_data type string) [
  | none ↦ none
  | some bytes ↦ elim (array_bytes next) [ none ↦ none | some rest ↦ some (bytes ++ rest) ]
]

module _ {W : Type 0} (h : Heap W) where
  -- `malloc`, whose result is written through.
  unfoldable pub allocate : (size : ℕ) → DeviceTree W → Option (DeviceTree W)
  allocate size t =
      let (got, w) = h.malloc size t.heap in if got then some (record t { heap = w }) else none

  unfoldable pub array_to_device_tree_data :
      (first : Tag) → DeviceTree W → Option (List ℕ × DeviceTree W)
  array_to_device_tree_data no_tag t = none
  array_to_device_tree_data (tag type string child next) t =
      elim (array_bytes (tag type string child next)) [
        | none ↦ none
        | some bytes ↦ elim (allocate (length bytes) t) [ none ↦ none | some t1 ↦ some (bytes, t1) ]
      ]

  unfoldable pub integer_to_device_tree_data : Field → DeviceTree W → Option (List ℕ × DeviceTree W)
  integer_to_device_tree_data field t = elim (number_of field) [
    | none ↦ none
    | some n ↦ elim (allocate 4 t) [ none ↦ none | some t1 ↦ some (le32 n, t1) ]
  ]

  unfoldable pub string_to_device_tree_data : Field → DeviceTree W → Option (List ℕ × DeviceTree W)
  string_to_device_tree_data field t = elim (string_of field) [
    | none ↦ none
    | some s ↦ elim (allocate (length s + 1) t) [ none ↦ none | some t1 ↦ some (s ++ 0 ∷ [], t1) ]
  ]

  -- `DT__AddProperty(node, CopyKey(next), plen, pval)`, for a value that is there: the key is copied
  -- first.
  unfoldable pub add_copied :
      (me : Option ℕ) → (key : Field) → Option (List ℕ × DeviceTree W) → Option (DeviceTree W)
  add_copied me key none = none
  add_copied none key (some (value, t)) = none
  add_copied (some id) key (some (value, t)) = elim (string_of key) [
    | none ↦ none
    | some name ↦ elim (allocate (length name + 1) t) [
      | none ↦ none
      | some t1 ↦ some (add_property h id name value t1).1
    ]
  ]

  unfoldable mutual
    -- The loop of `PopulateDeviceTreeNode`, from the tag `next`.
    pub populate_pairs : (me : Option ℕ) → (next : Tag) → DeviceTree W → Option (DeviceTree W)
    populate_pairs me no_tag t = some t
    populate_pairs me (tag tag_key key no_tag next) t = populate_pairs me next t
    populate_pairs me (tag tag_key key (tag type string child more) next) t =
        let walked = walk_nodes me child t in
        let valued : Option (DeviceTree W) = elim type [
          | tag_array ↦
              if names_children key
              then elim child [ no_tag ↦ none | tag a b c d ↦ walked ]
              else add_copied me key (array_to_device_tree_data child t)
          | tag_integer ↦ add_copied me key (integer_to_device_tree_data string t)
          | tag_string ↦ add_copied me key (string_to_device_tree_data string t)
          | _ ↦ some t
        ] in
        elim valued [ none ↦ none | some t1 ↦ populate_pairs me next t1 ]
    populate_pairs me (tag type key child next) t = none

    -- The loop of `WalkDeviceTreeNodeChildren`, from the tag `next`: each is populated, which wants a
    -- dictionary.
    pub walk_nodes : (parent : Option ℕ) → (next : Tag) → DeviceTree W → Option (DeviceTree W)
    walk_nodes parent no_tag t = some t
    walk_nodes parent (tag tag_dict string child next) t =
        let (me, t1) = add_child h parent none t in
        elim (populate_pairs me child t1) [ none ↦ none | some t2 ↦ walk_nodes parent next t2 ]
    walk_nodes parent (tag type string child next) t = none

-- How `parse_xml_device_tree` ends: it returns whether there was a dictionary; the boot stops; or
-- the fuel is used up.
pub data Result (W : Type 0) : Type 0 where
  returned : (ret : Bool) → Plist W → DeviceTree W → Result W
  stopped : Result W
  no_fuel : Result W

module _ {W : Type 0} (h : Heap W) (f : Format) where
  -- The walk over the dictionary, which is freed then: both parts of the state share the heap.
  unfoldable pub load_dictionary : Tag → Plist W → DeviceTree W → Result W
  load_dictionary no_tag p t = stopped
  load_dictionary (tag type string child next) p t =
      elim (populate_pairs h (root_node t) child (record t { heap = p.heap })) [
        | none ↦ stopped
        | some t1 ↦
            let p1 = xml_free_tag h (tag type string child next) (record p { heap = t1.heap }) in
            returned true p1 (record t1 { heap = p1.heap })
      ]

  unfoldable pub find_dictionary : (fuel rounds : ℕ) → (pos : ℕ) → Plist W → DeviceTree W → Result W
  find_dictionary fuel zero pos p t = no_fuel
  find_dictionary fuel (suc n) pos p t = elim (xml_parse_next_tag h f fuel pos p) [
    | panicked ↦ stopped
    | exhausted ↦ no_fuel
    | failed p1 ↦ returned false p1 (record t { heap = p1.heap })
    | parsed len no_tag p1 ↦ find_dictionary fuel n (pos + len) p1 t
    | parsed len (tag type s c x) p1 ↦
        let rest = find_dictionary fuel n (pos + len) (xml_free_tag h (tag type s c x) p1) t in
        elim type [ tag_dict ↦ load_dictionary (tag tag_dict s c x) p1 t | _ ↦ rest ]
  ]

  -- The text of `p` is the buffer; the device tree is begun anew.
  unfoldable pub parse_xml_device_tree : Plist W → DeviceTree W → Result W
  parse_xml_device_tree p t =
      let begun = initialize h (record t { heap = p.heap }) in
      find_dictionary (length p.text + 1) (length p.text + 1) 0 (record p { heap = begun.heap })
        begun
