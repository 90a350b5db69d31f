-- ===== src/Plist.antt =====
-- serialize/xml_plist.c: the tags of a property list, their free list, the table of symbols, and
-- `XMLGetProperty`; Plist/Text finds tags in the buffer, and Plist/Parse has the parse functions. The
-- buffer is the list of its bytes, a byte behind its end is the NUL, and a pointer into it is a
-- position. A tag is its `Tag` structure with its child and its next sibling in place of their
-- addresses, and a `char *` to a symbol is the symbol's text. `long` counts stay below 2^31.
pub mod Sample
pub mod Text
pub mod Parse
pub mod Count
pub mod Table
pub mod Scan
pub mod Frees
pub mod Held
pub mod Made
pub mod Elements
pub mod Ends
mod Tests
use xnu_uboot_arm.Base.{
  ℕ, zero, suc, ◌+◌, ◌-◌, ◌*◌, Bool, true, false, Option, none, some, List, [], ◌∷◌, ◌++◌, ◌==◌,
  ◌&&◌, if◌then◌else◌, codes, strcmp_eq, length, set, get_or, take, drop,
}
use xnu_uboot_arm.DeviceTree.{Heap}
use xnu_uboot_arm.Strol.{strtoul}

-- `kTagType*`
pub data TagType : Type 0 where
  tag_dict tag_key tag_string tag_integer tag_data tag_date tag_false tag_true tag_array : TagType

-- What the field `string` of a tag holds: nothing, a symbol, or a number.
pub data Field : Type 0 where
  zero_field : Field
  symbol : (string : List ℕ) → Field
  number : (value : ℕ) → Field

pub data Tag : Type 0 where
  no_tag : Tag
  tag : (type : TagType) (string : Field) (child next : Tag) → Tag

-- `struct Symbol`, less its link.
pub record Symbol : Type 0 where
  pub ref_count : ℕ
  pub string : List ℕ

-- The names of the elements, and the size of a tag: bootkit/xml.h, which the repository does not
-- hold.
pub record Format : Type 0 where
  pub plist : List ℕ
  pub dict : List ℕ
  pub key : List ℕ
  pub string : List ℕ
  pub integer : List ℕ
  pub data_name : List ℕ
  pub date : List ℕ
  pub false_name : List ℕ
  pub true_name : List ℕ
  pub array : List ℕ
  pub sizeof_tag : ℕ

-- The buffer, the variables of the file and the heap: the free list is the number of its tags, and
-- `tag_blocks` counts the blocks of tags that were ever allocated.
pub record Plist (W : Type 0) : Type 0 where
  pub text : List ℕ
  pub tags_free : ℕ
  pub tag_blocks : ℕ
  pub symbols : List Symbol
  pub heap : W

-- kTagsPerBlock
abbrev pub tags_per_block : ℕ
tags_per_block = 4096

-- The list before the symbol, the symbol, and the list behind it.
unfoldable pub find_symbol : List ℕ → List Symbol → Option (List Symbol × Symbol × List Symbol)
find_symbol string [] = none
find_symbol string (x ∷ xs) =
    let rest = find_symbol string xs in
    if strcmp_eq x.string string
    then some ([], x, xs)
    else elim rest [ none ↦ none | some (before, found, after) ↦ some (x ∷ before, found, after) ]

module _ {W : Type 0} (h : Heap W) where
  -- None is the panic of a symbol without memory.
  unfoldable pub new_symbol : (string : List ℕ) → Plist W → Option (Plist W)
  new_symbol string p =
      let (got, w) = h.malloc (8 + 1 + length string) p.heap in
      elim (find_symbol string p.symbols) [
        | none ↦
            if got
            then some (record p {
              symbols = record { ref_count = 1; string = string } ∷ p.symbols;
              heap = w;
            })
            else none
        | some (before, found, after) ↦ some (record p {
          symbols =
              before ++ record { ref_count = found.ref_count + 1; string = found.string } ∷ after;
        })
      ]

  unfoldable pub free_symbol : (string : List ℕ) → Plist W → Plist W
  free_symbol string p = elim (find_symbol string p.symbols) [
    | none ↦ p
    | some (before, found, after) ↦
        if found.ref_count - 1 == 0
        then record p { symbols = before ++ after; heap = h.free p.heap }
        else record p {
          symbols =
              before ++ record { ref_count = found.ref_count - 1; string = found.string } ∷ after;
        }
  ]

  -- `if (tag->string && tag->type != kTagTypeInteger)`: no other tag holds a number.
  unfoldable pub free_field : TagType → Field → Plist W → Plist W
  free_field type zero_field p = p
  free_field type (number n) p = p
  free_field type (symbol s) p = elim type [ tag_integer ↦ p | _ ↦ free_symbol s p ]

  unfoldable pub xml_free_tag : Tag → Plist W → Plist W
  xml_free_tag no_tag p = p
  xml_free_tag (tag type string child next) p =
      let p1 = xml_free_tag next (xml_free_tag child (free_field type string p)) in
      record p1 { tags_free = p1.tags_free + 1 }

  module _ (f : Format) where
    unfoldable pub new_tag : Plist W → Bool × Plist W
    new_tag p =
        let (got, w) = h.malloc (tags_per_block * f.sizeof_tag) p.heap in
        if p.tags_free == 0
        then if got
          then (
            true,
            record p { tags_free = tags_per_block - 1; tag_blocks = p.tag_blocks + 1; heap = w },
          )
          else (false, record p { heap = w })
        else (true, record p { tags_free = p.tags_free - 1 })

-- The walk over the dictionary's tags, from the first.
unfoldable pub find_key : (key : List ℕ) → (list : Tag) → Tag
find_key key no_tag = no_tag
find_key key (tag tag_key (symbol s) child next) =
    let rest = find_key key next in if strcmp_eq s key then child else rest
find_key key (tag type string child next) = find_key key next

unfoldable pub xml_get_property : (dict : Tag) → (key : List ℕ) → Tag
xml_get_property no_tag key = no_tag
xml_get_property (tag tag_dict string child next) key = find_key key child
xml_get_property (tag type string child next) key = no_tag
