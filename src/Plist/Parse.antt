-- ===== src/Plist/Parse.antt =====
-- The parse functions of serialize/xml_plist.c: `XMLParseNextTag`, what it calls and `XMLParseFile`.
use xnu_uboot_arm.Base.{
  ℕ, zero, suc, ◌+◌, Bool, true, false, none, some, List, ◌++◌, ◌==◌, if◌then◌else◌, codes,
  strcmp_eq, length, get_or, take,
}
use xnu_uboot_arm.DeviceTree.{Heap}
use xnu_uboot_arm.Strol.{strtoul}
use xnu_uboot_arm.Plist.{
  TagType, tag_dict, tag_key, tag_string, tag_integer, tag_data, tag_date, tag_false, tag_true,
  tag_array, Field, zero_field, symbol, number, Tag, no_tag, tag, Format, Plist, new_symbol,
  xml_free_tag, new_tag,
}
use xnu_uboot_arm.Plist.Text.{
  string_at, get_next_tag, fix_data_matching_tag, fixed, no_end, fix_fuel,
}

-- Where a call ends: with the returned length and the tag, with -1, in `panic`, or without fuel.
pub data Parsed (W : Type 0) : Type 0 where
  parsed : (length : ℕ) (result : Tag) (p : Plist W) → Parsed W
  failed : (p : Plist W) → Parsed W
  panicked : Parsed W
  exhausted : Parsed W

-- What `XMLParseNextTag` does with a tag's name.
pub data Element : Type 0 where
  no_element key_element string_element integer_element data_element date_element : Element
  list_element : (type : TagType) (empty : Bool) → Element
  boolean_element : (type : TagType) → Element

-- The comparisons of `XMLParseNextTag`, in order; `strncmp` looks at six bytes.
unfoldable pub classify : Format → (name : List ℕ) → Element
classify f name =
    if strcmp_eq (take 6 name) (take 6 f.plist)
    then no_element
    else if strcmp_eq name f.dict
    then list_element tag_dict false
    else if strcmp_eq name (f.dict ++ codes "/")
    then list_element tag_dict true
    else if strcmp_eq name f.key
    then key_element
    else if strcmp_eq name f.string
    then string_element
    else if strcmp_eq name f.integer
    then integer_element
    else if strcmp_eq name f.data_name
    then data_element
    else if strcmp_eq name f.date
    then date_element
    else if strcmp_eq name f.false_name
    then boolean_element tag_false
    else if strcmp_eq name f.true_name
    then boolean_element tag_true
    else if strcmp_eq name f.array
    then list_element tag_array false
    else if strcmp_eq name (f.array ++ codes "/")
    then list_element tag_array true
    else no_element

-- `tmpTag->tagNext = tagList`
unfoldable pub link : Tag → (next : Tag) → Tag
link no_tag next = no_tag
link (tag type string child old) next = tag type string child next

module _ {W : Type 0} where
  -- The data up to the end tag, and what follows it.
  unfoldable pub with_data :
      (name : List ℕ) → (pos : ℕ) → Plist W → (ℕ → Plist W → Parsed W) → Parsed W
  with_data name pos p make = elim (fix_data_matching_tag name pos p.text) [
    | fix_fuel ↦ exhausted
    | no_end text ↦ failed (record p { text = text })
    | fixed len text1 ↦ make len (record p { text = text1 })
  ]

  -- `return pos + length`
  unfoldable pub further : ℕ → Parsed W → Parsed W
  further pos (parsed len result p) = parsed (pos + len) result p
  further pos (failed p) = failed p
  further pos panicked = panicked
  further pos exhausted = exhausted

  module _ (h : Heap W) (f : Format) where
    -- A new tag with its fields; without memory, its child is freed.
    unfoldable pub make_tag : TagType → Field → (child : Tag) → (length : ℕ) → Plist W → Parsed W
    make_tag type string child len p =
        let (got, p1) = new_tag h f p in
        if got
        then parsed len (tag type string child no_tag) p1
        else failed (xml_free_tag h child p1)

    -- A tag that holds a symbol: the symbol follows the tag.
    unfoldable pub make_symbol_tag :
        TagType → (string : List ℕ) → (child : Tag) → (length : ℕ) → Plist W → Parsed W
    make_symbol_tag type string child len p =
        let (got, p1) = new_tag h f p in
        if got
        then elim (new_symbol h string p1) [
          | none ↦ panicked
          | some p2 ↦ parsed len (tag type (symbol string) child no_tag) p2
        ]
        else failed (xml_free_tag h child p1)

    unfoldable pub parse_tag_string : (pos : ℕ) → Plist W → Parsed W
    parse_tag_string pos p =
        with_data f.string pos p
          (λ len p1. make_symbol_tag tag_string (string_at p1.text pos) no_tag len p1)

    unfoldable pub parse_tag_integer : (pos : ℕ) → Plist W → Parsed W
    parse_tag_integer pos p =
        if get_or p.text pos 0 == b'<'
        then panicked
        else with_data f.integer pos p (λ len p1.
          make_tag tag_integer (number (strtoul (string_at p1.text pos) 0).0) no_tag len p1)

    unfoldable pub parse_tag_data : (pos : ℕ) → Plist W → Parsed W
    parse_tag_data pos p =
        with_data f.data_name pos p (λ len p1. make_tag tag_data zero_field no_tag len p1)

    unfoldable pub parse_tag_date : (pos : ℕ) → Plist W → Parsed W
    parse_tag_date pos p =
        with_data f.date pos p (λ len p1. make_tag tag_date zero_field no_tag len p1)

    unfoldable pub parse_tag_boolean : TagType → Plist W → Parsed W
    parse_tag_boolean type p = make_tag type zero_field no_tag 0 p

    -- The two that call `XMLParseNextTag`, which is `next`.
    module _ (next : ℕ → Plist W → Parsed W) where
      unfoldable pub parse_tag_key : (pos : ℕ) → Plist W → Parsed W
      parse_tag_key pos p = with_data f.key pos p (λ len p1. elim (next (pos + len) p1) [
        | parsed len2 child p2 ↦
            make_symbol_tag tag_key (string_at p2.text pos) child (len + len2) p2
        | failed p2 ↦ failed p2
        | panicked ↦ panicked
        | exhausted ↦ exhausted
      ])

      -- The loop: `done` is `pos`, and `list` is `tagList`.
      unfoldable pub parse_elements :
          (rounds : ℕ) → TagType → (pos done : ℕ) → (list : Tag) → Plist W → Parsed W
      parse_elements zero type pos done list p = exhausted
      parse_elements (suc n) type pos done list p = elim (next (pos + done) p) [
        | panicked ↦ panicked
        | exhausted ↦ exhausted
        | failed p1 ↦ failed (xml_free_tag h list p1)
        | parsed len no_tag p1 ↦ make_tag type zero_field list (done + len) p1
        | parsed len (tag t s c x) p1 ↦
            parse_elements n type pos (done + len) (link (tag t s c x) list) p1
      ]

      unfoldable pub parse_tag_list :
          (rounds : ℕ) → TagType → (empty : Bool) → (pos : ℕ) → Plist W → Parsed W
      parse_tag_list rounds type empty pos p = elim empty [
        | false ↦ parse_elements rounds type pos 0 no_tag p
        | true ↦ make_tag type zero_field no_tag 0 p
      ]

      -- The element at `pos`, whose name is told.
      unfoldable pub parse_element : (rounds : ℕ) → Element → (pos : ℕ) → Plist W → Parsed W
      parse_element rounds no_element pos p = parsed 0 no_tag p
      parse_element rounds key_element pos p = parse_tag_key pos p
      parse_element rounds string_element pos p = parse_tag_string pos p
      parse_element rounds integer_element pos p = parse_tag_integer pos p
      parse_element rounds data_element pos p = parse_tag_data pos p
      parse_element rounds date_element pos p = parse_tag_date pos p
      parse_element rounds (list_element type empty) pos p = parse_tag_list rounds type empty pos p
      parse_element rounds (boolean_element type) pos p = parse_tag_boolean type p

    unfoldable pub xml_parse_next_tag : (fuel : ℕ) → (pos : ℕ) → Plist W → Parsed W
    xml_parse_next_tag zero pos p = exhausted
    xml_parse_next_tag (suc n) pos p = elim (get_next_tag p.text pos) [
      | none ↦ failed p
      | some (found, text1) ↦ further found.length (
          parse_element (xml_parse_next_tag n) n (classify f (string_at text1 (pos + found.name)))
            (pos + found.length) (record p { text = text1 }))
    ]

    -- The loop of `XMLParseFile`. The length that it returns is not the file's.
    unfoldable pub parse_file : (fuel rounds : ℕ) → (pos : ℕ) → Plist W → Parsed W
    parse_file fuel zero pos p = exhausted
    parse_file fuel (suc n) pos p = elim (xml_parse_next_tag fuel pos p) [
      | panicked ↦ panicked
      | exhausted ↦ exhausted
      | failed p1 ↦ failed p1
      | parsed len no_tag p1 ↦ parse_file fuel n (pos + len) p1
      | parsed len (tag type s c x) p1 ↦
          let rest = parse_file fuel n (pos + len) (xml_free_tag h (tag type s c x) p1) in
          elim type [ tag_dict ↦ parsed 0 (tag tag_dict s c x) p1 | _ ↦ rest ]
    ]

    unfoldable pub xml_parse_file : Plist W → Parsed W
    xml_parse_file p = parse_file (length p.text + 1) (length p.text + 1) 0 p
