-- ===== src/Plist/Tests.antt =====
-- Runs of the property list parser, and its theorems at one.
use xnu_uboot_arm.Base.{ℕ, ◌≡◌, refl, Option, none, some, List, codes, strcmp_eq, arith}
use xnu_uboot_arm.Plist.{
  Tag, no_tag, tag, tag_dict, tag_key, tag_string, tag_array, tag_integer, tag_true, symbol, number,
  zero_field, xml_get_property, find_symbol, free_field, free_symbol, new_symbol, new_tag,
  xml_free_tag, find_key,
}
use xnu_uboot_arm.Plist.Text.{
  get_next_tag, seek, string_at, until_nul, fix_data_matching_tag, fix_from, ends_tag,
}
use xnu_uboot_arm.Plist.Parse.{
  Parsed, parsed, failed, panicked, exhausted, xml_parse_next_tag, xml_parse_file, parse_file,
  further, parse_element, classify, parse_tag_list, parse_elements, parse_tag_key, with_data, link,
  make_symbol_tag, make_tag, parse_tag_boolean, parse_tag_data, parse_tag_date, parse_tag_integer,
  parse_tag_string,
}
use xnu_uboot_arm.Strol
use xnu_uboot_arm.Strol.{digit_of, digits, exceeds, skip_spaces, strtoul, take_base, take_sign}
use xnu_uboot_arm.Plist.Elements.{Advanced}
use xnu_uboot_arm.Plist.Ends.{xml_parse_next_tag-Advanced, Returned, xml_parse_file-xml_free_tag}
use xnu_uboot_arm.Plist.Sample.{format, heap, start, start-IsTable, document}

result_of : Parsed ℕ → Option Tag
result_of (parsed n t p) = some t
result_of (failed p) = none
result_of panicked = none
result_of exhausted = none

abbrev from_text : List ℕ → Option Tag
from_text text = result_of (xml_parse_file heap format (start text))

abbrev dictionary : Tag
dictionary =
    tag tag_dict zero_field
      (tag tag_key (symbol (codes "c"))
        (tag tag_array zero_field
          (tag tag_true zero_field no_tag (tag tag_integer (number 5) no_tag no_tag)) no_tag)
        (tag tag_key (symbol (codes "a")) (tag tag_string (symbol (codes "b")) no_tag no_tag)
          no_tag))
      no_tag

-- The last pair comes first, as do the last elements of an array.
file_test : from_text document ≡ some dictionary
unfolding result_of xml_parse_file xml_parse_next_tag strcmp_eq Strol.finish parse_file get_next_tag
    seek further parse_element classify string_at until_nul parse_tag_list parse_elements
    parse_tag_key with_data fix_data_matching_tag fix_from ends_tag find_symbol free_field
    free_symbol link make_symbol_tag make_tag new_symbol new_tag parse_tag_boolean parse_tag_data
    parse_tag_date parse_tag_integer parse_tag_string xml_free_tag digit_of digits exceeds
    skip_spaces strtoul take_base take_sign
file_test = refl

property_test :
    xml_get_property dictionary (codes "a") ≡ tag tag_string (symbol (codes "b")) no_tag no_tag
unfolding xml_get_property find_key strcmp_eq
property_test = refl

xml_parse_next_tag-Advanced_example :
    Advanced 9 (start document) (xml_parse_next_tag heap format 200 9 (start document))
xml_parse_next_tag-Advanced_example =
    xml_parse_next_tag-Advanced heap format 200 9 (start document) (start-IsTable document)
      (omega arith) (omega arith)

xml_parse_file-xml_free_tag_example :
    Returned heap format (start document) (xml_parse_file heap format (start document))
xml_parse_file-xml_free_tag_example =
    xml_parse_file-xml_free_tag heap format (start document) (start-IsTable document)
