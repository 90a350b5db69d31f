-- ===== src/XmlDeviceTree/Tests.antt =====
-- A run of `parse_xml_device_tree`, and its theorem at it.
use xnu_uboot_arm.Base.{
  ℕ, ◌≡◌, refl, Bool, true, Option, none, some, List, [], ◌∷◌, ◌++◌, codes, strcmp_eq,
}
use xnu_uboot_arm.DeviceTree.{
  Node, null, node, DeviceTree, append_property, insert_child, refill_properties, refill_nodes,
  add_property, link_node, name_node, add_child, initialize, root_node,
}
use xnu_uboot_arm.Plist.Sample.{format, heap, start, start-IsTable}
use xnu_uboot_arm.XmlDeviceTree.{
  Result, returned, stopped, no_fuel, parse_xml_device_tree, find_dictionary, load_dictionary,
  populate_pairs, walk_nodes, add_copied, integer_to_device_tree_data, string_to_device_tree_data,
  array_to_device_tree_data, allocate, names_children, array_bytes, element_data,
}
use xnu_uboot_arm.Strol
use xnu_uboot_arm.Strol.{digit_of, digits, exceeds, skip_spaces, strtoul, take_base, take_sign}
use xnu_uboot_arm.Plist.{find_symbol, free_field, free_symbol, new_symbol, new_tag, xml_free_tag}
use xnu_uboot_arm.Plist.Text.{
  get_next_tag, seek, string_at, until_nul, fix_data_matching_tag, fix_from, ends_tag,
}
use xnu_uboot_arm.Plist.Parse.{
  further, parse_element, classify, parse_tag_list, parse_elements, parse_tag_key, with_data, link,
  make_symbol_tag, make_tag, parse_tag_boolean, parse_tag_data, parse_tag_date, parse_tag_integer,
  parse_tag_string, xml_parse_next_tag,
}
use xnu_uboot_arm.XmlDeviceTree.Ends.{Ends, parse_xml_device_tree-Ends}

abbrev blank : DeviceTree ℕ
blank = record {
  root = null;
  num_nodes = 0;
  num_properties = 0;
  total_property_size = 0;
  free_nodes = 0;
  alloced_nodes = [];
  free_properties = 0;
  alloced_properties = [];
  next_id = 0;
  heap = 0;
}

abbrev text : List ℕ
text =
    codes
      "<dict><key>m</key><integer>16</integer><key>@c</key><array><dict><key>n</key><string>cpu</string></dict></array></dict>"

root_of : Result ℕ → Option (Bool × Node)
root_of (returned ret p t) = some (ret, t.root)
root_of stopped = none
root_of no_fuel = none

reads :
    root_of (parse_xml_device_tree heap format (start text) blank)
    ≡ some (
      true,
      node 0
          (record { name = codes "name"; value = codes "/" ++ 0 ∷ [] }
            ∷ record { name = codes "m"; value = 16 ∷ 0 ∷ 0 ∷ 0 ∷ [] }
            ∷ [])
          (node 1 (record { name = codes "n"; value = codes "cpu" ++ 0 ∷ [] } ∷ []) null null)
          null,
    )
unfolding root_of strcmp_eq Strol.finish parse_xml_device_tree find_dictionary load_dictionary
    populate_pairs walk_nodes add_copied integer_to_device_tree_data string_to_device_tree_data
    array_to_device_tree_data allocate names_children array_bytes element_data get_next_tag seek
    further parse_element classify string_at until_nul parse_tag_list parse_elements parse_tag_key
    with_data fix_data_matching_tag fix_from ends_tag find_symbol free_field free_symbol link
    make_symbol_tag make_tag new_symbol new_tag parse_tag_boolean parse_tag_data parse_tag_date
    parse_tag_integer parse_tag_string xml_free_tag xml_parse_next_tag digit_of digits exceeds
    skip_spaces strtoul take_base take_sign append_property insert_child refill_properties
    refill_nodes add_property link_node name_node add_child initialize root_node
reads = refl

parse_xml_device_tree-Ends_example :
    Ends
      (start text)
      (initialize heap (record blank { heap = (start text).heap }))
      (parse_xml_device_tree heap format (start text) blank)
parse_xml_device_tree-Ends_example =
    parse_xml_device_tree-Ends heap format (λ n w. refl) (start text) blank (start-IsTable text)
