-- ===== src/JsDeviceTree/Tests.antt =====
-- Runs of the parser of device trees in JSON, and its theorem at one.
use xnu_uboot_arm.Base.{
  ℕ, ◌+◌, ◌-◌, ◌≡◌, refl, Bool, true, Option, none, some, List, [], ◌∷◌, ◌++◌, codes,
}
use xnu_uboot_arm.Jsmn.{
  string, jsmn_parse, parse_loop, parse_char, jsmn_init, jsmn_alloc_token, primitive_end,
  jsmn_parse_primitive, string_end, jsmn_parse_string, jsmn_comment_length, find_open, count_child,
  add_children_token, open_token, close_token,
}
use xnu_uboot_arm.Strol.{skip_spaces, take_sign, take_base, digit_of, exceeds, digits, strtoul}
use xnu_uboot_arm.Strol
use xnu_uboot_arm.DeviceTree.{
  Node, null, node, DeviceTree, Heap, append_property, insert_child, refill_properties,
  refill_nodes, add_property, link_node, name_node, add_child, initialize, root_node,
}
use xnu_uboot_arm.JsDeviceTree.{
  Result, returned, stopped, no_fuel, Garbage, value_of, data_length, data_bytes, allocate,
  token_to_string, token_to_integer_data, insert_data, insert_array, insert_pair, build_node,
  build_device_tree, new_tokens, end_walk, parse_again, parse_jsdt_device_tree,
}
use xnu_uboot_arm.JsDeviceTree.Ends.{Ends}

-- A heap that does not run out, whose state is the number of blocks in use.
abbrev endless : Heap ℕ
endless = record {
  malloc = λ n w. (true, w + 1);
  free = λ w. w - 1;
  address = λ w. w;
  free_at = λ p w. w - 1;
  keeps_link = λ p w. true;
  nodes_per_block = 204;
  properties_per_block = 256;
}

abbrev garbage : Garbage
garbage = record { token = λ i. record { type = string; start = some 3; end = some 9; size = i } }

abbrev blank : DeviceTree ℕ
blank = record {
  root = null;
  num_nodes = 0;
  num_properties = 0;
  total_property_size = 0;
  free_nodes = 0;
  alloced_nodes = [];
  free_properties = 0;
  alloced_properties = [];
  next_id = 0;
  heap = 0;
}

abbrev text : List ℕ
text = codes "{\"m\": 0x10, @: [{\"n\": \"cpu\", \"r\": [1, \"x\"]}]}"

abbrev root_of : Result ℕ → Option (Bool × Node)
root_of (returned ret t) = some (ret, t.root)
root_of stopped = none
root_of no_fuel = none

reads :
    root_of (parse_jsdt_device_tree endless garbage text 40 blank)
    ≡ some (
      true,
      node 0
          (record { name = codes "name"; value = 47 ∷ 0 ∷ [] }
            ∷ record { name = codes "m"; value = 16 ∷ 0 ∷ 0 ∷ 0 ∷ [] }
            ∷ [])
          (node 1
            (record { name = codes "n"; value = codes "cpu" ++ 0 ∷ [] }
              ∷ record { name = codes "r"; value = 1 ∷ 0 ∷ 0 ∷ 0 ∷ 120 ∷ 0 ∷ [] }
              ∷ [])
            null
            null)
          null,
    )
unfolding parse_jsdt_device_tree parse_again new_tokens end_walk build_device_tree build_node
    insert_pair insert_array insert_data allocate token_to_string token_to_integer_data data_length
    data_bytes value_of strtoul skip_spaces take_sign take_base digit_of exceeds digits jsmn_parse
    parse_loop parse_char jsmn_init jsmn_alloc_token primitive_end jsmn_parse_primitive string_end
    jsmn_parse_string jsmn_comment_length find_open count_child add_children_token open_token
    close_token append_property insert_child refill_properties refill_nodes add_property link_node
    name_node add_child initialize root_node Strol.finish
reads = refl
