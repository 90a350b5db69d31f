-- ===== src/Loader/Image.antt =====
-- The commands of an image: the device trees, the table of contents and the dispatch on the magic.
use xnu_uboot_arm.Base.{ℕ, zero, suc, ◌+◌, true, false, ◌==◌, if◌then◌else◌, add32, Ram, read32}
use xnu_uboot_arm.Runtime.{Runtime}
use xnu_uboot_arm.Macho.{Format}
use xnu_uboot_arm.Loader.{
  TreeParse, parsed, stopped, endless, Services, Board, Loader, Outcome, returned, halted,
  out_of_fuel, assert_kernel_load,
}
use xnu_uboot_arm.Loader.Command.{load_macho_from_command}

-- Multi-character constants, the first character in the highest byte: 'CfoT', 'hcaM', 'TD-X', 'TDSJ'.
abbrev pub table_of_contents_magic : ℕ
table_of_contents_magic = 0x4366_6F54

abbrev pub command_macho : ℕ
command_macho = 0x6863_614D

abbrev pub command_xml_device_tree : ℕ
command_xml_device_tree = 0x5444_2D58

abbrev pub command_js_device_tree : ℕ
command_js_device_tree = 0x5444_534A

-- sizeof(command_t) and sizeof(table_of_contents_t)
abbrev pub sizeof_header : ℕ
sizeof_header = 8

module _ (sv : Services) (rt : Runtime) where
  open sv use {World}

  -- What the two commands do with the parser's end.
  unfoldable pub take_tree : TreeParse World → Loader World → Outcome World
  take_tree (parsed true m w) s =
      returned 0 (record s { has_device_tree = true; ram = m; world = w })
  take_tree (parsed false m w) s = returned 1 (record s { ram = m; world = w })
  take_tree stopped s = halted
  take_tree endless s = out_of_fuel

  unfoldable pub parse_tree :
      (ℕ → Ram → World → TreeParse World) → (cmd : ℕ) → Loader World → Outcome World
  parse_tree parser cmd s =
      if s.has_device_tree
      then returned 0 s
      else if assert_kernel_load sv rt s
      then take_tree (parser (add32 cmd sizeof_header) s.ram s.world) s
      else returned 1 s

  unfoldable pub parse_xdt_command : (cmd : ℕ) → Loader World → Outcome World
  unfolding parse_tree
  parse_xdt_command = parse_tree sv.parse_xml_device_tree

  unfoldable pub parse_jsdt_command : (cmd : ℕ) → Loader World → Outcome World
  unfolding parse_tree
  parse_jsdt_command = parse_tree sv.parse_jsdt_device_tree

module _ (sv : Services) (rt : Runtime) (f : Format) (board : Board) where
  open sv use {World}

  -- The body of the loop: one command of a table of contents.
  unfoldable pub run_command : (cmd : ℕ) → Loader World → Outcome World
  run_command cmd s =
      let magic = read32 s.ram cmd in
      if magic == table_of_contents_magic
      then returned 1 s
      else if magic == command_macho
      then load_macho_from_command sv rt f board cmd s
      else if magic == command_xml_device_tree
      then parse_xdt_command sv rt cmd s
      else if magic == command_js_device_tree
      then parse_jsdt_command sv rt cmd s
      else returned 1 s

  -- `while (left_cmds--)`; `cmd->size` is read after the command has run.
  unfoldable pub run_commands : (left_cmds cmd : ℕ) → Loader World → Outcome World
  run_commands zero cmd s = returned 0 s
  run_commands (suc n) cmd s = elim (run_command cmd s) [
    | halted ↦ halted
    | out_of_fuel ↦ out_of_fuel
    | returned zero s' ↦ run_commands n (add32 cmd (read32 s'.ram (cmd + 4))) s'
    | returned (suc ret) s' ↦ returned (suc ret) s'
  ]

  unfoldable pub parse_table_of_contents : (toc : ℕ) → Loader World → Outcome World
  parse_table_of_contents toc s = run_commands (read32 s.ram (toc + 4)) (add32 toc sizeof_header) s

  unfoldable pub load_general_image : (image_address : ℕ) → Loader World → Outcome World
  load_general_image image_address s =
      let magic = read32 s.ram image_address in
      if magic == command_macho
      then load_macho_from_command sv rt f board image_address s
      else if magic == command_xml_device_tree
      then parse_xdt_command sv rt image_address s
      else if magic == command_js_device_tree
      then parse_jsdt_command sv rt image_address s
      else if magic == table_of_contents_magic
      then parse_table_of_contents image_address s
      else returned 1 s
