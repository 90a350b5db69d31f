-- ===== src/Loader/Invariant/Images.antt =====
-- The device trees, the tables of contents and the whole images keep the invariant.
use xnu_uboot_arm.Base.{
  ℕ, zero, suc, ◌+◌, ◌≡◌, refl, Bool, true, false, not, ◌==◌, if◌then◌else◌, add32, Ram, read32,
}
use xnu_uboot_arm.Runtime.{Runtime}
use xnu_uboot_arm.Macho.{Format}
use xnu_uboot_arm.Loader.{
  TreeParse, parsed, stopped, endless, Services, Board, Loader, Outcome, returned, halted,
  out_of_fuel, assert_kernel_load,
}
use xnu_uboot_arm.Loader.Command.{load_macho_from_command}
use xnu_uboot_arm.Loader.Image.{
  table_of_contents_magic, command_macho, command_xml_device_tree, command_js_device_tree,
  sizeof_header, take_tree, parse_tree, parse_xdt_command, parse_jsdt_command, run_command,
  run_commands, parse_table_of_contents, load_general_image,
}
use xnu_uboot_arm.Loader.Ends.{Leaves}
use xnu_uboot_arm.Loader.Invariant.{IsConsistent, load_macho_from_command-IsConsistent}

module _ (sv : Services) (rt : Runtime) where
  open sv use {World}

  module _ (f : Format) (board : Board) where
    take_tree-IsConsistent :
        (o : TreeParse World) (s : Loader World)
        → rt.range_is_null s.kernel_range ≡ false
        → Leaves (IsConsistent sv rt) (take_tree sv rt o s)
    unfolding take_tree
    take_tree-IsConsistent (parsed true m w) s kernel = λ _. kernel
    take_tree-IsConsistent (parsed false m w) s kernel = λ _. kernel
    take_tree-IsConsistent stopped s kernel = tt
    take_tree-IsConsistent endless s kernel = tt

    parse_tree-IsConsistent :
        (parser : ℕ → Ram → World → TreeParse World) (cmd : ℕ) (s : Loader World)
        → IsConsistent sv rt s
        → Leaves (IsConsistent sv rt) (parse_tree sv rt parser cmd s)
    unfolding parse_tree assert_kernel_load
    parse_tree-IsConsistent parser cmd s c =
        choose s.has_device_tree (rt.range_is_null s.kernel_range) refl refl
      where
        choose :
            (has null : Bool)
            → s.has_device_tree ≡ has
            → rt.range_is_null s.kernel_range ≡ null
            → Leaves (IsConsistent sv rt) (
                if has
                then returned 0 s
                else if not null
                then take_tree sv rt (parser (add32 cmd sizeof_header) s.ram s.world) s
                else returned 1 s)
        choose true null e k = c
        choose false true e k = c
        choose false false e k =
            take_tree-IsConsistent (parser (add32 cmd sizeof_header) s.ram s.world) s k

    run_command-IsConsistent :
        (cmd : ℕ) (s : Loader World)
        → IsConsistent sv rt s
        → Leaves (IsConsistent sv rt) (run_command sv rt f board cmd s)
    unfolding run_command parse_xdt_command parse_jsdt_command
    run_command-IsConsistent cmd s c =
        choose (read32 s.ram cmd == table_of_contents_magic) (read32 s.ram cmd == command_macho)
          (read32 s.ram cmd == command_xml_device_tree) (read32 s.ram cmd == command_js_device_tree)
      where
        choose :
            (a b d e : Bool)
            → Leaves (IsConsistent sv rt) (
                if a
                then returned 1 s
                else if b
                then load_macho_from_command sv rt f board cmd s
                else if d
                then parse_xdt_command sv rt cmd s
                else if e
                then parse_jsdt_command sv rt cmd s
                else returned 1 s)
        choose true b d e = c
        choose false true d e = load_macho_from_command-IsConsistent sv rt f board cmd s c
        choose false false true e = parse_tree-IsConsistent sv.parse_xml_device_tree cmd s c
        choose false false false true = parse_tree-IsConsistent sv.parse_jsdt_device_tree cmd s c
        choose false false false false = c

    run_commands-IsConsistent :
        (n cmd : ℕ) (s : Loader World)
        → IsConsistent sv rt s
        → Leaves (IsConsistent sv rt) (run_commands sv rt f board n cmd s)
    unfolding run_commands
    run_commands-IsConsistent zero cmd s c = c
    run_commands-IsConsistent (suc n) cmd s c =
        go (run_command sv rt f board cmd s) (run_command-IsConsistent cmd s c)
          (λ s'. run_commands-IsConsistent n (add32 cmd (read32 s'.ram (cmd + 4))) s')
      where
        go :
            (o : Outcome World)
            → Leaves (IsConsistent sv rt) o
            → ((s' : Loader World)
                → IsConsistent sv rt s'
                → Leaves
                    (IsConsistent sv rt)
                    (run_commands sv rt f board n (add32 cmd (read32 s'.ram (cmd + 4))) s'))
            → Leaves (IsConsistent sv rt) (elim o [
              | halted ↦ halted
              | out_of_fuel ↦ out_of_fuel
              | returned zero s' ↦
                  run_commands sv rt f board n (add32 cmd (read32 s'.ram (cmd + 4))) s'
              | returned (suc ret) s' ↦ returned (suc ret) s'
            ])
        go halted k rest = tt
        go out_of_fuel k rest = tt
        go (returned zero s') k rest = rest s' k
        go (returned (suc ret) s') k rest = k

    pub load_general_image-IsConsistent :
        (address : ℕ) (s : Loader World)
        → IsConsistent sv rt s
        → Leaves (IsConsistent sv rt) (load_general_image sv rt f board address s)
    unfolding load_general_image parse_xdt_command parse_jsdt_command parse_table_of_contents
    load_general_image-IsConsistent address s c =
        choose (read32 s.ram address == command_macho)
          (read32 s.ram address == command_xml_device_tree)
          (read32 s.ram address == command_js_device_tree)
          (read32 s.ram address == table_of_contents_magic)
      where
        choose :
            (b d e t : Bool)
            → Leaves (IsConsistent sv rt) (
                if b
                then load_macho_from_command sv rt f board address s
                else if d
                then parse_xdt_command sv rt address s
                else if e
                then parse_jsdt_command sv rt address s
                else if t
                then parse_table_of_contents sv rt f board address s
                else returned 1 s)
        choose true d e t = load_macho_from_command-IsConsistent sv rt f board address s c
        choose false true e t = parse_tree-IsConsistent sv.parse_xml_device_tree address s c
        choose false false true t = parse_tree-IsConsistent sv.parse_jsdt_device_tree address s c
        choose false false false true =
            run_commands-IsConsistent (read32 s.ram (address + 4)) (add32 address sizeof_header) s c
        choose false false false false = c
