-- ===== src/Boot/Tests.antt =====
-- Runs of the hand-over, and its theorems at one.
use xnu_uboot_arm.Base.{
  ℕ, ◌+◌, ◌-◌, ◌≡◌, refl, true, false, Option, none, some, [], ◌∷◌, ◌++◌, if◌then◌else◌, ltb, codes,
  length, arith,
}
use xnu_uboot_arm.Runtime.{range}
use xnu_uboot_arm.Runtime.Sample.{sample, sample-IsRuntime}
use xnu_uboot_arm.Region.{memory_reserve}
use xnu_uboot_arm.DeviceTree.{
  null, DeviceTree, Heap, append_property, insert_child, refill_properties, refill_nodes,
  add_property, link_node, name_node, add_child, initialize, finalize, root_node,
}
use xnu_uboot_arm.DeviceTree.Built.{initial, Built-IsCounted}
use xnu_uboot_arm.DeviceTree.Flatten.Written.{bytes_of_property, bytes_of_properties, bytes_of}
use xnu_uboot_arm.Loader.{Driver}
use xnu_uboot_arm.Boot.{ptokv, kvtop, Boot, Host, Ending, returned, halted, started}
use xnu_uboot_arm.Boot.Map.{
  allocate_memory_range, create_memory_map, enter_memory_range, map_add_info, map_add_drivers,
  map_drivers, map_booter_extension, map_add_ramdisk,
}
use xnu_uboot_arm.Boot.Start.{
  allocate_boot_args, place_device_tree, fill_memory_map, populate_boot_args, lay_out, out,
  boot_from, mach_boot,
}
use xnu_uboot_arm.Boot.Refusal.{Ends, mach_boot-Ends}
use xnu_uboot_arm.DeviceTree.Flatten.Check.{can_be_flat-IsFlatTree}
use xnu_uboot_arm.Boot.Counted.{IsHome, root_node-IsHome, fill_memory_map-IsHome}
use xnu_uboot_arm.Boot.Started.{mapped, filled, IsStartable, mach_boot-started}
use xnu_uboot_arm.Boot.Layout.{IsReady, IsLaidOut, lay_out-IsLaidOut}

-- A heap of `limit` blocks, whose state is the number of blocks in use.
abbrev heap_of : ℕ → Heap ℕ
heap_of limit = record {
  malloc = λ n w. if ltb w limit then (true, w + 1) else (false, w);
  free = λ w. w - 1;
  address = λ w. w;
  free_at = λ p w. w - 1;
  keeps_link = λ p w. true;
  nodes_per_block = 204;
  properties_per_block = 256;
}

abbrev host : Host
host = record { print_hex = λ n. codes "40000100"; stack_range = range 7 7; allocated = 0 }

abbrev blank : DeviceTree ℕ
blank = record {
  root = null;
  num_nodes = 0;
  num_properties = 0;
  total_property_size = 0;
  free_nodes = 0;
  alloced_nodes = [];
  free_properties = 0;
  alloced_properties = [];
  next_id = 0;
  heap = 0;
}

abbrev one_node : DeviceTree ℕ
unfolding initialize add_child refill_nodes link_node name_node add_property refill_properties
    append_property insert_child
one_node = initialize (heap_of 100) blank

abbrev kext : Driver
kext = record {
  range = range 0x4000_0100 0x2000;
  info_offset = 0x1000;
  has_exec = true;
  name = codes "a.kext" ++ 0 ∷ [];
}

abbrev loaded : Boot ℕ
loaded = record {
  has_device_tree = true;
  memory_top = 0x4001_0000;
  virtual_base = 0x8000_0000;
  physical_base = 0x4000_0000;
  kernel_range = range 0x4000_0000 0x1_0000;
  ramdisk_range = range 0 0;
  entry_point = 0x8000_1000;
  drivers = kext ∷ [];
  kernel_mem = record { base = 0; down = true; pos = 0 };
  tree = one_node;
  ram = λ a. 0;
}

abbrev code_of : Ending ℕ → Option ℕ
code_of (returned code s) = some code
code_of halted = none
code_of (started entry_point boot_args s) = some (entry_point + boot_args)

starts : code_of (mach_boot (heap_of 100) sample host loaded) ≡ some (0x4000_1000 + 0x8001_0000)
unfolding mach_boot boot_from out fill_memory_map create_memory_map map_add_info map_add_drivers
    map_drivers map_booter_extension map_add_ramdisk enter_memory_range allocate_memory_range
    allocate_boot_args memory_reserve add_child refill_nodes link_node name_node add_property
    refill_properties append_property insert_child root_node one_node finalize lay_out
    populate_boot_args place_device_tree
starts = refl

no_memory : code_of (mach_boot (heap_of 5) sample host loaded) ≡ some 1
unfolding mach_boot boot_from out fill_memory_map create_memory_map map_add_info map_add_drivers
    map_drivers map_booter_extension map_add_ramdisk enter_memory_range allocate_memory_range
    allocate_boot_args memory_reserve add_child refill_nodes link_node name_node add_property
    refill_properties append_property insert_child root_node one_node finalize
no_memory = refl

mach_boot-Ends_example : Ends loaded (mach_boot (heap_of 5) sample host loaded)
mach_boot-Ends_example = mach_boot-Ends (heap_of 5) sample host loaded

-- A heap that does not run out.
abbrev plentiful : Heap ℕ
plentiful = record (heap_of 100) { malloc = λ n w. (true, w + 1) }

loaded_IsStartable : IsStartable plentiful sample host loaded 0
unfolding one_node filled mapped fill_memory_map create_memory_map map_add_info map_add_drivers
    map_drivers map_booter_extension map_add_ramdisk enter_memory_range allocate_memory_range
    allocate_boot_args memory_reserve add_child refill_nodes link_node name_node add_property
    refill_properties append_property insert_child root_node bytes_of bytes_of_properties
    bytes_of_property
loaded_IsStartable = record {
  loaded = refl;
  counted = Built-IsCounted (heap_of 100) (initial blank);
  one_root = refl;
  rooted = refl;
  plenty = λ n w. refl;
  mappable = (refl, tt);
  flat = can_be_flat-IsFlatTree (filled plentiful sample host loaded 2).1.tree.root refl;
  fits = omega (arith);
}

mach_boot-started_example :
    let full = (filled plentiful sample host loaded (loaded.tree.next_id + 1)).1 in
    let laid_out = lay_out plentiful sample host 0x4001_0000 full in
    (mach_boot plentiful sample host loaded
      ≡ started
          (kvtop laid_out laid_out.entry_point)
          (ptokv laid_out 0x4001_0000)
          (record laid_out { tree = finalize plentiful laid_out.tree }))
    × IsLaidOut full laid_out 0x4001_0000
mach_boot-started_example =
    mach_boot-started plentiful sample host loaded 0 loaded_IsStartable sample-IsRuntime

one_node_IsHome : IsHome 0 loaded.tree
unfolding one_node
one_node_IsHome =
    root_node-IsHome (heap_of 100) 0 loaded.tree (Built-IsCounted (heap_of 100) (initial blank))
      refl (unfold root_node in refl)

fill_memory_map-IsHome_example :
    IsHome 0 (fill_memory_map (heap_of 3) sample host 0 (range 0x4001_0000 312) loaded).1.tree
fill_memory_map-IsHome_example =
    fill_memory_map-IsHome 0 (heap_of 3) host sample (range 0x4001_0000 312) loaded one_node_IsHome

abbrev placing : Boot ℕ
placing = record loaded {
  kernel_mem = record { base = 0x4000_0000; down = false; pos = 0x4001_0138 };
}

placing_length : length (bytes_of placing.tree.root) ≡ 48
unfolding one_node bytes_of bytes_of_properties bytes_of_property
placing_length = refl

placing-IsReady : IsReady placing (0x4001_0000 + 312)
unfolding one_node
placing-IsReady = record {
  counted = Built-IsCounted (heap_of 100) (initial blank);
  one_root = refl;
  flat = (
    (
      record {
        name_fits = omega arith;
        name_bytes = (omega arith, (omega arith, (omega arith, (omega arith, (omega arith, tt)))));
        value_fits = omega arith;
        value_bytes = (omega arith, (omega arith, tt));
      },
      tt,
    ),
    tt,
    tt,
  );
  not_empty = unfold bytes_of in omega arith;
  upwards = refl;
  at_top = refl;
  fits = omega (arith, placing_length);
}

lay_out-IsLaidOut_example :
    IsLaidOut placing (lay_out (heap_of 100) sample host 0x4001_0000 placing) 0x4001_0000
lay_out-IsLaidOut_example =
    lay_out-IsLaidOut (heap_of 100) sample host sample-IsRuntime placing 0x4001_0000 placing-IsReady
