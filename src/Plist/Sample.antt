-- ===== src/Plist/Sample.antt =====
-- A format, a heap without end and an empty state for the tests.
use xnu_uboot_arm.Base.{ℕ, ◌+◌, true, List, [], ◌∷◌, codes, arith}
use xnu_uboot_arm.DeviceTree.{Heap}
use xnu_uboot_arm.Plist.{Format, Plist}
use xnu_uboot_arm.Plist.Count.{IsTable, AllUsed, entries, hit}

abbrev pub format : Format
format = record {
  plist = codes "plist ";
  dict = codes "dict";
  key = codes "key";
  string = codes "string";
  integer = codes "integer";
  data_name = codes "data";
  date = codes "date";
  false_name = codes "false/";
  true_name = codes "true/";
  array = codes "array";
  sizeof_tag = 16;
}

abbrev pub heap : Heap ℕ
heap = record {
  malloc = λ n w. (true, w + n);
  free = λ w. w;
  address = λ w. w;
  free_at = λ p w. w;
  keeps_link = λ p w. true;
  nodes_per_block = 100;
  properties_per_block = 50;
}

-- One symbol is in the table already.
abbrev pub start : List ℕ → Plist ℕ
start text = record {
  text = text;
  tags_free = 0;
  tag_blocks = 0;
  symbols = record { ref_count = 2; string = codes "a" } ∷ [];
  heap = 0;
}

pub start-IsTable : (text : List ℕ) → IsTable (start text).symbols
unfolding AllUsed entries hit
start-IsTable text = record { used = (omega arith, tt); distinct = λ s. ground arith }

abbrev pub document : List ℕ
document =
    codes
      "<plist a><dict><key>a</key><string>b</string><key>c</key><array><integer>5</integer><true/></array></dict></plist>"
