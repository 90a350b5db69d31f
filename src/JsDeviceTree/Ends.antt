-- ===== src/JsDeviceTree/Ends.antt =====
-- The tree that `parse_jsdt_device_tree` leaves.
use xnu_uboot_arm.Base.{ℕ, ◌≡◌, ◌⊎◌, true, false, none, List}
use xnu_uboot_arm.Jsmn.{Parser, Token, parsed, Error, success, inval, part, jsmn_parse, jsmn_init}
use xnu_uboot_arm.DeviceTree.{Heap, DeviceTree}
use xnu_uboot_arm.DeviceTree.Kept.{Kept}
use xnu_uboot_arm.DeviceTree.Rooted.{IsRooted}
use xnu_uboot_arm.JsDeviceTree.{
  Walk, skipped, parser_error, Result, returned, stopped, no_fuel, Garbage, build_device_tree,
  context,
}

-- Some array of new tokens is long enough for the tokenizer to end on the text, with the verdict `e`
-- and the tokens of `p`.
abbrev pub Tokenized : List ℕ → Error → Parser → Type 0
Tokenized raw e p =
    (token_cnt : ℕ) × (tokens : List Token) × (jsmn_parse raw token_cnt
        (jsmn_init (record { pos = 0; toknext = 0; toksuper = none; tokens = tokens }))
      ≡ parsed e p)

-- The text is no JSON for the tokenizer, or it is cut off.
abbrev pub Refused : List ℕ → Type 0
Refused raw = (p : Parser) × (Tokenized raw inval p ⊎ Tokenized raw part p)

module _ {W : Type 0} where
  -- The tree and its counts are the same.
  abbrev pub Untouched : DeviceTree W → DeviceTree W → Type 0
  Untouched t t' =
      (t'.root ≡ t.root)
      × (t'.num_nodes ≡ t.num_nodes)
      × (t'.num_properties ≡ t.num_properties)
      × (t'.total_property_size ≡ t.total_property_size)

  -- The walk over the tokens ends as `w`, begun with the tree of some heap.
  abbrev pub Walked : Heap W → Garbage → List ℕ → (fuel : ℕ) → DeviceTree W → Walk W → Type 0
  Walked h garbage raw fuel t w =
      (p : Parser) × Tokenized raw success p
      × (heap : W) × (build_device_tree (context h garbage raw fuel p.tokens) h fuel
            (record t { heap = heap })
          ≡ w)

  -- `true` is returned where the tokenizer takes the text and the walk over its tokens reaches their
  -- end, which leaves a tree in order with a root; `false` where the tokenizer refuses the text, which
  -- leaves the tree and its counts, or where it takes the text and the walk over its tokens ends in an
  -- error, which leaves a tree in order with a root.
  abbrev pub Ends : Heap W → Garbage → List ℕ → (fuel : ℕ) → DeviceTree W → Result W → Type 0
  Ends h garbage raw fuel t (returned true t') =
      ((skip : ℕ) × (t1 : DeviceTree W) × Walked h garbage raw fuel t (skipped skip t1)
        × (t' ≡ record t1 { heap = h.free t1.heap }))
      × IsRooted t'
  Ends h garbage raw fuel t (returned false t') =
      (Refused raw × Untouched t t')
      ⊎ (((t1 : DeviceTree W) × Walked h garbage raw fuel t (parser_error t1)
            × (t' ≡ record t1 { heap = h.free t1.heap }))
          × IsRooted t')
  Ends h garbage raw fuel t stopped = Unit {0}
  Ends h garbage raw fuel t no_fuel = Unit {0}
