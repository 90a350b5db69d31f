-- ===== src/Plist/Made.antt =====
-- A new tag that is filled in, and what it holds; without memory, what it was to hold is freed.
use xnu_uboot_arm.Base.{
  by_if, ℕ, ◌+◌, ◌*◌, ◌==◌, ◌≡◌, ap, refl, Bool, true, false, Option, none, some, if◌then◌else◌,
  List, length, arith,
}
use xnu_uboot_arm.DeviceTree.{Heap}
use xnu_uboot_arm.Plist.{
  TagType, Field, symbol, Tag, no_tag, tag, Plist, new_tag, new_symbol, xml_free_tag, Format,
  tags_per_block,
}
use xnu_uboot_arm.Plist.Parse.{Parsed, parsed, failed, panicked, make_tag, make_symbol_tag}
use xnu_uboot_arm.Plist.Count.{hit, field_uses, uses, count, refs, IsTable}
use xnu_uboot_arm.Plist.Table.{Gained, new_symbol-Gained}
use xnu_uboot_arm.Plist.Held.{IsSingle, Reached, Reached-wider, Reached-free, Ended}

module _ {W : Type 0} where
  module _ (h : Heap W) where
    -- A tag that is taken from the free list, and not filled in yet.
    record Taken (p p' : Plist W) : Type 0 where
      pub symbols : p'.symbols ≡ p.symbols
      pub text : p'.text ≡ p.text
      pub tags :
          p'.tags_free + 1 + tags_per_block * p.tag_blocks
          ≡ p.tags_free + tags_per_block * p'.tag_blocks

    record Refused (p p' : Plist W) : Type 0 where
      pub symbols : p'.symbols ≡ p.symbols
      pub text : p'.text ≡ p.text
      pub tags_free : p'.tags_free ≡ p.tags_free
      pub tag_blocks : p'.tag_blocks ≡ p.tag_blocks

    unfoldable TagGot : Plist W → Bool × Plist W → Type 0
    TagGot p (true, p') = Taken p p'
    TagGot p (false, p') = Refused p p'

    module _ (f : Format) where
      new_tag-TagGot : (p : Plist W) → TagGot p (new_tag h f p)
      unfolding new_tag TagGot
      new_tag-TagGot p =
          let got = h.malloc (tags_per_block * f.sizeof_tag) p.heap in
          by_if (TagGot p) (p.tags_free == 0)
            (λ e.
              by_if (TagGot p) got.0
                (λ g. record { symbols = refl; text = refl; tags = ground (arith, e) })
                (λ g. record { symbols = refl; text = refl; tags_free = refl; tag_blocks = refl }))
            (λ e. record { symbols = refl; text = refl; tags = ground (arith, e) })

      at_new_tag :
          (P : Parsed W → Type 0) (p : Plist W) (x y : Plist W → Parsed W) (r : Bool × Plist W)
          → TagGot p r
          → ((p1 : Plist W) → Taken p p1 → P (x p1))
          → ((p1 : Plist W) → Refused p p1 → P (y p1))
          → P (if r.0 then x r.1 else y r.1)
      unfolding TagGot
      at_new_tag P p x y (true, p1) k f g = f p1 k
      at_new_tag P p x y (false, p1) k f g = g p1 k

      module _ {a b : ℕ} {p0 p : Plist W} (child : Tag) (k : Reached a b p0 p child) where
        out_of_tags :
            (p1 : Plist W)
            → Refused p p1
            → Reached a (length p0.text) p0 (xml_free_tag h child p1) no_tag
        out_of_tags p1 r = Reached-wider no_tag (
            Reached-free h child (record {
              counts = rw r.symbols k.counts;
              table = rw r.symbols k.table;
              tags = omega (arith, k.tags, r.tags_free, r.tag_blocks);
              writes = rw r.text k.writes;
              forward = k.forward;
              bound = k.bound;
            }))

        pub make_tag-Ended :
            (type : TagType) (string : Field) (len : ℕ)
            → a + len ≡ b
            → ((s : List ℕ) → field_uses s type string ≡ 0)
            → Ended a p0 (make_tag h f type string child len p)
        unfolding Ended make_tag IsSingle
        make_tag-Ended type string len e none_used =
            at_new_tag (Ended a p0) p (λ p1. parsed len (tag type string child no_tag) p1)
              (λ p1. failed (xml_free_tag h child p1)) (new_tag h f p) (new_tag-TagGot p)
              (λ p1 taken. (
                record {
                  counts =
                      λ s. unfold uses in rw taken.symbols (omega (arith, k.counts s, none_used s));
                  table = rw taken.symbols k.table;
                  tags = unfold count in omega (arith, k.tags, taken.tags);
                  writes = rw (taken.text, e) k.writes;
                  forward = omega arith;
                  bound = rw e k.bound;
                },
                refl,
              ))
              out_of_tags

        pub make_symbol_tag-Ended :
            (type : TagType) (string : List ℕ) (len : ℕ)
            → a + len ≡ b
            → ((s : List ℕ) → field_uses s type (symbol string) ≡ hit string s)
            → Ended a p0 (make_symbol_tag h f type string child len p)
        unfolding Ended make_symbol_tag Gained IsSingle
        make_symbol_tag-Ended type string len e used =
            at_new_tag (Ended a p0) p
              (λ p1. elim (new_symbol h string p1) [
                | none ↦ panicked
                | some p2 ↦ parsed len (tag type (symbol string) child no_tag) p2
              ])
              (λ p1. failed (xml_free_tag h child p1)) (new_tag h f p) (new_tag-TagGot p)
              (λ p1 taken.
                let table : IsTable p1.symbols = rw taken.symbols k.table in
                at_symbol p1 taken (new_symbol h string p1) (new_symbol-Gained h string p1 table))
              out_of_tags
          where
            at_symbol :
                (p1 : Plist W)
                → Taken p p1
                → (r : Option (Plist W)) → Gained string p1 r
                → Ended a p0 (elim r [
                  | none ↦ panicked
                  | some p2 ↦ parsed len (tag type (symbol string) child no_tag) p2
                ])
            at_symbol p1 taken none g = tt
            at_symbol p1 taken (some p2) g = (
              record {
                counts = λ s.
                    unfold uses in
                    omega (arith, k.counts s, g.counts s, ap (refs s) taken.symbols, used s);
                table = g.table;
                tags = unfold count in omega (arith, k.tags, taken.tags, g.tags_free, g.tag_blocks);
                writes = rw (g.text, taken.text, e) k.writes;
                forward = omega arith;
                bound = rw e k.bound;
              },
              refl,
            )
