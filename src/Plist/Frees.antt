-- ===== src/Plist/Frees.antt =====
-- `XMLFreeTag` gives back what a tag holds.
use xnu_uboot_arm.Base.{ℕ, ◌+◌, ◌≤◌, ◌≡◌, ◌∙◌, refl, List, arith}
use xnu_uboot_arm.DeviceTree.{Heap}
use xnu_uboot_arm.Plist.{
  TagType, tag_dict, tag_key, tag_string, tag_integer, tag_data, tag_date, tag_false, tag_true,
  tag_array, Field, zero_field, symbol, number, Tag, no_tag, tag, Plist, free_symbol, free_field,
  xml_free_tag,
}
use xnu_uboot_arm.Plist.Count.{hit, field_uses, uses, count, refs, IsTable, strcmp_eq_refl}
use xnu_uboot_arm.Plist.Table.{Loses, free_symbol-Loses}

module _ {W : Type 0} where
  -- The state after `tags` more free tags, without the references that `held` counts.
  pub record Freed (held : List ℕ → ℕ) (tags : ℕ) (p p' : Plist W) : Type 0 where
    pub counts : (s : List ℕ) → refs s p'.symbols + held s ≡ refs s p.symbols
    pub table : IsTable p'.symbols
    pub text : p'.text ≡ p.text
    pub tags_free : p'.tags_free ≡ p.tags_free + tags
    pub tag_blocks : p'.tag_blocks ≡ p.tag_blocks

  Freed-none :
      (held : List ℕ → ℕ) (p : Plist W)
      → ((s : List ℕ) → held s ≡ 0)
      → IsTable p.symbols
      → Freed held 0 p p
  Freed-none held p e k = record {
    counts = λ s. omega (arith, e s);
    table = k;
    text = refl;
    tags_free = omega arith;
    tag_blocks = refl;
  }

  module _ (h : Heap W) where
    Loses-Freed : {string : List ℕ} {p p' : Plist W} → Loses string p p' → Freed (hit string) 0 p p'
    Loses-Freed k = record {
      counts = k.counts;
      table = k.table;
      text = k.text;
      tags_free = omega (arith, k.tags_free);
      tag_blocks = k.tag_blocks;
    }

    drops :
        (string : List ℕ) (p : Plist W)
        → IsTable p.symbols
        → hit string string ≤ refs string p.symbols
        → Freed (λ s. hit string s) 0 p (free_symbol h string p)
    drops string p k u =
        let one : hit string string ≡ 1 = unfold hit in rw (strcmp_eq_refl string) refl in
        Loses-Freed (free_symbol-Loses h string p k (omega (arith, u, one)))

    free_field-Freed :
        (type : TagType) (string : Field) (p : Plist W)
        → IsTable p.symbols
        → ((s : List ℕ) → field_uses s type string ≤ refs s p.symbols)
        → Freed (λ s. field_uses s type string) 0 p (free_field h type string p)
    unfolding field_uses free_field
    free_field-Freed type zero_field p k u = Freed-none (λ s. 0) p (λ s. refl) k
    free_field-Freed type (number n) p k u = Freed-none (λ s. 0) p (λ s. refl) k
    free_field-Freed tag_integer (symbol s) p k u = Freed-none (λ s. 0) p (λ s. refl) k
    free_field-Freed tag_dict (symbol s) p k u = drops s p k (u s)
    free_field-Freed tag_key (symbol s) p k u = drops s p k (u s)
    free_field-Freed tag_string (symbol s) p k u = drops s p k (u s)
    free_field-Freed tag_data (symbol s) p k u = drops s p k (u s)
    free_field-Freed tag_date (symbol s) p k u = drops s p k (u s)
    free_field-Freed tag_false (symbol s) p k u = drops s p k (u s)
    free_field-Freed tag_true (symbol s) p k u = drops s p k (u s)
    free_field-Freed tag_array (symbol s) p k u = drops s p k (u s)

    -- What is held must be counted: then every reference is given back, and every tag is free again.
    pub xml_free_tag-Freed :
        (t : Tag) (p : Plist W)
        → IsTable p.symbols
        → ((s : List ℕ) → uses s t ≤ refs s p.symbols)
        → Freed (λ s. uses s t) (count t) p (xml_free_tag h t p)
    unfolding uses count xml_free_tag
    xml_free_tag-Freed no_tag p k u = Freed-none (λ s. 0) p (λ s. refl) k
    xml_free_tag-Freed (tag type string child next) p k u =
        let p1 = free_field h type string p in
        let f1 = free_field-Freed type string p k (λ s. omega (arith, u s)) in
        let p2 = xml_free_tag h child p1 in
        let f2 = xml_free_tag-Freed child p1 f1.table (λ s. omega (arith, u s, f1.counts s)) in
        let f3 =
          xml_free_tag-Freed next p2 f2.table (λ s. omega (arith, u s, f1.counts s, f2.counts s)) in
        record {
          counts = λ s. omega (arith, f1.counts s, f2.counts s, f3.counts s);
          table = f3.table;
          text = f3.text ∙ f2.text ∙ f1.text;
          tags_free = omega (arith, f1.tags_free, f2.tags_free, f3.tags_free);
          tag_blocks = f3.tag_blocks ∙ f2.tag_blocks ∙ f1.tag_blocks;
        }
