-- ===== src/Plist/Elements.antt =====
-- The elements of a property list end, where the call for the next tag does, stay in the text, and
-- hold what their result holds.
use xnu_uboot_arm.Base.{
  by_if, ℕ, zero, suc, ◌+◌, ◌==◌, ◌≤◌, ◌<◌, ◌≡◌, sym, refl, true, false, List, length, get_or,
  arith,
}
use xnu_uboot_arm.DeviceTree.{Heap}
use xnu_uboot_arm.Strol.{strtoul}
use xnu_uboot_arm.Plist.{
  TagType, tag_key, tag_string, tag_integer, tag_data, tag_date, zero_field, number, Tag, no_tag,
  tag, Plist, xml_free_tag, Format,
}
use xnu_uboot_arm.Plist.Text.{string_at, Fixed, fixed, no_end, fix_fuel, fix_data_matching_tag}
use xnu_uboot_arm.Plist.Parse.{
  link, Parsed, parsed, failed, panicked, exhausted, make_tag, make_symbol_tag, with_data,
  parse_tag_string, parse_tag_integer, parse_tag_data, parse_tag_date, parse_tag_boolean,
  parse_tag_key, parse_elements, parse_tag_list, parse_element, Element, no_element, key_element,
  string_element, integer_element, data_element, date_element, list_element, boolean_element,
}
use xnu_uboot_arm.Plist.Count.{field_uses, IsTable}
use xnu_uboot_arm.Plist.Scan.{Fix, fix_data_matching_tag-Fix}
use xnu_uboot_arm.Plist.Made.{make_tag-Ended, make_symbol_tag-Ended}
use xnu_uboot_arm.Plist.Held.{
  IsSingle, Reached, Reached-refl, Reached-text, Reached-then, Reached-after, Reached-link,
  Reached-wider, Reached-free, Ended,
}

module _ {W : Type 0} where
  -- A call that returns a length has moved on.
  unfoldable pub Advanced : ℕ → Plist W → Parsed W → Type 0
  Advanced pos p (parsed len t p') = (2 ≤ len) × Ended pos p (parsed len t p')
  Advanced pos p (failed p') = Ended pos p (failed p')
  Advanced pos p panicked = Unit {0}
  Advanced pos p exhausted = ⊥

  -- Fuel `n` is enough for the text from any position on, once the position and the fuel together
  -- exceed the text.
  unfoldable pub Advances : ℕ → (ℕ → Plist W → Parsed W) → Type 0
  Advances n next =
      (pos : ℕ) (p : Plist W)
      → IsTable p.symbols
      → pos ≤ length p.text
      → length p.text < n + pos
      → Advanced pos p (next pos p)

  with_data-Ended :
      (name : List ℕ) (pos : ℕ) (p : Plist W) (make : ℕ → Plist W → Parsed W)
      → IsTable p.symbols
      → pos ≤ length p.text
      → ((len : ℕ) (p1 : Plist W) → Reached pos (pos + len) p p1 no_tag → Ended pos p (make len p1))
      → Ended pos p (with_data name pos p make)
  unfolding with_data Ended Fix
  with_data-Ended name pos p make k a m =
      at_end (fix_data_matching_tag name pos p.text) (fix_data_matching_tag-Fix name pos p.text a)
    where
      at_end :
          (r : Fixed)
          → Fix p.text pos r
          → Ended pos p (elim r [
            | fix_fuel ↦ exhausted
            | no_end text ↦ failed (record p { text = text })
            | fixed len text1 ↦ make len (record p { text = text1 })
          ])
      at_end (fixed len text1) fix =
          m len (record p { text = text1 })
            (Reached-text pos (pos + len) p text1 k (omega arith) fix.0 fix.1)
      at_end (no_end text1) fix = Reached-text pos (length p.text) p text1 k a (omega arith) fix
      at_end fix_fuel fix = absurd fix

  module _ (h : Heap W) (f : Format) (n : ℕ) (next : ℕ → Plist W → Parsed W)
      (step : Advances n next) where
    after_next :
        (pos : ℕ) (p : Plist W) (P : Parsed W → Type 0) (r : Parsed W)
        (x : (len : ℕ) → Tag → Plist W → Parsed W) (y : Plist W → Parsed W)
        → Advanced pos p r
        → ((len : ℕ) (t : Tag) (p1 : Plist W)
            → 2 ≤ len
            → Reached pos (pos + len) p p1 t
            → IsSingle t
            → P (x len t p1))
        → ((p1 : Plist W) → Reached pos (length p.text) p p1 no_tag → P (y p1))
        → P panicked
        → P (elim r [
          | parsed len t p1 ↦ x len t p1
          | failed p1 ↦ y p1
          | panicked ↦ panicked
          | exhausted ↦ exhausted
        ])
    unfolding Advanced Ended
    after_next pos p P (parsed len t p1) x y r f g e = f len t p1 r.0 r.1.0 r.1.1
    after_next pos p P (failed p1) x y r f g e = g p1 r
    after_next pos p P panicked x y r f g e = e
    after_next pos p P exhausted x y r f g e = absurd r

    parse_tag_key-Ended :
        (pos : ℕ) (p : Plist W)
        → IsTable p.symbols
        → pos ≤ length p.text
        → length p.text < n + pos
        → Ended pos p (parse_tag_key h f next pos p)
    unfolding parse_tag_key Advances Ended
    parse_tag_key-Ended pos p k a fuel = with_data-Ended f.key pos p _ k a (λ len p1 r.
        after_next (pos + len) p1 (Ended pos p) (next (pos + len) p1)
          (λ len2 child p2.
            make_symbol_tag h f tag_key (string_at p2.text pos) child (len + len2) p2)
          failed
          (step (pos + len) p1 r.table (omega (arith, r.bound, r.writes.size))
            (omega (arith, fuel, r.writes.size)))
          (λ len2 child p2 m s single.
            make_symbol_tag-Ended h f child (Reached-after child r s) tag_key
              (string_at p2.text pos) (len + len2) (omega arith) (λ s. unfold field_uses in refl))
          (λ p2 s. Reached-wider no_tag (Reached-after no_tag r s)) tt)

    parse_elements-Ended :
        (rounds : ℕ) (type : TagType) (pos done : ℕ) (list : Tag) (p0 p : Plist W)
        → Reached pos (pos + done) p0 p list
        → length p0.text < n + pos
        → length p0.text < rounds + (pos + done)
        → Ended pos p0 (parse_elements h f next rounds type pos done list p)
    unfolding parse_elements Advances Advanced Ended IsSingle
    parse_elements-Ended zero type pos done list p0 p r fuel enough =
        absurd (omega (arith, r.bound, enough))
    parse_elements-Ended (suc rounds) type pos done list p0 p r fuel enough =
        at_element (next (pos + done) p)
          (step (pos + done) p r.table (omega (arith, r.bound, r.writes.size))
            (omega (arith, fuel, r.writes.size)))
          (parse_elements-Ended rounds type pos)
      where
        at_element :
            (x : Parsed W)
            → Advanced (pos + done) p x
            → ((done : ℕ) (list : Tag) (p0 p : Plist W)
                → Reached pos (pos + done) p0 p list
                → length p0.text < n + pos
                → length p0.text < rounds + (pos + done)
                → Ended pos p0 (parse_elements h f next rounds type pos done list p))
            → Ended pos p0 (elim x [
              | panicked ↦ panicked
              | exhausted ↦ exhausted
              | failed p1 ↦ failed (xml_free_tag h list p1)
              | parsed len no_tag p1 ↦ make_tag h f type zero_field list (done + len) p1
              | parsed len (tag t s c x) p1 ↦
                  parse_elements h f next rounds type pos (done + len) (link (tag t s c x) list) p1
            ])
        at_element panicked s again = tt
        at_element exhausted s again = absurd s
        at_element (failed p1) s again =
            Reached-wider no_tag (Reached-free h list (Reached-then list r s))
        at_element (parsed len no_tag p1) s again =
            make_tag-Ended h f list (Reached-then list r s.1.0) type zero_field (done + len)
              (omega arith) (λ s. unfold field_uses in refl)
        at_element (parsed len (tag t u c x) p1) s again =
            let e : pos + done + len ≡ pos + (done + len) = omega arith in
            again (done + len) (link (tag t u c x) list) p0 p1
              (rw (sym e) (Reached-link list t u c x s.1.1 r s.1.0)) fuel
              (omega (arith, enough, s.0))

    here-Ended :
        (type : TagType) (pos : ℕ) (p : Plist W)
        → IsTable p.symbols
        → pos ≤ length p.text
        → Ended pos p (make_tag h f type zero_field no_tag 0 p)
    here-Ended type pos p k a =
        make_tag-Ended h f no_tag (Reached-refl pos p k a) type zero_field 0 (omega arith)
          (λ s. unfold field_uses in refl)

    pub parse_element-Ended :
        (element : Element) (pos : ℕ) (p : Plist W)
        → IsTable p.symbols
        → pos ≤ length p.text
        → length p.text < n + pos
        → Ended pos p (parse_element h f next n element pos p)
    unfolding parse_element Ended IsSingle
    parse_element-Ended no_element pos p k a fuel =
        let e : pos + 0 ≡ pos = omega arith in (rw e (Reached-refl pos p k a), tt)
    parse_element-Ended key_element pos p k a fuel = parse_tag_key-Ended pos p k a fuel
    parse_element-Ended string_element pos p k a fuel =
        unfold parse_tag_string in
        with_data-Ended f.string pos p _ k a (λ len p1 r.
          make_symbol_tag-Ended h f no_tag r tag_string (string_at p1.text pos) len refl
            (λ s. unfold field_uses in refl))
    parse_element-Ended integer_element pos p k a fuel =
        unfold parse_tag_integer in
        by_if (Ended pos p) (get_or p.text pos 0 == b'<') (λ e. tt)
          (λ e. with_data-Ended f.integer pos p _ k a (λ len p1 r.
            make_tag-Ended h f no_tag r tag_integer (number (strtoul (string_at p1.text pos) 0).0)
              len refl (λ s. unfold field_uses in refl)))
    parse_element-Ended data_element pos p k a fuel =
        unfold parse_tag_data in
        with_data-Ended f.data_name pos p _ k a (λ len p1 r.
          make_tag-Ended h f no_tag r tag_data zero_field len refl (λ s. unfold field_uses in refl))
    parse_element-Ended date_element pos p k a fuel =
        unfold parse_tag_date in
        with_data-Ended f.date pos p _ k a (λ len p1 r.
          make_tag-Ended h f no_tag r tag_date zero_field len refl (λ s. unfold field_uses in refl))
    parse_element-Ended (list_element type true) pos p k a fuel =
        unfold parse_tag_list in here-Ended type pos p k a
    parse_element-Ended (list_element type false) pos p k a fuel =
        unfold parse_tag_list in
        let e : pos + 0 ≡ pos = omega arith in
        parse_elements-Ended n type pos 0 no_tag p p (rw e (Reached-refl pos p k a)) fuel
          (omega (arith, fuel))
    parse_element-Ended (boolean_element type) pos p k a fuel =
        unfold parse_tag_boolean in here-Ended type pos p k a
