-- ===== src/Plist/Ends.antt =====
-- `XMLParseNextTag` and `XMLParseFile` end, stay in the text, and hold what their result holds.
use xnu_uboot_arm.Base.{
  ℕ, zero, suc, ◌+◌, ◌*◌, ◌≤◌, ◌<◌, ◌≡◌, sym, refl, Option, none, some, List, length, arith,
}
use xnu_uboot_arm.DeviceTree.{Heap}
use xnu_uboot_arm.Plist.{
  TagType, tag_dict, tag_key, tag_string, tag_integer, tag_data, tag_date, tag_false, tag_true,
  tag_array, Tag, no_tag, tag, Plist, xml_free_tag, Format, tags_per_block,
}
use xnu_uboot_arm.Plist.Text.{string_at, NextTag, get_next_tag}
use xnu_uboot_arm.Plist.Parse.{
  parse_file, xml_parse_file, Parsed, parsed, failed, panicked, exhausted, parse_element, further,
  xml_parse_next_tag, Element, classify,
}
use xnu_uboot_arm.Plist.Count.{uses, count, refs, IsTable}
use xnu_uboot_arm.Plist.Scan.{Found, get_next_tag-Found}
use xnu_uboot_arm.Plist.Elements.{Advanced, Advances, parse_element-Ended}
use xnu_uboot_arm.Plist.Held.{
  IsSingle, Reached, Reached-refl, Reached-text, Reached-after, Reached-wider, Reached-free, Ended,
}

unfoldable pub IsDict : Tag → Type 0
IsDict no_tag = ⊥
IsDict (tag type string child next) = type ≡ tag_dict

pub by_dict {ℓ} :
    {A : Type 0} (P : A → Type ℓ) (type : TagType) {x y : A}
    → (type ≡ tag_dict → P x)
    → P y
    → P (elim type [ tag_dict ↦ x | _ ↦ y ])
by_dict P tag_dict f q = f refl
by_dict P tag_key f q = q
by_dict P tag_string f q = q
by_dict P tag_integer f q = q
by_dict P tag_data f q = q
by_dict P tag_date f q = q
by_dict P tag_false f q = q
by_dict P tag_true f q = q
by_dict P tag_array f q = q

module _ {W : Type 0} where
  -- As many references to every text, and as many free tags, new blocks counted in.
  pub record GivenBack (p p' : Plist W) : Type 0 where
    pub counts : (s : List ℕ) → refs s p'.symbols ≡ refs s p.symbols
    pub table : IsTable p'.symbols
    pub tags :
        p'.tags_free + tags_per_block * p.tag_blocks ≡ p.tags_free + tags_per_block * p'.tag_blocks

  pub Reached-GivenBack : {p p1 : Plist W} {a b : ℕ} → Reached a b p p1 no_tag → GivenBack p p1
  unfolding uses count
  Reached-GivenBack r = record {
    counts = λ s. omega (arith, r.counts s);
    table = r.table;
    tags = omega (arith, r.tags);
  }

  Advanced-further :
      (pos len : ℕ) (p p1 : Plist W)
      → 2 ≤ len
      → Reached pos (pos + len) p p1 no_tag
      → (r : Parsed W) → Ended (pos + len) p1 r
      → Advanced pos p (further len r)
  unfolding Ended Advanced further
  Advanced-further pos len p p1 m r (parsed more t p2) e =
      let same : pos + len + more ≡ pos + (len + more) = omega arith in
      (omega (arith, m), (rw (sym same) (Reached-after t r e.0), e.1))
  Advanced-further pos len p p1 m r (failed p2) e = Reached-wider no_tag (Reached-after no_tag r e)
  Advanced-further pos len p p1 m r panicked e = tt
  Advanced-further pos len p p1 m r exhausted e = absurd e

  module _ (h : Heap W) (f : Format) where
    -- The fuel is enough, a length that is returned is at least two and ends in the text, only the
    -- text between is written, and what the result holds is exactly what was counted and taken.
    pub xml_parse_next_tag-Advanced :
        (fuel pos : ℕ) (p : Plist W)
        → IsTable p.symbols
        → pos ≤ length p.text
        → length p.text < fuel + pos
        → Advanced pos p (xml_parse_next_tag h f fuel pos p)
    unfolding xml_parse_next_tag Advanced Advances Found Ended
    xml_parse_next_tag-Advanced zero pos p k a fuel = absurd (omega (arith, a, fuel))
    xml_parse_next_tag-Advanced (suc n) pos p k a fuel =
        at_tag (get_next_tag p.text pos) (get_next_tag-Found p.text pos)
          (parse_element-Ended h f n (xml_parse_next_tag h f n) (xml_parse_next_tag-Advanced n))
      where
        at_tag :
            (r : Option (NextTag × List ℕ))
            → Found p.text pos r
            → ((element : Element) (pos : ℕ) (p : Plist W)
                → IsTable p.symbols
                → pos ≤ length p.text
                → length p.text < n + pos
                → Ended pos p (parse_element h f (xml_parse_next_tag h f n) n element pos p))
            → Advanced pos p (elim r [
              | none ↦ failed p
              | some (found, text1) ↦ further found.length (
                  parse_element h f
                    (xml_parse_next_tag h f n)
                    n
                    (classify f (string_at text1 (pos + found.name)))
                    (pos + found.length)
                    (record p { text = text1 }))
            ])
        at_tag none found rest = Reached-wider no_tag (Reached-refl pos p k a)
        at_tag (some (found, text1)) next rest =
            Advanced-further pos found.length p (record p { text = text1 }) next.moves
              (Reached-text pos (pos + found.length) p text1 k (omega arith) next.bound next.writes)
              _
              (rest _ (pos + found.length) (record p { text = text1 }) k
                (omega (arith, next.bound, next.writes.size))
                (omega (arith, fuel, next.moves, next.writes.size)))

    -- How a file ends: with a dictionary, or with nothing held.
    unfoldable pub FileEnded : ℕ → Plist W → Parsed W → Type 0
    FileEnded pos p (parsed len t p') = Reached pos (length p.text) p p' t × IsSingle t × IsDict t
    FileEnded pos p (failed p') = Reached pos (length p.text) p p' no_tag
    FileEnded pos p panicked = Unit {0}
    FileEnded pos p exhausted = ⊥

    FileEnded-after :
        (pos m : ℕ) (p p1 : Plist W)
        → Reached pos m p p1 no_tag
        → (r : Parsed W) → FileEnded m p1 r
        → FileEnded pos p r
    unfolding FileEnded
    FileEnded-after pos m p p1 x (parsed len t p2) e =
        (Reached-wider t (Reached-after t x e.0), e.1, e.2)
    FileEnded-after pos m p p1 x (failed p2) e = Reached-wider no_tag (Reached-after no_tag x e)
    FileEnded-after pos m p p1 x panicked e = tt
    FileEnded-after pos m p p1 x exhausted e = absurd e

    parse_file-FileEnded :
        (fuel rounds pos : ℕ) (p : Plist W)
        → IsTable p.symbols
        → pos ≤ length p.text
        → length p.text < fuel + pos
        → length p.text < rounds + pos
        → FileEnded pos p (parse_file h f fuel rounds pos p)
    unfolding parse_file Advanced Ended
    parse_file-FileEnded fuel zero pos p k a b c = absurd (omega (arith, a, c))
    parse_file-FileEnded fuel (suc n) pos p k a b c =
        at_next (xml_parse_next_tag h f fuel pos p) (xml_parse_next_tag-Advanced fuel pos p k a b)
          (λ len p1 m r.
            FileEnded-after pos (pos + len) p p1 r (parse_file h f fuel n (pos + len) p1) (
              parse_file-FileEnded fuel n (pos + len) p1 r.table
                (omega (arith, r.bound, r.writes.size)) (omega (arith, b, r.writes.size))
                (omega (arith, c, m, r.writes.size))))
      where
        at_next :
            (x : Parsed W)
            → Advanced pos p x
            → ((len : ℕ) (p1 : Plist W)
                → 2 ≤ len
                → Reached pos (pos + len) p p1 no_tag
                → FileEnded pos p (parse_file h f fuel n (pos + len) p1))
            → FileEnded pos p (elim x [
              | panicked ↦ panicked
              | exhausted ↦ exhausted
              | failed p1 ↦ failed p1
              | parsed len no_tag p1 ↦ parse_file h f fuel n (pos + len) p1
              | parsed len (tag type s c x) p1 ↦
                  let rest =
                    parse_file h f fuel n (pos + len) (xml_free_tag h (tag type s c x) p1) in
                  elim type [ tag_dict ↦ parsed 0 (tag tag_dict s c x) p1 | _ ↦ rest ]
            ])
        at_next panicked e again = unfold FileEnded in tt
        at_next exhausted e again = absurd e
        at_next (failed p1) e again = unfold FileEnded in e
        at_next (parsed len no_tag p1) e again = again len p1 e.0 e.1.0
        at_next (parsed len (tag type s c x) p1) e again =
            by_dict (FileEnded pos p) type
              (λ d.
                let dict : Reached pos (pos + len) p p1 (tag tag_dict s c x) = rw (sym d) e.1.0 in
                unfold FileEnded IsSingle IsDict in
                (Reached-wider (tag tag_dict s c x) dict, (unfold IsSingle in e.1.1), refl))
              (again len (xml_free_tag h (tag type s c x) p1) e.0
                (Reached-free h (tag type s c x) e.1.0))

    xml_parse_file-FileEnded :
        (p : Plist W) → IsTable p.symbols → FileEnded 0 p (xml_parse_file h f p)
    unfolding xml_parse_file
    xml_parse_file-FileEnded p k =
        parse_file-FileEnded (length p.text + 1) (length p.text + 1) 0 p k (omega arith)
          (omega arith) (omega arith)

    -- What a file leaves once its dictionary is freed.
    unfoldable pub Returned : Plist W → Parsed W → Type 0
    Returned p (parsed len t p') = IsDict t × GivenBack p (xml_free_tag h t p')
    Returned p (failed p') = GivenBack p p'
    Returned p panicked = Unit {0}
    Returned p exhausted = ⊥

    -- Where `XMLParseFile` does not panic it ends: with a dictionary, or with -1. After -1, and after
    -- the dictionary is freed, every symbol has the references that it had before, the table is in
    -- order, and every tag that was taken, from old blocks and new ones, is free again.
    pub xml_parse_file-xml_free_tag :
        (p : Plist W) → IsTable p.symbols → Returned p (xml_parse_file h f p)
    unfolding FileEnded Returned
    xml_parse_file-xml_free_tag p k = at_end (xml_parse_file h f p) (xml_parse_file-FileEnded p k)
      where
        at_end : (r : Parsed W) → FileEnded 0 p r → Returned p r
        at_end (parsed len t p') e = (e.2, Reached-GivenBack (Reached-free h t e.0))
        at_end (failed p') e = Reached-GivenBack e
        at_end panicked e = tt
        at_end exhausted e = absurd e
