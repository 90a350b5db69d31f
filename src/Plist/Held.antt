-- ===== src/Plist/Held.antt =====
-- What a call of the parser leaves: the references and tags that its result holds, and what it
-- wrote.
use xnu_uboot_arm.Base.{ℕ, ◌+◌, ◌*◌, ◌≤◌, ◌≡◌, List, length, arith}
use xnu_uboot_arm.DeviceTree.{Heap}
use xnu_uboot_arm.Plist.{TagType, Field, Tag, no_tag, tag, Plist, xml_free_tag, tags_per_block}
use xnu_uboot_arm.Plist.Parse.{link, Parsed, parsed, failed, panicked, exhausted}
use xnu_uboot_arm.Plist.Count.{uses, count, refs, IsTable}
use xnu_uboot_arm.Plist.Frees.{xml_free_tag-Freed}
use xnu_uboot_arm.Plist.Scan.{Within, Within-refl, Within-trans, Within-wider}

unfoldable pub IsSingle : Tag → Type 0
IsSingle no_tag = Unit {0}
IsSingle (tag type string child next) = next ≡ no_tag

module _ {W : Type 0} where
  -- From `p` to `p'`, between the positions `pos` and `end`: every symbol has as many references
  -- more as the tag uses it, the tag's tags are the free ones that are missing, a new block's
  -- counted in, and only the text between the positions is written.
  pub record Reached (pos end : ℕ) (p p' : Plist W) (t : Tag) : Type 0 where
    pub counts : (s : List ℕ) → refs s p'.symbols ≡ refs s p.symbols + uses s t
    pub table : IsTable p'.symbols
    pub tags :
        p'.tags_free + count t + tags_per_block * p.tag_blocks
        ≡ p.tags_free + tags_per_block * p'.tag_blocks
    pub writes : Within pos end p.text p'.text
    pub forward : pos ≤ end
    pub bound : end ≤ length p.text

  pub Reached-refl :
      (pos : ℕ) (p : Plist W) → IsTable p.symbols → pos ≤ length p.text → Reached pos pos p p no_tag
  unfolding uses count
  Reached-refl pos p k a = record {
    counts = λ s. omega arith;
    table = k;
    tags = omega arith;
    writes = Within-refl pos pos p.text;
    forward = omega arith;
    bound = a;
  }

  pub Reached-text :
      (pos end : ℕ) (p : Plist W) (text1 : List ℕ)
      → IsTable p.symbols
      → pos ≤ end
      → end ≤ length p.text
      → Within pos end p.text text1
      → Reached pos end p (record p { text = text1 }) no_tag
  unfolding uses count
  Reached-text pos end p text1 k a b w = record {
    counts = λ s. omega arith;
    table = k;
    tags = omega arith;
    writes = w;
    forward = a;
    bound = b;
  }

  -- One call after another; the tag `r` holds what the two hold.
  pub Reached-join :
      {p p1 p2 : Plist W} {a b c : ℕ} (t u r : Tag)
      → ((s : List ℕ) → uses s r ≡ uses s t + uses s u)
      → count r ≡ count t + count u
      → Reached a b p p1 t
      → Reached b c p1 p2 u
      → Reached a c p p2 r
  Reached-join {a} {b} {c} t u r e n x y = record {
    counts = λ s. omega (arith, e s, x.counts s, y.counts s);
    table = y.table;
    tags = omega (arith, n, x.tags, y.tags);
    writes = Within-trans a b c x.forward y.forward x.writes y.writes;
    forward = omega (arith, x.forward, y.forward);
    bound = omega (arith, y.bound, x.writes.size);
  }

  pub Reached-then :
      {p p1 p2 : Plist W} {a b c : ℕ} (t : Tag)
      → Reached a b p p1 t
      → Reached b c p1 p2 no_tag
      → Reached a c p p2 t
  Reached-then t x y =
      Reached-join t no_tag t (λ s. unfold uses in omega arith) (unfold count in omega arith) x y

  pub Reached-after :
      {p p1 p2 : Plist W} {a b c : ℕ} (t : Tag)
      → Reached a b p p1 no_tag
      → Reached b c p1 p2 t
      → Reached a c p p2 t
  Reached-after t x y =
      Reached-join no_tag t t (λ s. unfold uses in omega arith) (unfold count in omega arith) x y

  pub Reached-link :
      {p p1 p2 : Plist W} {a b c : ℕ} (list : Tag) (type : TagType) (string : Field)
      (child next : Tag)
      → next ≡ no_tag
      → Reached a b p p1 list
      → Reached b c p1 p2 (tag type string child next)
      → Reached a c p p2 (link (tag type string child next) list)
  unfolding link
  Reached-link list type string child next e x y =
      Reached-join list (tag type string child next) (tag type string child list)
        (λ s. unfold uses in rw e (unfold uses in omega arith))
        (unfold count in rw e (unfold count in omega arith)) x y

  pub Reached-wider :
      {p p1 : Plist W} {a b : ℕ} (t : Tag) → Reached a b p p1 t → Reached a (length p.text) p p1 t
  Reached-wider {p} {a} {b} t x = record {
    counts = x.counts;
    table = x.table;
    tags = x.tags;
    writes = Within-wider a b (length p.text) x.bound x.writes;
    forward = omega (arith, x.forward, x.bound);
    bound = omega arith;
  }

  -- How a call ends: a tag has no sibling, and after -1 nothing is held.
  unfoldable pub Ended : ℕ → Plist W → Parsed W → Type 0
  Ended pos p (parsed len t p') = Reached pos (pos + len) p p' t × IsSingle t
  Ended pos p (failed p') = Reached pos (length p.text) p p' no_tag
  Ended pos p panicked = Unit {0}
  Ended pos p exhausted = ⊥

  module _ (h : Heap W) where
    pub Reached-free :
        {p p1 : Plist W} {a b : ℕ} (t : Tag)
        → Reached a b p p1 t
        → Reached a b p (xml_free_tag h t p1) no_tag
    Reached-free {p} {p1} t x =
        let freed = xml_free_tag-Freed h t p1 x.table (λ s. omega (arith, x.counts s)) in
        record {
          counts = λ s. unfold uses in omega (arith, x.counts s, freed.counts s);
          table = freed.table;
          tags = unfold count in omega (arith, x.tags, freed.tags_free, freed.tag_blocks);
          writes = rw freed.text x.writes;
          forward = x.forward;
          bound = x.bound;
        }
