-- ===== src/Image3/Reserve.antt =====
-- `image3_new` and `image3_reserve_tag`, on the content of the image.
use xnu_uboot_arm.Base.{
  ℕ, ◌+◌, ◌<◌, ◌≤◌, ◌≡◌, ◌⊎◌, inl, inr, refl, sym, ◌∙◌, true, Option, some, List, [], ◌∷◌, ◌++◌,
  add32, word, Ram, read32, write32, SameOutside, read32-SameOutside, write32-SameOutside,
  write32-read32, arith,
}
use xnu_uboot_arm.Runtime.{Runtime, IsRuntime}
use xnu_uboot_arm.Image3.{
  Img3Format, Context, reserved, image3_get_size, image3_reserve_tag, image3_new,
}
use xnu_uboot_arm.Image3.Content.{
  Apart, IsImg3Format, Entry, total_size, total_size-append, InTag-within, HasTag, HasTag-shifted,
  HasTags, HasTags-append, HasTags-moved, IsImage, IsImage-moved,
}

write32-other :
    (m : Ram) (p v a : ℕ) → (a + 4 ≤ p) ⊎ (p + 4 ≤ a) → read32 (write32 m p v) a ≡ read32 m a
write32-other m p v a h = read32-SameOutside p 4 m (write32 m p v) a (write32-SameOutside m p v) h

Apart-sym : {a b : ℕ} → Apart a b → Apart b a
Apart-sym h = ground (arith, h)

module _ (f : Img3Format) (laws : IsImg3Format f) where
  keeps_field :
      (m : Ram) (p a b v : ℕ) → Apart a b → read32 (write32 m (p + b) v) (p + a) ≡ read32 m (p + a)
  keeps_field m p a b v (inl h) = write32-other m (p + b) v (p + a) (inl (omega arith))
  keeps_field m p a b v (inr h) = write32-other m (p + b) v (p + a) (inr (omega arith))

  -- A new image has no tags.
  pub image3_new-IsImage :
      (head : ℕ) (m : Ram) (type : ℕ)
      → head + f.header_size < word
      → (m' : Ram) × (image3_new f (some (head, m)) true type
          ≡ some (record { head = head; dynamic = true }, m'))
        × IsImage f [] (record { head = head; dynamic = true }) m'
  unfolding image3_new total_size HasTags
  image3_new-IsImage head m type room =
      let m1 = write32 m (head + f.head_full_size) f.header_size in
      let m2 = write32 m1 (head + f.head_magic) f.img3_magic in
      let m3 = write32 m2 (head + f.head_ident) type in
      let m4 = write32 m3 (head + f.head_sig_area) 0 in
      (
        write32 m4 (head + f.head_unpacked_size) 0,
        refl,
        record {
          is_dynamic = refl;
          magic =
              keeps_field m4 head f.head_magic f.head_unpacked_size 0 laws.magic_unpacked_size
              ∙ keeps_field m3 head f.head_magic f.head_sig_area 0 laws.magic_sig_area
              ∙ keeps_field m2 head f.head_magic f.head_ident type laws.magic_ident
              ∙ write32-read32 m1 (head + f.head_magic) f.img3_magic laws.magic_word;
          full_size =
              keeps_field m4 head f.head_full_size f.head_unpacked_size 0
                laws.full_size_unpacked_size
              ∙ keeps_field m3 head f.head_full_size f.head_sig_area 0 laws.full_size_sig_area
              ∙ keeps_field m2 head f.head_full_size f.head_ident type laws.full_size_ident
              ∙ keeps_field m1 head f.head_full_size f.head_magic f.img3_magic
                  (Apart-sym laws.magic_full_size)
              ∙ write32-read32 m (head + f.head_full_size) f.header_size laws.header_word
              ∙ omega arith;
          unpacked_size = write32-read32 m4 (head + f.head_unpacked_size) 0 (omega arith);
          fits = omega (arith, room);
          tags = tt;
        },
      )

  -- The new tag, and the new sizes in the header.
  abbrev with_tag : Ram → (tag type data_length len : ℕ) → Ram
  with_tag m tag type data_length len =
      write32
        (write32 (write32 m (tag + f.tag_data_length) data_length) (tag + f.tag_total_length) len)
        (tag + f.tag_type) type

  abbrev with_sizes : Ram → (head size unpacked : ℕ) → Ram
  with_sizes m head size unpacked =
      write32 (write32 m (head + f.head_full_size) size) (head + f.head_unpacked_size) unpacked

  with_tag-HasTag :
      (m : Ram) (tag type n : ℕ)
      → type < word
      → n + f.tag_size < word
      → HasTag f (with_tag m tag type n (n + f.tag_size)) tag (type, n)
  unfolding HasTag
  with_tag-HasTag m tag type n small room =
      let m1 = write32 m (tag + f.tag_data_length) n in
      let m2 = write32 m1 (tag + f.tag_total_length) (n + f.tag_size) in
      (
        write32-read32 m2 (tag + f.tag_type) type small,
        keeps_field m2 tag f.tag_total_length f.tag_type type (Apart-sym laws.type_total_length)
            ∙ write32-read32 m1 (tag + f.tag_total_length) (n + f.tag_size) room,
        keeps_field m2 tag f.tag_data_length f.tag_type type (Apart-sym laws.type_data_length)
            ∙ keeps_field m1 tag f.tag_data_length f.tag_total_length (n + f.tag_size)
                (Apart-sym laws.total_length_data_length)
            ∙ write32-read32 m (tag + f.tag_data_length) n (omega arith),
      )

  with_tag-SameOutside :
      (m : Ram) (tag type n len : ℕ) → SameOutside tag f.tag_size m (with_tag m tag type n len)
  with_tag-SameOutside m tag type n len a h =
      let m1 = write32 m (tag + f.tag_data_length) n in
      let m2 = write32 m1 (tag + f.tag_total_length) len in
      write32-SameOutside m2 (tag + f.tag_type) type a (ground (arith, laws.type_inside, h))
      ∙ write32-SameOutside m1 (tag + f.tag_total_length) len a
          (ground (arith, laws.total_length_inside, h))
      ∙ write32-SameOutside m (tag + f.tag_data_length) n a
          (ground (arith, laws.data_length_inside, h))

  with_sizes-SameOutside :
      (m : Ram) (head size unpacked : ℕ)
      → SameOutside head f.header_size m (with_sizes m head size unpacked)
  with_sizes-SameOutside m head size unpacked a h =
      write32-SameOutside (write32 m (head + f.head_full_size) size) (head + f.head_unpacked_size)
        unpacked a (ground (arith, laws.unpacked_size_inside, h))
      ∙ write32-SameOutside m (head + f.head_full_size) size a
          (ground (arith, laws.full_size_inside, h))

  module _ (rt : Runtime) (rules : IsRuntime rt)
      (realloc : (block size : ℕ) → Ram → Option (ℕ × Ram)) where
    -- The call, with what each of its steps gives.
    image3_reserve_tag-steps :
        (m m1 : Ram) (ctx : Context) (head type n len size tag unpacked : ℕ)
        → ctx.dynamic ≡ true
        → add32 n f.tag_size ≡ len
        → add32 (image3_get_size f m ctx) len ≡ size
        → realloc ctx.head size m ≡ some (head, m1)
        → rt.add_ptr2 head (read32 m1 (head + f.head_full_size)) ≡ tag
        → add32
            (read32
              (write32 (with_tag m1 tag type n len) (head + f.head_full_size) size)
              (head + f.head_unpacked_size))
            len
          ≡ unpacked
        → image3_reserve_tag f rt realloc m ctx type n
          ≡ reserved
              (tag + f.tag_size)
              (record ctx { head = head })
              (with_sizes (with_tag m1 tag type n len) head size unpacked)
    unfolding image3_reserve_tag
    image3_reserve_tag-steps m m1 ctx head type n len size tag unpacked dynamic e1 e2 moved e3 e4 =
        let asked : realloc ctx.head (add32 (image3_get_size f m ctx) (add32 n f.tag_size)) m
            ≡ some (head, m1) =
          rw (e1, e2) moved in
        rw (sym e4, sym e3, sym e2, sym e1)
          (rw (asked, image3_reserve_tag) (rw (dynamic, image3_reserve_tag) refl))

    -- A reserved tag stands behind the others, wherever the image has moved.
    pub image3_reserve_tag-IsImage :
        (m m1 : Ram) (ctx : Context) (es : List Entry) (head type n : ℕ)
        → IsImage f es ctx m
        → realloc ctx.head (f.header_size + total_size f es + (n + f.tag_size)) m ≡ some (head, m1)
        → type < word
        → head + (f.header_size + total_size f es + (n + f.tag_size)) < word
        → ((i : ℕ) → i < f.header_size + total_size f es → m1 (head + i) ≡ m (ctx.head + i))
        → (m' : Ram) × (image3_reserve_tag f rt realloc m ctx type n
            ≡ reserved
                (head + (f.header_size + total_size f es) + f.tag_size)
                (record ctx { head = head })
                m')
          × IsImage f (es ++ (type, n) ∷ []) (record ctx { head = head }) m'
    unfolding image3_reserve_tag image3_get_size total_size
    image3_reserve_tag-IsImage m m1 ctx es head type n image moved small room same =
        let old = f.header_size + total_size f es in
        let len = n + f.tag_size in
        let tag = head + old in
        let here : IsImage f es (record ctx { head = head }) m1 =
          IsImage-moved f laws m m1 ctx head es (omega (arith, room))
            (λ i k. elim k [
              | inl h ↦ same i (omega (arith, h))
              | inr t ↦ same i (InTag-within f f.header_size es i t).1
            ])
            image in
        let m4 = with_tag m1 tag type n len in
        let m6 = with_sizes m4 head (old + len) (total_size f es + len) in
        let kept : (i : ℕ) → i < old → m4 (head + i) ≡ m1 (head + i) =
          λ i h. with_tag-SameOutside m1 tag type n len (head + i) (inl (omega arith)) in
        let m5 = write32 m4 (head + f.head_full_size) (old + len) in
        let field : (i : ℕ) → i + 4 ≤ f.header_size → read32 m4 (head + i) ≡ read32 m1 (head + i) =
          λ i h.
            read32-SameOutside tag f.tag_size m1 m4 (head + i)
              (with_tag-SameOutside m1 tag type n len) (inl (omega arith)) in
        let e1 : add32 n f.tag_size ≡ len = omega (arith, room) in
        let e2 : add32 (read32 m (ctx.head + f.head_full_size)) len ≡ old + len =
          omega (arith, room, image.full_size) in
        let e3 : rt.add_ptr2 head old ≡ tag = rules.add_ptr2_lem head old ∙ omega (arith, room) in
        let e4 : read32 m5 (head + f.head_unpacked_size) ≡ total_size f es =
          keeps_field m4 head f.head_unpacked_size f.head_full_size (old + len)
            (Apart-sym laws.full_size_unpacked_size)
          ∙ field f.head_unpacked_size laws.unpacked_size_inside
          ∙ here.unpacked_size in
        let e5 : add32 (total_size f es) len ≡ total_size f es + len = omega (arith, room) in
        let ran : image3_reserve_tag f rt realloc m ctx type n
            ≡ reserved (tag + f.tag_size) (record ctx { head = head }) m6 =
          image3_reserve_tag-steps m m1 ctx head type n len (old + len) tag (total_size f es + len)
            image.is_dynamic e1 e2 moved (rw here.full_size e3) (rw e4 e5) in
        (
          m6,
          ran,
          record {
            is_dynamic = image.is_dynamic;
            magic =
                keeps_field m5 head f.head_magic f.head_unpacked_size (total_size f es + len)
                  laws.magic_unpacked_size
                ∙ keeps_field m4 head f.head_magic f.head_full_size (old + len) laws.magic_full_size
                ∙ field f.head_magic laws.magic_inside
                ∙ here.magic;
            full_size =
                keeps_field m5 head f.head_full_size f.head_unpacked_size (total_size f es + len)
                  laws.full_size_unpacked_size
                ∙ write32-read32 m4 (head + f.head_full_size) (old + len) (omega (arith, room))
                ∙ omega (arith, total_size-append f es ((type, n) ∷ []));
            unpacked_size =
                write32-read32 m5 (head + f.head_unpacked_size) (total_size f es + len)
                  (omega (arith, room))
                ∙ omega (arith, total_size-append f es ((type, n) ∷ []));
            fits = omega (arith, room, total_size-append f es ((type, n) ∷ []));
            tags =
                HasTags-append f m6 head f.header_size es (type, n)
                  (HasTags-moved f laws m1 m6 head head f.header_size es
                    (λ i k.
                      let within = InTag-within f f.header_size es i k in
                      with_sizes-SameOutside m4 head (old + len) (total_size f es + len) (head + i)
                        (inr (omega (arith, within.0)))
                      ∙ kept i within.1)
                    here.tags)
                  (HasTag-shifted f laws m4 m6 tag tag (type, n)
                    (λ j l.
                      with_sizes-SameOutside m4 head (old + len) (total_size f es + len) (tag + j)
                        (inr (omega arith)))
                    (with_tag-HasTag m1 tag type n small (omega (arith, room))));
          },
        )
