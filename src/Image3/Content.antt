-- ===== src/Image3/Content.antt =====
-- What an IMG3 image contains: the types of its tags and the lengths of their data, in order.
use xnu_uboot_arm.Base.{
  ℕ, ◌+◌, ◌<◌, ◌≤◌, ◌≡◌, ◌⊎◌, inl, inr, refl, ap, ◌∙◌, true, Bool-cases, Option, none, some, List,
  [], ◌∷◌, ◌++◌, ◌==◌, if◌then◌else◌, word, Ram, read8, read16, read32, arith,
}
use xnu_uboot_arm.Runtime.{Runtime, IsRuntime}
use xnu_uboot_arm.Image3.{
  Img3Format, Context, found, image3_get_size, image3_find_tag, image3_get_tag_data,
}
use xnu_uboot_arm.Image3.Walk.{Fills, first_tag, image3_find_tag-first}

-- Two 32-bit fields of a structure do not overlap.
abbrev pub Apart : ℕ → ℕ → Type 0
Apart a b = (a + 4 ≤ b) ⊎ (b + 4 ≤ a)

-- The fields lie in their structures, one beside the other.
pub record IsImg3Format (f : Img3Format) : Type 0 where
  pub magic_inside : f.head_magic + 4 ≤ f.header_size
  pub full_size_inside : f.head_full_size + 4 ≤ f.header_size
  pub unpacked_size_inside : f.head_unpacked_size + 4 ≤ f.header_size
  pub sig_area_inside : f.head_sig_area + 4 ≤ f.header_size
  pub ident_inside : f.head_ident + 4 ≤ f.header_size
  pub magic_full_size : Apart f.head_magic f.head_full_size
  pub magic_unpacked_size : Apart f.head_magic f.head_unpacked_size
  pub magic_sig_area : Apart f.head_magic f.head_sig_area
  pub magic_ident : Apart f.head_magic f.head_ident
  pub full_size_unpacked_size : Apart f.head_full_size f.head_unpacked_size
  pub full_size_sig_area : Apart f.head_full_size f.head_sig_area
  pub full_size_ident : Apart f.head_full_size f.head_ident
  pub ident_sig_area : Apart f.head_ident f.head_sig_area
  pub ident_unpacked_size : Apart f.head_ident f.head_unpacked_size
  pub sig_area_unpacked_size : Apart f.head_sig_area f.head_unpacked_size
  pub type_inside : f.tag_type + 4 ≤ f.tag_size
  pub total_length_inside : f.tag_total_length + 4 ≤ f.tag_size
  pub data_length_inside : f.tag_data_length + 4 ≤ f.tag_size
  pub type_total_length : Apart f.tag_type f.tag_total_length
  pub type_data_length : Apart f.tag_type f.tag_data_length
  pub total_length_data_length : Apart f.tag_total_length f.tag_data_length
  pub magic_word : f.img3_magic < word
  pub header_word : f.header_size < word

-- The type of a tag, and the length of its data.
abbrev pub Entry : Type 0
Entry = ℕ × ℕ

module _ (f : Img3Format) where
  abbrev pub entry_size : Entry → ℕ
  entry_size e = e.1 + f.tag_size

  unfoldable pub total_size : List Entry → ℕ
  total_size [] = 0
  total_size (e ∷ es) = entry_size e + total_size es

  -- The address of the data of the first tag of the type, and its length.
  unfoldable pub data_of : (tag type : ℕ) → List Entry → Option (ℕ × ℕ)
  data_of tag type [] = none
  data_of tag type (e ∷ es) =
      if e.0 == type then some (tag + f.tag_size, e.1) else data_of (tag + entry_size e) type es

  unfoldable pub tags_at : (tag : ℕ) → List Entry → List ℕ
  tags_at tag [] = []
  tags_at tag (e ∷ es) = tag ∷ tags_at (tag + entry_size e) es

  -- The offset `i` is one of a tag, outside its data.
  unfoldable pub InTag : (offset : ℕ) → List Entry → (i : ℕ) → Type 0
  InTag offset [] i = ⊥
  InTag offset (e ∷ es) i =
      ((offset ≤ i) × (i < offset + f.tag_size)) ⊎ InTag (offset + entry_size e) es i

  pub InTag-within :
      (offset : ℕ) (es : List Entry) (i : ℕ)
      → InTag offset es i
      → (offset ≤ i) × (i < offset + total_size es)
  unfolding InTag total_size
  InTag-within offset [] i x = elim x [ ]
  InTag-within offset (e ∷ es) i (inl here) = (here.0, omega (arith, here.1))
  InTag-within offset (e ∷ es) i (inr there) =
      let k = InTag-within (offset + entry_size e) es i there in
      (omega (arith, k.0), omega (arith, k.1))

  unfoldable pub HasTag : Ram → (tag : ℕ) → Entry → Type 0
  HasTag m tag e =
      (read32 m (tag + f.tag_type) ≡ e.0)
      × (read32 m (tag + f.tag_total_length) ≡ entry_size e)
      × (read32 m (tag + f.tag_data_length) ≡ e.1)

  -- The tags stand one behind the other, from `offset` in the image on.
  unfoldable pub HasTags : Ram → (head offset : ℕ) → List Entry → Type 0
  HasTags m head offset [] = Unit {0}
  HasTags m head offset (e ∷ es) =
      HasTag m (head + offset) e × HasTags m head (offset + entry_size e) es

  pub total_size-append :
      (es ds : List Entry) → total_size (es ++ ds) ≡ total_size es + total_size ds
  unfolding total_size
  total_size-append [] ds = omega arith
  total_size-append (e ∷ es) ds = omega (arith, total_size-append es ds)

  pub HasTags-append :
      (m : Ram) (head offset : ℕ) (es : List Entry) (e : Entry)
      → HasTags m head offset es
      → HasTag m (head + (offset + total_size es)) e
      → HasTags m head offset (es ++ e ∷ [])
  unfolding HasTags total_size
  HasTags-append m head offset [] e h last =
      let same : offset + 0 ≡ offset = omega arith in (rw same at last, tt)
  HasTags-append m head offset (d ∷ es) e h last =
      let same : offset + (entry_size d + total_size es) ≡ offset + entry_size d + total_size es =
        omega arith in
      (h.0, HasTags-append m head (offset + entry_size d) es e h.1 (rw same at last))

  -- Memories that agree on the tags, though the image may have moved.
  read32-moved :
      (m m' : Ram) (a b : ℕ)
      → m' b ≡ m a
      → m' (b + 1) ≡ m (a + 1)
      → m' (b + 2) ≡ m (a + 2)
      → m' (b + 3) ≡ m (a + 3)
      → read32 m' b ≡ read32 m a
  unfolding read32 read16 read8
  read32-moved m m' a b e0 e1 e2 e3 =
      let up : b + 2 + 1 ≡ b + 3 = omega arith in
      let down : a + 2 + 1 ≡ a + 3 = omega arith in rw (up, down, e0, e1, e2, e3) refl

  read32-shifted :
      (m m' : Ram) (a b n i : ℕ)
      → ((j : ℕ) → j < n → m' (b + j) ≡ m (a + j))
      → i + 4 ≤ n
      → read32 m' (b + i) ≡ read32 m (a + i)
  read32-shifted m m' a b n i same h =
      read32-moved m m' (a + i) (b + i) (same i (omega arith)) (next 1 (omega arith))
        (next 2 (omega arith)) (next 3 (omega arith))
    where
      next : (k : ℕ) → k < 4 → m' (b + i + k) ≡ m (a + i + k)
      next k l =
          let left : b + i + k ≡ b + (i + k) = omega arith in
          let right : a + i + k ≡ a + (i + k) = omega arith in
          rw (left, right) (same (i + k) (omega arith))

  pub HasTag-shifted :
      (laws : IsImg3Format f) (m m' : Ram) (a b : ℕ) (e : Entry)
      → ((j : ℕ) → j < f.tag_size → m' (b + j) ≡ m (a + j))
      → HasTag m a e
      → HasTag m' b e
  unfolding HasTag
  HasTag-shifted laws m m' a b e same h = (
    read32-shifted m m' a b f.tag_size f.tag_type same laws.type_inside ∙ h.0,
    read32-shifted m m' a b f.tag_size f.tag_total_length same laws.total_length_inside ∙ h.1,
    read32-shifted m m' a b f.tag_size f.tag_data_length same laws.data_length_inside ∙ h.2,
  )

  pub HasTags-moved :
      (laws : IsImg3Format f) (m m' : Ram) (head head' offset : ℕ) (es : List Entry)
      → ((i : ℕ) → InTag offset es i → m' (head' + i) ≡ m (head + i))
      → HasTags m head offset es
      → HasTags m' head' offset es
  unfolding HasTags InTag
  HasTags-moved laws m m' head head' offset [] same h = tt
  HasTags-moved laws m m' head head' offset (e ∷ es) same h = (
    HasTag-shifted laws m m' (head + offset) (head' + offset) e (λ j l. here j l) h.0,
    HasTags-moved laws m m' head head' (offset + entry_size e) es (λ i k. same i (inr k)) h.1,
  )
    where
      here : (j : ℕ) → j < f.tag_size → m' (head' + offset + j) ≡ m (head + offset + j)
      here j l =
          let left : head' + offset + j ≡ head' + (offset + j) = omega arith in
          let right : head + offset + j ≡ head + (offset + j) = omega arith in
          rw (left, right) (same (offset + j) (inl (omega arith, omega arith)))

  -- The tags as the search sees them.
  HasTags-Fills :
      (laws : IsImg3Format f) (m : Ram) (head offset : ℕ) (es : List Entry)
      → HasTags m head offset es
      → Fills f m (head + offset) (tags_at (head + offset) es) (head + (offset + total_size es))
  unfolding HasTags HasTag tags_at total_size
  HasTags-Fills laws m head offset [] h = omega arith
  HasTags-Fills laws m head offset (e ∷ es) h =
      let next : head + offset + entry_size e ≡ head + (offset + entry_size e) = omega arith in
      let end : head + (offset + (entry_size e + total_size es))
          ≡ head + (offset + entry_size e + total_size es) =
        omega arith in
      (
        refl,
        omega (arith, h.0.1, laws.type_inside),
        rw (h.0.1, next, end) (HasTags-Fills laws m head (offset + entry_size e) es h.1),
      )

  first_tag-data_of :
      (m : Ram) (head offset type : ℕ) (es : List Entry) (a n : ℕ)
      → HasTags m head offset es
      → data_of (head + offset) type es ≡ some (a, n)
      → (t : ℕ) × (first_tag f m type (tags_at (head + offset) es) ≡ some t)
        × (t + f.tag_size ≡ a)
        × (read32 m (t + f.tag_data_length) ≡ n)
  unfolding HasTags HasTag tags_at first_tag data_of
  first_tag-data_of m head offset type [] a n h hit = absurd (ground (arith, hit))
  first_tag-data_of m head offset type (e ∷ es) a n h hit =
      let tag = head + offset in
      let next : tag + entry_size e ≡ head + (offset + entry_size e) = omega arith in
      elim (Bool-cases (e.0 == type)) [
        | inl same ↦
            let is : some (tag + f.tag_size, e.1) ≡ some (a, n) = rw same at hit in
            (
              tag,
              rw (h.0.0, same) refl,
              ap (λ o. (elim o [ some x ↦ x.0 | none ↦ 0 ])) is,
              h.0.2 ∙ ap (λ o. (elim o [ some x ↦ x.1 | none ↦ 0 ])) is,
            )
        | inr other ↦
            let later : data_of (head + (offset + entry_size e)) type es ≡ some (a, n) =
              rw (other, next) at hit in
            let (t, first, at, length) =
              first_tag-data_of m head (offset + entry_size e) type es a n h.1 later in
            (t, rw (h.0.0, other, next) first, at, length)
      ]

  -- The header and the tags of an image, as its context has it.
  pub record IsImage (es : List Entry) (ctx : Context) (m : Ram) : Type 0 where
    pub is_dynamic : ctx.dynamic ≡ true
    pub magic : read32 m (ctx.head + f.head_magic) ≡ f.img3_magic
    pub full_size : read32 m (ctx.head + f.head_full_size) ≡ f.header_size + total_size es
    pub unpacked_size : read32 m (ctx.head + f.head_unpacked_size) ≡ total_size es
    pub fits : ctx.head + (f.header_size + total_size es) < word
    pub tags : HasTags m ctx.head f.header_size es

  pub IsImage-moved :
      (laws : IsImg3Format f) (m m' : Ram) (ctx : Context) (head' : ℕ) (es : List Entry)
      → head' + (f.header_size + total_size es) < word
      → ((i : ℕ)
          → (i < f.header_size) ⊎ InTag f.header_size es i
          → m' (head' + i) ≡ m (ctx.head + i))
      → IsImage es ctx m
      → IsImage es (record ctx { head = head' }) m'
  IsImage-moved laws m m' ctx head' es room same image = record {
    is_dynamic = image.is_dynamic;
    magic = field f.head_magic laws.magic_inside ∙ image.magic;
    full_size = field f.head_full_size laws.full_size_inside ∙ image.full_size;
    unpacked_size = field f.head_unpacked_size laws.unpacked_size_inside ∙ image.unpacked_size;
    fits = room;
    tags =
        HasTags-moved laws m m' ctx.head head' f.header_size es (λ i k. same i (inr k)) image.tags;
  }
    where
      field : (i : ℕ) → i + 4 ≤ f.header_size → read32 m' (head' + i) ≡ read32 m (ctx.head + i)
      field i h = read32-shifted m m' ctx.head head' f.header_size i (λ j l. same j (inl l)) h

  -- The data of the first tag of a type is found.
  pub image3_get_tag_data-data_of :
      (rt : Runtime) (rules : IsRuntime rt) (laws : IsImg3Format f) (m : Ram) (ctx : Context)
      (es : List Entry) (type a n : ℕ)
      → IsImage es ctx m
      → data_of (ctx.head + f.header_size) type es ≡ some (a, n)
      → image3_get_tag_data f rt m ctx type ≡ some (a, n)
  unfolding image3_get_tag_data image3_get_size
  image3_get_tag_data-data_of rt rules laws m ctx es type a n image hit =
      let (t, first, place, length) =
        first_tag-data_of m ctx.head f.header_size type es a n image.tags hit in
      let fills = HasTags-Fills laws m ctx.head f.header_size es image.tags in
      let walk =
        image3_find_tag-first f m rt rules ctx type (tags_at (ctx.head + f.header_size) es)
          (rw image.full_size fills) (omega (arith, image.full_size, image.fits)) in
      let is : image3_find_tag f rt m ctx type ≡ found t = walk ∙ rw first refl in
      rw (is, place, length, image3_get_tag_data) refl
