-- ===== src/Image3/Built.antt =====
-- What `image3_new` and `image3_reserve_tag` build, one tag after the other.
use mathlib.Core.Path.{subst}
use xnu_uboot_arm.Base.{
  ℕ, ◌+◌, ◌<◌, ◌≡◌, ◌⊎◌, ap, sym, ◌∙◌, true, Option, none, some, List, [], ◌∷◌, ◌++◌, word, Ram,
}
use xnu_uboot_arm.Runtime.{Runtime, IsRuntime}
use xnu_uboot_arm.Image3.{
  Img3Format, Context, Reserved, reserved, refused, aborted, image3_reserve_tag, image3_new,
  image3_get_tag_data,
}
use xnu_uboot_arm.Image3.Content.{
  IsImg3Format, Entry, total_size, data_of, InTag, IsImage, IsImage-moved,
  image3_get_tag_data-data_of,
}
use xnu_uboot_arm.Image3.Reserve.{image3_new-IsImage, image3_reserve_tag-IsImage}

module _ (f : Img3Format) (rt : Runtime) (realloc : (block size : ℕ) → Ram → Option (ℕ × Ram)) where
  -- A new image, the tags that are reserved one after the other, and any change to the data of the
  -- tags or outside the image. `realloc` keeps the bytes of the block, and the block ends below the
  -- last address.
  pub data Built : List Entry → Context → Ram → Type 0 where
    begun :
        (head type : ℕ) (ctx : Context) (m m' : Ram)
        → head + f.header_size < word
        → image3_new f (some (head, m)) true type ≡ some (ctx, m')
        → Built [] ctx m'
    reserve :
        (es : List Entry) (ctx ctx' : Context) (m m1 m' : Ram) (head type n data_address : ℕ)
        → Built es ctx m
        → type < word
        → realloc ctx.head (f.header_size + total_size f es + (n + f.tag_size)) m ≡ some (head, m1)
        → ((i : ℕ) → i < f.header_size + total_size f es → m1 (head + i) ≡ m (ctx.head + i))
        → head + (f.header_size + total_size f es + (n + f.tag_size)) < word
        → image3_reserve_tag f rt realloc m ctx type n ≡ reserved data_address ctx' m'
        → Built (es ++ (type, n) ∷ []) ctx' m'
    change :
        (es : List Entry) (ctx : Context) (m m' : Ram)
        → Built es ctx m
        → ((i : ℕ)
            → (i < f.header_size) ⊎ InTag f f.header_size es i
            → m' (ctx.head + i) ≡ m (ctx.head + i))
        → Built es ctx m'

  abbrev outcome : Context × Ram → Reserved f rt → Context × Ram
  outcome other r = elim r [ reserved a ctx m ↦ (ctx, m) | refused ↦ other | aborted ↦ other ]

  module _ (laws : IsImg3Format f) (rules : IsRuntime rt) where
    -- Whatever is built is an image.
    pub Built-IsImage :
        (es : List Entry) (ctx : Context) (m : Ram) → Built es ctx m → IsImage f es ctx m
    Built-IsImage es ctx m (begun head type ctx' m0 m' room e) =
        let (_, ran, image) = image3_new-IsImage f laws head m0 type room in
        subst (λ (x : Context × Ram). IsImage f [] x.0 x.1)
          (ap (λ o. (elim o [ some x ↦ x | none ↦ (ctx, m) ])) (sym ran ∙ e)) image
    Built-IsImage es ctx m
          (reserve es' ctx0 ctx' m0 m1 m' head type n a b small moved same room e) =
        let before = Built-IsImage es' ctx0 m0 b in
        let (_, ran, image) =
          image3_reserve_tag-IsImage f laws rt rules realloc m0 m1 ctx0 es' head type n before moved
            small room same in
        subst (λ (x : Context × Ram). IsImage f es x.0 x.1) (ap (outcome (ctx, m)) (sym ran ∙ e))
          image
    Built-IsImage es ctx m (change es' ctx' m0 m' b same) =
        let before = Built-IsImage es ctx m0 b in
        IsImage-moved f laws m0 m ctx ctx.head es before.fits same before

    -- In whatever is built.
    pub image3_get_tag_data-Built :
        (es : List Entry) (ctx : Context) (m : Ram) (type data_address n : ℕ)
        → Built es ctx m
        → data_of f (ctx.head + f.header_size) type es ≡ some (data_address, n)
        → image3_get_tag_data f rt m ctx type ≡ some (data_address, n)
    image3_get_tag_data-Built es ctx m type data_address n b hit =
        image3_get_tag_data-data_of f rt rules laws m ctx es type data_address n
          (Built-IsImage es ctx m b) hit
