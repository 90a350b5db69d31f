-- ===== src/Image3/Walk.antt =====
-- What `image3_find_tag` finds in an image whose tags fill it.
use xnu_uboot_arm.Base.{
  ℕ, zero, suc, ◌+◌, ◌<◌, ◌≤◌, ◌≡◌, refl, ap, sym, ◌∙◌, ◌-◌, true, false, Bool-cases, inl, inr,
  Option, none, some, List, [], ◌∷◌, length, ltb, ◌==◌, if◌then◌else◌, sub32, word, Ram, read32,
  arith,
}
use xnu_uboot_arm.Runtime.{Runtime, IsRuntime}
use xnu_uboot_arm.Image3.{
  Img3Format, Context, found, not_found, out_of_fuel, image3_get_size, find_loop, image3_find_tag,
}

module _ (f : Img3Format) (m : Ram) where
  abbrev pub type_of : ℕ → ℕ
  type_of tag = read32 m (tag + f.tag_type)

  abbrev pub total_length : ℕ → ℕ
  total_length tag = read32 m (tag + f.tag_total_length)

  -- The tags stand one behind the other from `tag` up to `stop`, none of them empty.
  abbrev pub Fills : (tag : ℕ) → List ℕ → (stop : ℕ) → Type 0
  Fills tag [] stop = tag ≡ stop
  Fills tag (t ∷ ts) stop =
      (t ≡ tag) × (1 ≤ total_length tag) × Fills (tag + total_length tag) ts stop

  unfoldable pub first_tag : (type : ℕ) → List ℕ → Option ℕ
  first_tag type [] = none
  first_tag type (t ∷ ts) = if type_of t == type then some t else first_tag type ts

  Fills-le : (tag : ℕ) (ts : List ℕ) (stop : ℕ) → Fills tag ts stop → tag + length ts ≤ stop
  Fills-le tag [] stop h = omega arith
  Fills-le tag (t ∷ ts) stop h = omega (arith, Fills-le (tag + total_length tag) ts stop h.2)

  module _ (rt : Runtime) (laws : IsRuntime rt) (ctx : Context) (type : ℕ) where
    abbrev pub stop : ℕ
    stop = ctx.head + image3_get_size f m ctx

    -- One round over a tag of another type, with `size` that of the image.
    find_loop-step :
        (fuel tag : ℕ)
        → type_of tag == type ≡ false
        → tag + total_length tag < word
        → tag + total_length tag ≤ stop
        → ctx.head ≤ tag
        → find_loop f rt (suc fuel) m ctx type tag
          ≡ find_loop f rt fuel m ctx type (tag + total_length tag)
    unfolding find_loop
    find_loop-step fuel tag miss small inside b =
        let next : rt.add_ptr2 tag (total_length tag) ≡ tag + total_length tag =
          laws.add_ptr2_lem tag (total_length tag) ∙ omega arith in
        let more : ltb (image3_get_size f m ctx) (sub32 (tag + total_length tag) ctx.head) ≡ false =
          ground arith in
        rw (miss, find_loop)
          (rw
            (
              ap (λ (n : ℕ). ltb (image3_get_size f m ctx) (sub32 n ctx.head)) next ∙ more,
              find_loop,
            )
            (ap (find_loop f rt fuel m ctx type) next))

    find_loop-hit :
        (fuel tag : ℕ)
        → type_of tag == type ≡ true
        → find_loop f rt (suc fuel) m ctx type tag ≡ found tag
    unfolding find_loop
    find_loop-hit fuel tag hit = rw (hit, find_loop) refl

    -- One round over a tag of another type that leads past the full size.
    find_loop-last :
        (fuel tag : ℕ)
        → type_of tag == type ≡ false
        → tag + total_length tag < word
        → stop < tag + total_length tag
        → find_loop f rt (suc fuel) m ctx type tag ≡ not_found
    unfolding find_loop
    find_loop-last fuel tag miss small outside =
        let next : rt.add_ptr2 tag (total_length tag) ≡ tag + total_length tag =
          laws.add_ptr2_lem tag (total_length tag) ∙ omega arith in
        let no_more : ltb (image3_get_size f m ctx) (sub32 (tag + total_length tag) ctx.head)
            ≡ true =
          ground arith in
        rw (miss, find_loop)
          (rw
            (
              ap (λ (n : ℕ). ltb (image3_get_size f m ctx) (sub32 n ctx.head)) next ∙ no_more,
              find_loop,
            )
            refl)

    -- The walk over the tags before `stop`: the first of the type, or on to `stop` itself.
    find_loop-first :
        (fuel k tag : ℕ) (ts : List ℕ)
        → fuel ≡ length ts + k
        → Fills tag ts stop
        → ctx.head ≤ tag
        → stop < word
        → find_loop f rt fuel m ctx type tag ≡ (elim (first_tag type ts) [
          | some t ↦ found t
          | none ↦ find_loop f rt k m ctx type stop
        ])
    unfolding first_tag
    find_loop-first fuel k tag [] e h b s =
        rw h (ap (λ (n : ℕ). find_loop f rt n m ctx type stop) (omega arith))
    find_loop-first zero k tag (t ∷ ts) e h b s = absurd (omega arith)
    find_loop-first (suc fuel) k tag (t ∷ ts) e h b s =
        let below = Fills-le (tag + total_length tag) ts stop h.2 in
        let same : type_of t ≡ type_of tag = ap type_of h.0 in
        elim (Bool-cases (type_of tag == type)) [
          | inl hit ↦ find_loop-hit fuel tag hit ∙ rw (same, hit) (ap found (sym h.0))
          | inr miss ↦
              find_loop-step fuel tag miss (omega arith) (omega arith) b
              ∙ rw (same, miss)
                  (find_loop-first fuel k (tag + total_length tag) ts (omega arith) h.2
                    (omega arith) s)
        ]

    -- Over tags that fill the image from its header to its full size, the search finds the first tag
    -- of the type; without one, it goes on at the full size, as if a tag stood behind the last.
    pub image3_find_tag-first :
        (ts : List ℕ)
        → Fills (ctx.head + f.header_size) ts stop
        → stop < word
        → image3_find_tag f rt m ctx type ≡ (elim (first_tag type ts) [
          | some t ↦ found t
          | none ↦ find_loop f rt (word - length ts) m ctx type stop
        ])
    unfolding image3_find_tag
    image3_find_tag-first ts h s =
        let below = Fills-le (ctx.head + f.header_size) ts stop h in
        find_loop-first word (word - length ts) (ctx.head + f.header_size) ts (omega arith) h
          (omega arith) s

    -- The search for a type that no tag of such an image has ends without one when the word behind
    -- the image is not the type, and the word that is read there as a length is not zero.
    image3_find_tag-absent :
        (ts : List ℕ)
        → Fills (ctx.head + f.header_size) ts stop
        → stop < word
        → first_tag type ts ≡ none
        → type_of stop == type ≡ false
        → 1 ≤ total_length stop
        → stop + total_length stop < word
        → image3_find_tag f rt m ctx type ≡ not_found
    image3_find_tag-absent ts h s absent other size small =
        let below = Fills-le (ctx.head + f.header_size) ts stop h in
        image3_find_tag-first ts h s
        ∙ rw absent (
            ap (λ (n : ℕ). find_loop f rt n m ctx type stop) (omega arith)
            ∙ find_loop-last (word - length ts - 1) stop other small (omega arith))

    -- A tag of length zero and of another type, where the search stands on it, stops the search
    -- from ever ending: no fuel is enough.
    pub find_loop-stuck :
        (fuel tag : ℕ)
        → type_of tag == type ≡ false
        → total_length tag ≡ 0
        → ctx.head ≤ tag
        → tag ≤ stop
        → stop < word
        → find_loop f rt fuel m ctx type tag ≡ out_of_fuel
    unfolding find_loop
    find_loop-stuck zero tag miss empty b inside s = refl
    find_loop-stuck (suc fuel) tag miss empty b inside s =
        find_loop-step fuel tag miss (omega arith) (omega arith) b
        ∙ rw empty (
            ap (find_loop f rt fuel m ctx type) (omega arith)
            ∙ find_loop-stuck fuel tag miss empty b inside s)
