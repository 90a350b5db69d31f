-- ===== src/Image3/Tests.antt =====
-- Runs of image3/image3.c on a small image, and its theorems at it.
use xnu_uboot_arm.Base.{
  ℕ, ◌+◌, ◌-◌, ◌≡◌, ◌*◌, inl, inr, refl, ap, true, false, Option, none, some, List, [], ◌∷◌, word,
  length, arith, Ram, read8, read16, read32, write32, ◌==◌,
}
use xnu_uboot_arm.Runtime.Sample.{sample, sample-IsRuntime, holding}
use xnu_uboot_arm.Image3.{
  Img3Format, Context, found, out_of_fuel, image3_get_size, find_loop, image3_find_tag, Reserved,
  reserved, refused, aborted, image3_new, image3_reserve_tag, image3_get_tag_data,
}
use xnu_uboot_arm.Image3.Content.{IsImg3Format, total_size, data_of, IsImage}
use xnu_uboot_arm.Image3.Built.{Built, begun, reserve, Built-IsImage, image3_get_tag_data-Built}
use xnu_uboot_arm.Image3.Walk.{
  Fills, first_tag, find_loop-stuck, image3_find_tag-first, type_of, total_length,
}

abbrev img3 : Img3Format
img3 = record {
  header_size = 20;
  head_magic = 0;
  head_full_size = 4;
  head_unpacked_size = 8;
  head_sig_area = 12;
  head_ident = 16;
  tag_size = 12;
  tag_type = 0;
  tag_total_length = 4;
  tag_data_length = 8;
  img3_magic = 0x496D_6733;
}

-- Two tags of 16 bytes behind the header, and a word behind the image.
abbrev image : Ram
image = holding (
    (0x104, 52)
    ∷ (0x114, 0x5459_5045)
    ∷ (0x118, 16)
    ∷ (0x124, 0x4441_5441)
    ∷ (0x128, 16)
    ∷ (0x138, 16)
    ∷ [])

abbrev context : Context
context = record { head = 0x100; dynamic = false }

abbrev tags : List ℕ
tags = 0x114 ∷ 0x124 ∷ []

end_of_image : 0x100 + image3_get_size img3 image context ≡ 0x134
unfolding image3_get_size holding read32 read16 read8 write32
end_of_image = refl

fills : Fills img3 image 0x114 tags (0x100 + image3_get_size img3 image context)
unfolding image3_get_size holding read32 read16 read8 write32
fills = (refl, omega arith, (refl, omega arith, refl))

image3_find_tag-first_example :
    image3_find_tag img3 sample image context 0x4441_5441
    ≡ (elim (first_tag img3 image 0x4441_5441 tags) [
      | some t ↦ found t
      | none ↦
          find_loop img3 sample
            (word - length tags)
            image
            context
            0x4441_5441
            (0x100 + image3_get_size img3 image context)
    ])
image3_find_tag-first_example =
    image3_find_tag-first img3 image sample sample-IsRuntime context 0x4441_5441 tags fills
      (omega (arith, end_of_image))

-- An image whose one tag has length zero.
abbrev broken : Ram
broken = holding ((0x104, 36) ∷ (0x114, 0x5459_5045) ∷ [])

stuck :
    (type_of img3 broken 0x114 == 0x4441_5441 ≡ false)
    × (total_length img3 broken 0x114 ≡ 0)
    × (0x100 + image3_get_size img3 broken context ≡ 0x124)
unfolding image3_get_size holding read32 read16 read8 write32
stuck = (refl, refl, refl)

find_loop-stuck_example : find_loop img3 sample 1000 broken context 0x4441_5441 0x114 ≡ out_of_fuel
find_loop-stuck_example =
    find_loop-stuck img3 broken sample sample-IsRuntime context 0x4441_5441 1000 0x114 stuck.0
      stuck.1 (omega arith) (omega (arith, stuck.2)) (omega (arith, stuck.2))

-- An image that is built: `realloc` moves it by a page each time.
img3-IsImg3Format : IsImg3Format img3
img3-IsImg3Format = record {
  magic_inside = omega arith;
  full_size_inside = omega arith;
  unpacked_size_inside = omega arith;
  sig_area_inside = omega arith;
  ident_inside = omega arith;
  magic_full_size = inl (omega arith);
  magic_unpacked_size = inl (omega arith);
  magic_sig_area = inl (omega arith);
  magic_ident = inl (omega arith);
  full_size_unpacked_size = inl (omega arith);
  full_size_sig_area = inl (omega arith);
  full_size_ident = inl (omega arith);
  ident_sig_area = inr (omega arith);
  ident_unpacked_size = inr (omega arith);
  sig_area_unpacked_size = inr (omega arith);
  type_inside = omega arith;
  total_length_inside = omega arith;
  data_length_inside = omega arith;
  type_total_length = inl (omega arith);
  type_data_length = inl (omega arith);
  total_length_data_length = inl (omega arith);
  magic_word = omega arith;
  header_word = omega arith;
}

abbrev moving : (block size : ℕ) → Ram → Option (ℕ × Ram)
moving block size m = some (block + 0x1000, λ a. m (a - 0x1000))

abbrev at_page : (n : ℕ) → Context
at_page n = record { head = n * 0x1000; dynamic = true }

abbrev made : Option (Context × Ram) → Ram
made none = λ a. 0
made (some (ctx, m)) = m

abbrev grown : Reserved img3 sample → Ram
grown (reserved a ctx m) = m
grown refused = λ a. 0
grown aborted = λ a. 0

abbrev empty_image : Ram
empty_image = made (image3_new img3 (some (0x1000, λ a. 0)) true 0x6B72_6E6C)

abbrev with_type : Ram
with_type = grown (image3_reserve_tag img3 sample moving empty_image (at_page 1) 0x5459_5045 4)

abbrev with_data : Ram
with_data = grown (image3_reserve_tag img3 sample moving with_type (at_page 2) 0x4441_5441 8)

moving_keeps : (m : Ram) (head i : ℕ) → m (head + 0x1000 + i - 0x1000) ≡ m (head + i)
moving_keeps m head i = let e : head + 0x1000 + i - 0x1000 ≡ head + i = omega arith in ap m e

begins : Built img3 sample moving [] (at_page 1) empty_image
unfolding image3_new
begins = begun 0x1000 0x6B72_6E6C (at_page 1) (λ a. 0) empty_image (omega arith) refl

goes_on : Built img3 sample moving ((0x5459_5045, 4) ∷ []) (at_page 2) with_type
unfolding image3_reserve_tag image3_new total_size image3_get_size read32 read16 read8 write32
goes_on =
    reserve [] (at_page 1) (at_page 2) empty_image (λ a. empty_image (a - 0x1000)) with_type 0x2000
      0x5459_5045 4 0x2020 begins (omega arith) refl (λ i h. moving_keeps empty_image 0x1000 i)
      (omega arith) refl

ends : Built img3 sample moving ((0x5459_5045, 4) ∷ (0x4441_5441, 8) ∷ []) (at_page 3) with_data
unfolding image3_reserve_tag image3_new total_size image3_get_size read32 read16 read8 write32
ends =
    reserve ((0x5459_5045, 4) ∷ []) (at_page 2) (at_page 3) with_type (λ a. with_type (a - 0x1000))
      with_data 0x3000 0x4441_5441 8 0x3030 goes_on (omega arith) refl
      (λ i h. moving_keeps with_type 0x2000 i) (omega arith) refl

Built-IsImage_example :
    IsImage img3 ((0x5459_5045, 4) ∷ (0x4441_5441, 8) ∷ []) (at_page 3) with_data
Built-IsImage_example =
    Built-IsImage img3 sample moving img3-IsImg3Format sample-IsRuntime
      ((0x5459_5045, 4) ∷ (0x4441_5441, 8) ∷ []) (at_page 3) with_data ends

image3_get_tag_data-Built_example :
    image3_get_tag_data img3 sample with_data (at_page 3) 0x4441_5441 ≡ some (0x3030, 8)
unfolding data_of
image3_get_tag_data-Built_example =
    image3_get_tag_data-Built img3 sample moving img3-IsImg3Format sample-IsRuntime
      ((0x5459_5045, 4) ∷ (0x4441_5441, 8) ∷ []) (at_page 3) with_data 0x4441_5441 0x3030 8 ends
      refl
