-- ===== src/Image3.antt =====
-- image3/image3.c: the tagged container IMG3. Its structures stand in a header that the repository
-- does not hold: `Img3Format` takes their sizes, offsets and magic number.
pub mod Walk
pub mod Content
pub mod Reserve
pub mod Built
mod Tests
use xnu_uboot_arm.Base.{
  ℕ, zero, suc, ◌+◌, Bool, true, false, Option, none, some, not, ltb, ◌==◌, if◌then◌else◌, add32,
  sub32, word, Ram, read32, write32,
}
use xnu_uboot_arm.Runtime.{Runtime}

-- 32-bit fields at their offsets in img3_header_t and img3_tag_t.
pub record Img3Format : Type 0 where
  pub header_size : ℕ
  pub head_magic : ℕ
  pub head_full_size : ℕ
  pub head_unpacked_size : ℕ
  pub head_sig_area : ℕ
  pub head_ident : ℕ
  pub tag_size : ℕ
  pub tag_type : ℕ
  pub tag_total_length : ℕ
  pub tag_data_length : ℕ
  pub img3_magic : ℕ

-- `img3_context_t`
pub record Context : Type 0 where
  pub head : ℕ
  pub dynamic : Bool

pub data Found : Type 0 where
  found : (tag : ℕ) → Found
  not_found out_of_fuel : Found

-- `free` is the C library's, on the state of the heap; the context stands at `at`.
unfoldable pub image3_destroy : {W : Type 0} → (free : ℕ → W → W) → (at : ℕ) → Context → W → W
image3_destroy free at ctx w = if ctx.dynamic then free at (free ctx.head w) else w

module _ (f : Img3Format) where
  -- `image3_sz`, `image3_off` and the accessors.
  unfoldable pub image3_get_size : Ram → Context → ℕ
  image3_get_size m ctx = read32 m (ctx.head + f.head_full_size)

  unfoldable pub image3_get_buffer : Context → ℕ
  image3_get_buffer ctx = ctx.head

  abbrev pub image3_off : Context → ℕ → ℕ
  image3_off ctx p = sub32 p ctx.head

  unfoldable pub image3_from_buffer : Ram → (buffer : ℕ) → Context → Option Context
  image3_from_buffer m buffer ctx =
      if read32 m (buffer + f.head_magic) == f.img3_magic
      then some (record ctx { head = buffer })
      else none

  unfoldable pub image3_fast_get_type : Ram → (buffer : ℕ) → Option ℕ
  image3_fast_get_type m buffer =
      if read32 m (buffer + f.head_magic) == f.img3_magic
      then some (read32 m (buffer + f.head_ident))
      else none

  module _ (rt : Runtime) where
    -- `while (true)`, from `tag` on.
    unfoldable pub find_loop : (fuel : ℕ) → Ram → Context → (type tag : ℕ) → Found
    find_loop zero m ctx type tag = out_of_fuel
    find_loop (suc fuel) m ctx type tag =
        let next = rt.add_ptr2 tag (read32 m (tag + f.tag_total_length)) in
        elim (read32 m (tag + f.tag_type) == type) [
          | true ↦ found tag
          | false ↦ elim (ltb (image3_get_size m ctx) (image3_off ctx next)) [
            | true ↦ not_found
            | false ↦ find_loop fuel m ctx type next
          ]
        ]

    -- A walk over tags that are not empty takes fewer than 2 ^ 32 rounds.
    unfoldable pub image3_find_tag : Ram → Context → (type : ℕ) → Found
    image3_find_tag m ctx type = find_loop word m ctx type (ctx.head + f.header_size)

    unfoldable pub image3_tag_present : Ram → Context → (type : ℕ) → Option Bool
    image3_tag_present m ctx type = elim (image3_find_tag m ctx type) [
      | found tag ↦ some true
      | not_found ↦ some false
      | out_of_fuel ↦ none
    ]

    -- The data of the tag, and its size.
    unfoldable pub image3_get_tag_data : Ram → Context → (type : ℕ) → Option (ℕ × ℕ)
    image3_get_tag_data m ctx type = elim (image3_find_tag m ctx type) [
      | found tag ↦ some (tag + f.tag_size, read32 m (tag + f.tag_data_length))
      | not_found ↦ none
      | out_of_fuel ↦ none
    ]

    -- `realloc` gives the block at its new address, with the memory afterwards; a null result ends
    -- in `abort`. The outcome is the data pointer, or NULL where the context is not dynamic.
    pub data Reserved : Type 0 where
      reserved : (data_address : ℕ) → Context → Ram → Reserved
      refused aborted : Reserved

    unfoldable pub image3_reserve_tag :
        (realloc : (block size : ℕ) → Ram → Option (ℕ × Ram))
        → Ram
        → Context
        → (type data_length : ℕ) → Reserved
    image3_reserve_tag realloc m ctx type data_length =
        let len = add32 data_length f.tag_size in
        let size = add32 (image3_get_size m ctx) len in
        if not ctx.dynamic then refused else elim (realloc ctx.head size m) [
          | none ↦ aborted
          | some (head, m1) ↦
              let tag = rt.add_ptr2 head (read32 m1 (head + f.head_full_size)) in
              let m2 = write32 m1 (tag + f.tag_data_length) data_length in
              let m3 = write32 m2 (tag + f.tag_total_length) len in
              let m4 = write32 m3 (tag + f.tag_type) type in
              let m5 = write32 m4 (head + f.head_full_size) size in
              let unpacked = add32 (read32 m5 (head + f.head_unpacked_size)) len in
              reserved (tag + f.tag_size) (record ctx { head = head })
                (write32 m5 (head + f.head_unpacked_size) unpacked)
        ]

  -- `malloc` for the header and for the context: NULL where one of them fails. The code asks for the
  -- size of a pointer for the context; here the context does not overlap with anything.
  unfoldable pub image3_new :
      (header : Option (ℕ × Ram)) (context : Bool) → (type : ℕ) → Option (Context × Ram)
  image3_new none context type = none
  image3_new (some (head, m)) context type =
      let m1 = write32 m (head + f.head_full_size) f.header_size in
      let m2 = write32 m1 (head + f.head_magic) f.img3_magic in
      let m3 = write32 m2 (head + f.head_ident) type in
      let m4 = write32 m3 (head + f.head_sig_area) 0 in
      let m5 = write32 m4 (head + f.head_unpacked_size) 0 in
      if context then some (record { head = head; dynamic = true }, m5) else none
