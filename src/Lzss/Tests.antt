-- ===== src/Lzss/Tests.antt =====
-- A run of compressed/lzss.c, and its theorem at it.
use xnu_uboot_arm.Base.{
  ℕ, ◌+◌, ◌*◌, arith, ◌≤◌, ◌≡◌, inr, refl, Option, none, some, List, [], ◌∷◌, get_or, Ram, read8,
  write8, read_bytes, codes, SameOutside,
}
use xnu_uboot_arm.Lzss.Adler.{adler32, sum_blocks, sum_block, do1, checksum, adler32-checksum}
use xnu_uboot_arm.Lzss.{
  emit, take_byte, copy_match, next_flags, one_item, round, rounds, initial, decompress_lzss,
}
use xnu_uboot_arm.Lzss.Stream.{
  Item, literal, match, blanks, repeat, expand_item, expand_group, expand, latest, item_size,
  group_size, stream_size, write_item, write_items, flag_bits, write_stream, IsItem, IsGroup,
  IsStream,
}
use xnu_uboot_arm.Lzss.RoundTrip.{decompress_lzss-write_stream}
use xnu_uboot_arm.Lzss.Bounds.{decompress_lzss-bounded}

-- "ab", then a match of four bytes from where the "ab" went.
abbrev packed : Ram
packed a = get_or (3 ∷ 97 ∷ 98 ∷ 0xEE ∷ 0xF1 ∷ []) a 0

abbrev text : Option (Ram × ℕ) → List ℕ
text none = []
text (some (m, n)) = read_bytes m 0x100 n

unpacks : text (decompress_lzss (λ a. 0) packed 0x100 0 5) ≡ codes "ababab"
unfolding decompress_lzss rounds round next_flags one_item take_byte copy_match emit initial read8
    write8 read_bytes
unpacks = refl

decompress_lzss-bounded_example :
    (m' : Ram) × (n : ℕ) × (decompress_lzss (λ a. 0) packed 0x100 0 5 ≡ some (m', n))
    × (n ≤ 9 * 5)
    × SameOutside 0x100 n packed m'
decompress_lzss-bounded_example = decompress_lzss-bounded (λ a. 0) packed 0x100 0 5

abbrev stream_items : List (List Item)
stream_items = (literal 97 ∷ literal 98 ∷ match 2 4 ∷ []) ∷ []

stream_items-IsStream : IsStream stream_items blanks
unfolding IsStream IsGroup IsItem expand_item
stream_items-IsStream = (
  omega arith,
  omega arith,
  (
    omega arith,
    (omega arith, ((omega arith, omega arith, omega arith, omega arith, omega arith), tt)),
  ),
)

decompress_lzss-write_stream_example :
    (m' : Ram) × (decompress_lzss (λ a. 0) packed 0x100 0 5 ≡ some (m', 6))
    × (read_bytes m' 0x100 6 ≡ codes "ababab")
unfolding write_stream write_items write_item flag_bits item_size group_size stream_size expand
    expand_group expand_item repeat latest read_bytes read8
decompress_lzss-write_stream_example =
    decompress_lzss-write_stream (λ a. 0) packed 0x100 0 stream_items stream_items-IsStream refl
      (inr (omega arith))

-- The checksum of the bytes of "Wikipedia".
wikipedia : adler32 (codes "Wikipedia") ≡ 0x11E6_0398
unfolding adler32 sum_blocks sum_block do1
wikipedia = refl

adler32-checksum_example :
    adler32 (255 ∷ 0 ∷ 7 ∷ [])
    ≡ (checksum (1, 0) (255 ∷ 0 ∷ 7 ∷ [])).1 * 65536 + (checksum (1, 0) (255 ∷ 0 ∷ 7 ∷ [])).0
adler32-checksum_example =
    adler32-checksum (255 ∷ 0 ∷ 7 ∷ []) (omega arith, (omega arith, (omega arith, tt)))
