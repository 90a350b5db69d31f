-- ===== src/Lzss.antt =====
-- compressed/lzss.c: `decompress_lzss`, over the memory that holds both its source and its
-- destination. The bytes of `text_buf` that the function leaves uninitialised are a parameter.
pub mod Adler
pub mod Bounds
pub mod Stream
pub mod Window
pub mod Items
pub mod Loop
pub mod RoundTrip
mod Tests
use xnu_uboot_arm.Base.{
  ℕ, zero, suc, ◌+◌, ◌-◌, ◌*◌, ◌/◌, ◌%◌, Bool, true, false, Option, none, some, ◌==◌, ltb,
  if◌then◌else◌, has_bit, Ram, read8, write8,
}

-- N, F and THRESHOLD
abbrev pub ring_size : ℕ
ring_size = 4096

abbrev pub max_match : ℕ
max_match = 18

abbrev pub threshold : ℕ
threshold = 2

-- The variables of the loop.
pub record Lzss : Type 0 where
  pub ram : Ram
  pub dst : ℕ
  pub src : ℕ
  pub r : ℕ
  pub flags : ℕ
  pub text_buf : ℕ → ℕ

-- `*dst++ = c; text_buf[r++] = c; r &= (N - 1);`
unfoldable pub emit : Lzss → ℕ → Lzss
emit s c = record s {
  ram = write8 s.ram s.dst c;
  dst = s.dst + 1;
  text_buf = λ a. if a == s.r then c else s.text_buf a;
  r = (s.r + 1) % ring_size;
}

-- `if (src < srcend) c = *src++; else break;`
unfoldable pub take_byte : (srcend : ℕ) → Lzss → Option (ℕ × Lzss)
take_byte srcend s =
    if ltb s.src srcend then some (read8 s.ram s.src, record s { src = s.src + 1 }) else none

-- `n` rounds of the copying loop, from `text_buf[(i + k) & (N - 1)]`.
unfoldable pub copy_match : (n i k : ℕ) → Lzss → Lzss
copy_match zero i k s = s
copy_match (suc n) i k s = copy_match n i (k + 1) (emit s (s.text_buf ((i + k) % ring_size)))

-- `flags >>= 1`, with a new byte of flags after eight items. `c | 0xFF00` is a sum, as `c` is a byte.
unfoldable pub next_flags : (srcend : ℕ) → Lzss → Option Lzss
next_flags srcend s =
    let shifted = record s { flags = s.flags / 2 } in
    if has_bit 8 (s.flags / 2) then some shifted else elim (take_byte srcend shifted) [
      | none ↦ none
      | some (c, s') ↦ some (record s' { flags = c + 0xFF00 })
    ]

-- A literal, or a match of `(j & 0x0F) + THRESHOLD + 1` bytes at `i | ((j & 0xF0) << 4)`.
unfoldable pub one_item : (srcend : ℕ) → Lzss → Option Lzss
one_item srcend s =
    if has_bit 0 s.flags
    then elim (take_byte srcend s) [ none ↦ none | some (c, s') ↦ some (emit s' c) ]
    else elim (take_byte srcend s) [
      | none ↦ none
      | some (i, s') ↦ elim (take_byte srcend s') [
        | none ↦ none
        | some (j, s'') ↦ some (copy_match (j % 16 + threshold + 1) (i + j / 16 % 16 * 256) 0 s'')
      ]
    ]

-- One round of `for ( ; ; )`: `none` is the `break`.
unfoldable pub round : (srcend : ℕ) → Lzss → Option Lzss
round srcend s = elim (next_flags srcend s) [ none ↦ none | some s' ↦ one_item srcend s' ]

-- What the loop leaves behind: the memory and the end of the output; `none` if the fuel ran out.
unfoldable pub rounds : (fuel srcend : ℕ) → Lzss → Option (Ram × ℕ)
rounds zero srcend s = none
rounds (suc fuel) srcend s = elim (round srcend s) [
  | none ↦ some (s.ram, s.dst)
  | some s' ↦ rounds fuel srcend s'
]

unfoldable pub initial : (uninitialised : ℕ → ℕ) → Ram → (dst src : ℕ) → Lzss
initial uninitialised m dst src = record {
  ram = m;
  dst = dst;
  src = src;
  r = ring_size - max_match;
  flags = 0;
  text_buf = λ a. if ltb a (ring_size - max_match) then b' ' else uninitialised a;
}

-- The memory afterwards and the length of the output. Each round consumes a byte of the source.
unfoldable pub decompress_lzss : (ℕ → ℕ) → Ram → (dst src srclen : ℕ) → Option (Ram × ℕ)
decompress_lzss uninitialised m dst src srclen =
    elim (rounds (srclen + 1) (src + srclen) (initial uninitialised m dst src)) [
      | none ↦ none
      | some (m', dst') ↦ some (m', dst' - dst)
    ]
