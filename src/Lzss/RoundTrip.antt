-- ===== src/Lzss/RoundTrip.antt =====
-- `decompress_lzss` on the bytes of a stream.
use xnu_uboot_arm.Base.{
  ℕ, zero, suc, ◌+◌, ◌-◌, ◌%◌, ◌<◌, ◌≤◌, ◌≡◌, ◌⊎◌, inl, ap, refl, true, Option, some, List, length,
  length-replicate, replicate, get_or, Ram, read_bytes, ltb, arith,
}
use xnu_uboot_arm.Lzss.{ring_size, max_match, initial, decompress_lzss}
use xnu_uboot_arm.Lzss.Stream.{Item, blanks, expand, latest, stream_size, write_stream, IsStream}
use xnu_uboot_arm.Lzss.Window.{At}
use xnu_uboot_arm.Lzss.Loop.{stream}

get_or-replicate : (c n k : ℕ) → k < n → get_or (replicate n c) k 0 ≡ c
get_or-replicate c zero k h = absurd (omega (arith, h))
get_or-replicate c (suc n) zero h = refl
get_or-replicate c (suc n) (suc k) h = get_or-replicate c n k (omega (arith, h))

get_or-replicate_lt : (c n k : ℕ) → c < 256 → get_or (replicate n c) k 0 < 256
get_or-replicate_lt c zero k h = omega arith
get_or-replicate_lt c (suc n) zero h = h
get_or-replicate_lt c (suc n) (suc k) h = get_or-replicate_lt c n k h

module _ (uninitialised : ℕ → ℕ) (m : Ram) (dst src : ℕ) where
  -- Before the first byte, the ring holds the blanks.
  initial-At :
      (more : ℕ) (rest : List ℕ)
      → read_bytes m src (length rest) ≡ rest
      → (dst + more ≤ src) ⊎ (src + length rest ≤ dst)
      → At dst (src + length rest) blanks 0 more rest (initial uninitialised m dst src)
  unfolding initial read_bytes latest
  initial-At more rest source apart = record {
    output = omega arith;
    in_ring = omega arith;
    window = λ k l h.
        let near : k < 4078 =
          omega (arith, h, length-replicate {A = ℕ} (ring_size - max_match) b' ') in
        let old : ltb ((4078 + 4095 - k) % 4096) 4078 ≡ true = ground (arith, near) in
        rw (old, get_or-replicate b' ' (ring_size - max_match) k near) refl;
    bytes = λ k. get_or-replicate_lt b' ' (ring_size - max_match) k (omega arith);
    written = refl;
    source = source;
    ends = refl;
    apart = apart;
  }

  -- The loop has written the whole text.
  abbrev Unpacked : (total : ℕ) (final : List ℕ) → Option (Ram × ℕ) → Type 0
  Unpacked total final out =
      (m' : Ram) × (out ≡ some (m', dst + total)) × (read_bytes m' dst total ≡ latest total final)

  -- A stream of literals and matches, written from `src` on, apart from where its text goes, is
  -- unpacked to that text, and its length is returned.
  pub decompress_lzss-write_stream :
      (groups : List (List Item))
      → IsStream groups blanks
      → read_bytes m src (length (write_stream 4078 groups)) ≡ write_stream 4078 groups
      → (dst + stream_size groups ≤ src) ⊎ (src + length (write_stream 4078 groups) ≤ dst)
      → (m' : Ram) × (decompress_lzss uninitialised m dst src (length (write_stream 4078 groups))
          ≡ some (m', stream_size groups))
        × (read_bytes m' dst (stream_size groups)
            ≡ latest (stream_size groups) (expand groups blanks))
  unfolding decompress_lzss initial
  decompress_lzss-write_stream groups valid source apart =
      let encoded = write_stream 4078 groups in
      let (m', ran, same) =
        stream dst (src + length encoded) (Unpacked (stream_size groups) (expand groups blanks))
          (stream_size groups) (expand groups blanks)
          (λ s at. (s.ram, ap (λ (a : ℕ). some (s.ram, a)) at.output, at.written)) groups blanks 0
          (length encoded + 1) (initial uninitialised m dst src) valid (omega arith) refl
          (initial-At (stream_size groups) encoded source apart) (inl refl) (omega arith) in
      let count : dst + stream_size groups - dst ≡ stream_size groups = omega arith in
      (m', rw (ran, decompress_lzss) (ap (λ (a : ℕ). some (m', a)) count), same)
