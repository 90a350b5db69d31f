-- ===== src/Lzss/Items.antt =====
-- One item of a stream, and its flag, as `decompress_lzss` reads them.
use xnu_uboot_arm.Base.{
  ℕ, zero, suc, ◌+◌, ◌-◌, ◌*◌, ◌/◌, ◌%◌, ◌<◌, ◌≤◌, ◌≡◌, refl, true, false, none, some, List, [],
  ◌∷◌, ◌++◌, length, has_bit, arith,
}
use xnu_uboot_arm.Lzss.{
  Lzss, ring_size, threshold, emit, take_byte, copy_match, next_flags, one_item, round,
}
use xnu_uboot_arm.Lzss.Stream.{
  Item, literal, match, expand_item, item_size, write_item, flag_bits, IsItem,
}
use xnu_uboot_arm.Lzss.Window.{
  At, emit-At, take_byte-At, copy_match-At, copy_match-r, copy_match-flags,
}

-- `k` flags are left in a byte of flags.
unfoldable pub double : ℕ → ℕ
double zero = 1
double (suc k) = 2 * double k

pub double_le : (k : ℕ) → k ≤ 7 → double k ≤ 128
unfolding double
double_le zero h = omega arith
double_le (suc zero) h = omega arith
double_le (suc (suc zero)) h = omega arith
double_le (suc (suc (suc zero))) h = omega arith
double_le (suc (suc (suc (suc zero)))) h = omega arith
double_le (suc (suc (suc (suc (suc zero))))) h = omega arith
double_le (suc (suc (suc (suc (suc (suc zero)))))) h = omega arith
double_le (suc (suc (suc (suc (suc (suc (suc zero))))))) h = omega arith
double_le (suc (suc (suc (suc (suc (suc (suc (suc k)))))))) h = absurd (omega (arith, h))

pub double_ge : (k : ℕ) → 1 ≤ double k
unfolding double
double_ge zero = omega arith
double_ge (suc k) = omega (arith, double_ge k)

pub flag_bits-lt : (xs : List Item) (k : ℕ) → length xs ≤ k → flag_bits xs < double k
unfolding flag_bits double
flag_bits-lt [] k h = omega (arith, double_ge k)
flag_bits-lt (x ∷ xs) zero h = absurd (omega (arith, h))
flag_bits-lt (literal c ∷ xs) (suc k) h = omega (arith, flag_bits-lt xs k (omega (arith, h)))
flag_bits-lt (match d z ∷ xs) (suc k) h = omega (arith, flag_bits-lt xs k (omega (arith, h)))

-- While flags are left, the marker in the upper byte says so.
pub has_more : (b k : ℕ) → b < double (suc k) → k ≤ 6 → has_bit 8 (b + double (suc k) * 255) ≡ true
unfolding double
has_more b k h l = ground (arith, double_le k (omega arith))

-- The state after an item.
pub record Took (srcend dst : ℕ) (text : List ℕ) (n more : ℕ) (rest : List ℕ) (x : Item)
    (t u : Lzss) : Type 0 where
  pub ran : one_item srcend t ≡ some u
  pub at : At dst srcend (expand_item x text) (n + item_size x) more rest u
  pub flags : u.flags ≡ t.flags
  pub place : u.r ≡ (t.r + item_size x) % 4096

abbrev pub after_match : Lzss → (size i : ℕ) → Lzss
after_match t size i = copy_match size i 0 (record t { src = t.src + 1 + 1 })

module _ {dst srcend : ℕ} {n more : ℕ} {rest : List ℕ} (text : List ℕ) (t : Lzss) where
  pub one_item-literal :
      (c : ℕ)
      → t.flags % 2 ≡ 1
      → c < 256
      → At dst srcend text n (1 + more) (c ∷ rest) t
      → Took srcend dst text n more rest (literal c) t (emit (record t { src = t.src + 1 }) c)
  unfolding one_item expand_item item_size
  one_item-literal c f b at =
      let left : 1 + more ≡ suc more = omega arith in
      let here : At dst srcend text n (suc more) (c ∷ rest) t = rw left at at in
      let bit : has_bit 0 t.flags ≡ true = ground (arith, f) in
      let (taken, after) = take_byte-At t c here in
      let count : n + 1 ≡ suc n = omega arith in
      record {
        ran = rw (bit, taken, one_item) refl;
        at = rw count (emit-At (record t { src = t.src + 1 }) c b after);
        flags = unfold emit in refl;
        place = unfold emit in refl;
      }

  pub one_item-match :
      (distance size : ℕ)
      → t.flags % 2 ≡ 0
      → IsItem (match distance size) text
      → At dst srcend text n (size + more) (write_item t.r (match distance size) ++ rest) t
      → Took srcend dst text n more rest
          (match distance size)
          t
          (after_match t size ((t.r + ring_size - distance) % ring_size))
  unfolding one_item expand_item item_size write_item IsItem
  one_item-match distance size f valid at =
      let i = (t.r + ring_size - distance) % ring_size in
      let j = i / 256 * 16 + (size - threshold - 1) in
      let bit : has_bit 0 t.flags ≡ false = ground (arith, f) in
      let (taken, after) = take_byte-At t (i % 256) at in
      let (taken', after') = take_byte-At (record t { src = t.src + 1 }) j after in
      let size_is : j % 16 + threshold + 1 ≡ size = omega (arith, valid) in
      let place_is : i % 256 + j / 16 % 16 * 256 ≡ i = omega (arith, valid) in
      record {
        ran = rw (bit, taken, taken', size_is, place_is, one_item) refl;
        at =
            copy_match-At size distance i 0 text n (n + size) more
              (record t { src = t.src + 1 + 1 }) valid.0 valid.1 valid.2 (omega (arith, valid)) refl
              after';
        flags = copy_match-flags size i 0 (record t { src = t.src + 1 + 1 });
        place = copy_match-r size i 0 (record t { src = t.src + 1 + 1 }) at.in_ring;
      }

-- What one item leaves, of either kind: the flag of the item is the lowest bit.
pub one_item-Took :
    {dst srcend : ℕ} {n more : ℕ} {rest : List ℕ} (text : List ℕ) (t : Lzss) (x : Item)
    (xs : List Item) (k : ℕ)
    → t.flags ≡ flag_bits (x ∷ xs) + double (suc k) * 255
    → IsItem x text
    → At dst srcend text n (item_size x + more) (write_item t.r x ++ rest) t
    → (u : Lzss) × Took srcend dst text n more rest x t u
      × (t.flags / 2 ≡ flag_bits xs + double k * 255)
unfolding flag_bits double IsItem item_size write_item
one_item-Took text t (literal c) xs k f valid at =
    (_, one_item-literal text t c (omega (arith, f)) valid at, omega (arith, f))
one_item-Took text t (match distance size) xs k f valid at =
    (_, one_item-match text t distance size (omega (arith, f)) valid at, omega (arith, f))

-- No byte left: the loop is left.
pub round_end : (srcend : ℕ) (s : Lzss) → srcend ≤ s.src → round srcend s ≡ none
unfolding round next_flags one_item take_byte
round_end srcend s h = ground (arith, h)
