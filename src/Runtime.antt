-- ===== src/Runtime.antt =====
-- What the sources take from bootkit/runtime.h, which the repository does not hold: the alignment
-- macros, the pointer sums and the tests on a `memory_range_t`. `IsRuntime` is what they document.
pub mod Sample
use xnu_uboot_arm.Base.{ℕ, ◌+◌, ◌%◌, ◌^◌, ◌<◌, ◌≤◌, ◌≡◌, ◌≢◌, ◌⊎◌, Bool, true, false, word, add32}

-- `memory_range_t`
pub record Range : Type 0 where
  pub base : ℕ
  pub size : ℕ

abbrev pub range : ℕ → ℕ → Range
range b s = record { base = b; size = s }

pub record Runtime : Type 0 where
  pub align_up : ℕ → ℕ → ℕ
  pub align_down : ℕ → ℕ → ℕ
  pub add_ptr2 : ℕ → ℕ → ℕ
  pub add_ptr3 : ℕ → ℕ → ℕ → ℕ
  -- `RANGE_IS_NULL` and `ZERO_RANGE`
  pub range_is_null : Range → Bool
  pub zero_range : Range → Range

-- The boundaries are powers of two. A sum that leaves 32 bits wraps, and then the laws on
-- `align_up` say nothing.
pub record IsRuntime (rt : Runtime) : Type 0 where
  pub align_up_ge : (x k : ℕ) → x + 2 ^ k ≤ word → x ≤ rt.align_up x (2 ^ k)
  pub align_up_lt : (x k : ℕ) → x + 2 ^ k ≤ word → rt.align_up x (2 ^ k) < x + 2 ^ k
  pub align_up_mod : (x k : ℕ) → x + 2 ^ k ≤ word → rt.align_up x (2 ^ k) % 2 ^ k ≡ 0
  pub align_down_le : (x k : ℕ) → x < word → rt.align_down x (2 ^ k) ≤ x
  pub align_down_mod : (x k : ℕ) → x < word → rt.align_down x (2 ^ k) % 2 ^ k ≡ 0
  pub add_ptr2_lem : (p n : ℕ) → rt.add_ptr2 p n ≡ add32 p n
  pub add_ptr3_lem : (p n o : ℕ) → rt.add_ptr3 p n o ≡ add32 (add32 p n) o
  pub zero_range_null : (r : Range) → rt.range_is_null (rt.zero_range r) ≡ true
  pub used_range : (r : Range) → r.base ≢ 0 → r.size ≢ 0 → rt.range_is_null r ≡ false
