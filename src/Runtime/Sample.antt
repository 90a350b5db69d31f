-- ===== src/Runtime/Sample.antt =====
-- For runs at concrete inputs: a memory of given words, and concrete macros that meet `IsRuntime`:
-- round to a multiple, add, and test for a zero range.
use native.Mathlib.Nat.{one-le-pow}
use xnu_uboot_arm.Base.{
  ℕ, ◌+◌, ◌-◌, ◌*◌, ◌/◌, ◌%◌, ◌^◌, ◌<◌, ◌≤◌, ◌≡◌, ◌&&◌, refl, add32, arith, ◌==◌, List, [], ◌∷◌,
  Ram, write32,
}
use xnu_uboot_arm.Runtime.{Runtime, IsRuntime, range}

-- A memory that holds the given words at the given addresses, and zeros elsewhere.
unfoldable pub holding : List (ℕ × ℕ) → Ram
holding [] = λ a. 0
holding ((p, v) ∷ ws) = write32 (holding ws) p v

abbrev pub sample : Runtime
sample = record {
  align_up = λ x a. (x + (a - 1)) / a * a;
  align_down = λ x a. x / a * a;
  add_ptr2 = add32;
  add_ptr3 = λ p n o. add32 (add32 p n) o;
  range_is_null = λ r. r.base == 0 && r.size == 0;
  zero_range = λ r. range 0 0;
}

pow_pos : (k : ℕ) → 0 < 2 ^ k
pow_pos k = one-le-pow k 2 (omega arith)

module _ (x a : ℕ) (pos : 0 < a) where
  up_ge : x ≤ (x + (a - 1)) / a * a
  up_ge = grind arith

  up_lt : (x + (a - 1)) / a * a < x + a
  up_lt = grind arith

  multiple : x / a * a % a ≡ 0
  multiple = grind arith

  down_le : x / a * a ≤ x
  down_le = grind arith

pub sample-IsRuntime : IsRuntime sample
sample-IsRuntime = record {
  align_up_ge = λ x k h. up_ge x (2 ^ k) (pow_pos k);
  align_up_lt = λ x k h. up_lt x (2 ^ k) (pow_pos k);
  align_up_mod = λ x k h. multiple (x + (2 ^ k - 1)) (2 ^ k) (pow_pos k);
  align_down_le = λ x k h. down_le x (2 ^ k) (pow_pos k);
  align_down_mod = λ x k h. multiple x (2 ^ k) (pow_pos k);
  add_ptr2_lem = λ p n. refl;
  add_ptr3_lem = λ p n o. refl;
  zero_range_null = λ r. refl;
  used_range = λ r b s. ground arith;
}
