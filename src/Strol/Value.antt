-- ===== src/Strol/Value.antt =====
-- The number that `strtoul` reads, against the value of its digits.
use mathlib.Core.Path.{subst}
use xnu_uboot_arm.Base.{
  ℕ, ◌+◌, ◌-◌, ◌*◌, ◌<◌, ◌≤◌, ◌≡◌, ◌⊎◌, inl, inr, refl, Bool, true, false, Bool-cases, Option-cases,
  none, some, List, [], ◌∷◌, ltb, leb, if◌then◌else◌, add32, sub32, mul32, length, drop, arith,
}
use xnu_uboot_arm.Strol.{
  ulong_max, exceeds, skip_spaces, take_sign, take_base, digit_of, Any, no_digit, any_digit,
  overflow, is_overflow, digits, finish, strtoul,
}

-- The values of the digits that a text begins with.
unfoldable pub leading : (base : ℕ) → List ℕ → List ℕ
leading base [] = []
leading base (c ∷ s) = elim (digit_of c) [
  | none ↦ []
  | some d ↦ elim (leb base d) [ true ↦ [] | false ↦ d ∷ leading base s ]
]

unfoldable pub value : (base acc : ℕ) → List ℕ → ℕ
value base acc [] = acc
value base acc (d ∷ ds) = value base (acc * base + d) ds

exceeds_lem :
    (base acc d : ℕ) → 0 < base → d < base → exceeds base acc d ≡ ltb ulong_max (acc * base + d)
unfolding exceeds
exceeds_lem base acc d pos h = grind arith

value-ge : (base acc : ℕ) (ds : List ℕ) → 0 < base → acc ≤ value base acc ds
unfolding value
value-ge base acc [] pos = omega arith
value-ge base acc (d ∷ ds) pos =
    let above = value-ge base (acc * base + d) ds pos in
    let grown : acc ≤ acc * base = grind arith in omega arith

-- Once the number has left the range, the loop only skips the digits.
digits-overflow :
    (base : ℕ) (r : List ℕ) (acc : ℕ)
    → digits base r acc overflow ≡ (acc, overflow, drop (length (leading base r)) r)
unfolding digits leading
digits-overflow base [] acc = refl
digits-overflow base (c ∷ s) acc = elim (Option-cases (digit_of c)) [
  | inl n ↦ rw (n, digits, leading)
  | inr (d, h) ↦ elim (Bool-cases (leb base d)) [
    | inl big ↦ rw (h, big, digits, leading)
    | inr small ↦ rw (h, small, digits, leading) (digits-overflow base s acc)
  ]
]

-- How the loop ends, from a number in range: with the value of all the digits, or out of range.
abbrev pub Ended : (base : ℕ) → List ℕ → (acc : ℕ) → (ℕ × Any × List ℕ) → Any → Type 0
Ended base r acc (n, any, rest) seen =
    (rest ≡ drop (length (leading base r)) r)
    × (((value base acc (leading base r) ≤ ulong_max)
          × (n ≡ value base acc (leading base r))
          × (any ≡ seen))
        ⊎ ((ulong_max < value base acc (leading base r)) × (any ≡ overflow)))

abbrev pub seen_digit : List ℕ → Any → Any
seen_digit [] any = any
seen_digit (d ∷ ds) any = any_digit

abbrev pub IsInRange : Any → Type 0
IsInRange overflow = ⊥
IsInRange no_digit = Unit {0}
IsInRange any_digit = Unit {0}

seen_digit-any_digit : (ds : List ℕ) → seen_digit ds any_digit ≡ any_digit
seen_digit-any_digit [] = refl
seen_digit-any_digit (d ∷ ds) = refl

is_overflow-IsInRange : (any : Any) → IsInRange any → is_overflow any ≡ false
is_overflow-IsInRange no_digit h = refl
is_overflow-IsInRange any_digit h = refl
is_overflow-IsInRange overflow h = absurd h

digits-Ended :
    (base : ℕ) (r : List ℕ) (acc : ℕ) (any : Any)
    → 0 < base
    → acc ≤ ulong_max
    → IsInRange any
    → Ended base r acc (digits base r acc any) (seen_digit (leading base r) any)
unfolding digits leading value
digits-Ended base [] acc any pos h k = (refl, inl (h, refl, refl))
digits-Ended base (c ∷ s) acc any pos h k = elim (Option-cases (digit_of c)) [
  | inl n ↦ rw (n, digits, leading) (refl, inl (h, refl, refl))
  | inr (d, e) ↦ elim (Bool-cases (leb base d)) [
    | inl big ↦ rw (e, big, digits, leading) (refl, inl (h, refl, refl))
    | inr small ↦
        let below : d < base = ground arith in
        let test = exceeds_lem base acc d pos below in
        let fresh = is_overflow-IsInRange any k in
        elim (Bool-cases (ltb ulong_max (acc * base + d))) [
          | inl over ↦
              let above = value-ge base (acc * base + d) (leading base s) pos in
              rw (e, small, fresh, test, over, digits, leading)
                (rw (digits-overflow base s acc) (refl, inr (ground arith, refl)))
          | inr fits ↦
              let same : add32 (mul32 acc base) d ≡ acc * base + d = ground arith in
              let rest = digits-Ended base s (acc * base + d) any_digit pos (ground arith) tt in
              rw (e, small, fresh, test, fits, digits, leading)
                (rw same (
                  subst (Ended base s (acc * base + d) (digits base s (acc * base + d) any_digit))
                    (seen_digit-any_digit (leading base s)) rest))
        ]
  ]
]

-- What is to be returned for digits `ds` behind `neg`, with `left` behind them in `text`.
unfoldable pub read_number : (base : ℕ) (text : List ℕ) (neg : Bool) (ds left : List ℕ) → ℕ × ℕ
read_number base text neg ds left = (
  if ltb ulong_max (value base 0 ds)
      then ulong_max
      else if neg
      then sub32 0 (value base 0 ds)
      else value base 0 ds,
  elim ds [ [] ↦ 0 | d ∷ _ ↦ length text - length left ],
)

finish_lem :
    (base : ℕ) (text : List ℕ) (neg : Bool) (r ds : List ℕ) (n : ℕ) (any : Any) (rest : List ℕ)
    → rest ≡ drop (length ds) r
    → ((value base 0 ds ≤ ulong_max) × (n ≡ value base 0 ds) × (any ≡ seen_digit ds no_digit))
      ⊎ ((ulong_max < value base 0 ds) × (any ≡ overflow))
    → finish text neg (n, any, rest) ≡ read_number base text neg ds (drop (length ds) r)
unfolding finish read_number value
finish_lem base text neg r [] n any rest e (inl (fits, same, seen)) =
    rw (seen, same, finish) (ground arith)
finish_lem base text neg r (d ∷ ds) n any rest e (inl (fits, same, seen)) =
    rw (seen, same, e, finish) (ground arith)
finish_lem base text neg r [] n any rest e (inr (over, seen)) = absurd (omega arith)
finish_lem base text neg r (d ∷ ds) n any rest e (inr (over, seen)) =
    rw (seen, e, finish) (ground arith)

take_base-pos : (base : ℕ) (r : List ℕ) → 0 < (take_base base r).0
unfolding take_base
take_base-pos base r = ground arith

-- Behind blanks, a sign and the prefix of a base, `strtoul` reads as many digits of the base as
-- there are. It returns their value, negated modulo 2 ^ 32 after a minus sign, or ULONG_MAX where
-- the value does not fit, whatever the sign; and the end pointer stands behind the last digit, or
-- at the start of the text where there is no digit.
pub strtoul-read_number :
    (text : List ℕ) (base : ℕ)
    → let signed = take_sign (skip_spaces text) in
      let used = take_base base signed.1 in
      let ds = leading used.0 used.1 in
      strtoul text base ≡ read_number used.0 text signed.0 ds (drop (length ds) used.1)
unfolding strtoul
strtoul-read_number text base =
    let signed = take_sign (skip_spaces text) in
    let used = take_base base signed.1 in
    let ended =
      digits-Ended used.0 used.1 0 no_digit (take_base-pos base signed.1) (omega arith) tt in
    finish_lem used.0 text signed.0 used.1 (leading used.0 used.1) _ _ _ ended.0 ended.1
