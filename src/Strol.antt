-- ===== src/Strol.antt =====
-- main/strol.c: `strtoul`. A C string is the list of its bytes before the NUL; `unsigned long` has 32
-- bits. The base is not negative, and `r` is the text from the character that `c` holds on.
pub mod Value
mod Tests
use xnu_uboot_arm.Base.{
  ℕ, zero, suc, ◌+◌, ◌-◌, ◌/◌, ◌%◌, Bool, true, false, ◌&&◌, ◌||◌, not, Option, none, some, List,
  [], ◌∷◌, ltb, leb, ◌==◌, if◌then◌else◌, add32, sub32, mul32, get_or, length, drop,
}

abbrev pub ulong_max : ℕ
ulong_max = 0xFFFF_FFFF

abbrev pub isupper : ℕ → Bool
isupper c = leb b'A' c && leb c b'Z'

abbrev pub isalpha : ℕ → Bool
isalpha c = leb b'A' c && leb c b'Z' || leb b'a' c && leb c b'z'

-- A blank, a tab or a newline; '\12' is a newline again.
abbrev pub isspace : ℕ → Bool
isspace c = c == 32 || c == 9 || c == 10

abbrev pub isdigit : ℕ → Bool
isdigit c = leb b'0' c && leb c b'9'

-- `*s` for the text `s`: zero at its end.
abbrev pub at : List ℕ → ℕ → ℕ
at s i = get_or s i 0

unfoldable pub skip_spaces : List ℕ → List ℕ
skip_spaces [] = []
skip_spaces (c ∷ s) = if isspace c then skip_spaces s else c ∷ s

-- Is the number negative, and the text behind the sign.
unfoldable pub take_sign : List ℕ → Bool × List ℕ
take_sign r =
    if at r 0 == b'-'
    then (true, drop 1 r)
    else if at r 0 == b'+'
    then (false, drop 1 r)
    else (false, r)

-- The base, and the text behind "0x" or "0b".
unfoldable pub take_base : (base : ℕ) → List ℕ → ℕ × List ℕ
take_base base r =
    if (base == 0 || base == 16) && at r 0 == b'0' && (at r 1 == b'x' || at r 1 == b'X')
    then (16, drop 2 r)
    else if (base == 0 || base == 2) && at r 0 == b'0' && (at r 1 == b'b' || at r 1 == b'B')
    then (2, drop 2 r)
    else if base == 0
    then (if at r 0 == b'0' then 8 else 10, r)
    else (base, r)

-- The value of a character as a digit.
unfoldable pub digit_of : ℕ → Option ℕ
digit_of c =
    if isdigit c
    then some (c - b'0')
    else if isalpha c
    then some (if isupper c then c - b'A' + 10 else c - b'a' + 10)
    else none

-- The variable `any`: 0, 1 and -1.
pub data Any : Type 0 where
  no_digit any_digit overflow : Any

abbrev pub is_overflow : Any → Bool
is_overflow overflow = true
is_overflow _ = false

-- Does `acc * base + c` leave an `unsigned long`?
unfoldable pub exceeds : (base acc c : ℕ) → Bool
exceeds base acc c =
    ltb (ulong_max / base) acc || acc == ulong_max / base && ltb (ulong_max % base) c

-- The loop over the digits: the number, `any` and the text that is left.
unfoldable pub digits : (base : ℕ) → List ℕ → (acc : ℕ) → Any → ℕ × Any × List ℕ
digits base [] acc any = (acc, any, [])
digits base (c ∷ s) acc any = elim (digit_of c) [
  | none ↦ (acc, any, c ∷ s)
  | some d ↦ elim (leb base d) [
    | true ↦ (acc, any, c ∷ s)
    | false ↦ elim (is_overflow any || exceeds base acc d) [
      | true ↦ digits base s acc overflow
      | false ↦ digits base s (add32 (mul32 acc base) d) any_digit
    ]
  ]
]

-- What is returned, and how many characters lie before `*endptr`.
unfoldable pub finish : (text : List ℕ) (neg : Bool) → ℕ × Any × List ℕ → ℕ × ℕ
finish text neg (acc, no_digit, r) = (if neg then sub32 0 acc else acc, 0)
finish text neg (acc, any_digit, r) = (if neg then sub32 0 acc else acc, length text - length r)
finish text neg (acc, overflow, r) = (ulong_max, length text - length r)

unfoldable pub strtoul : (nptr : List ℕ) (base : ℕ) → ℕ × ℕ
strtoul nptr base =
    let (neg, signed) = take_sign (skip_spaces nptr) in
    let (used, r) = take_base base signed in finish nptr neg (digits used r 0 no_digit)
