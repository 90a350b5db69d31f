-- ===== src/Lzss/Adler.antt =====
-- compressed/lzss.c: `adler32`, the checksum that takes its remainders once for a block of bytes.
use native.Mathlib.Nat.{mul-le-mul, mul-le-mul_left}
use xnu_uboot_arm.Base.{
  ℕ, zero, suc, ◌+◌, ◌*◌, ◌%◌, ◌<◌, ◌≤◌, ◌≡◌, refl, sym, ap, ◌∙◌, List, [], ◌∷◌, ◌++◌, length, take,
  drop, length-take, length-drop, take-append-drop, add32, mul32, word, AllBytes, arith,
}

-- BASE and NMAX
abbrev base : ℕ
base = 65521

abbrev nmax : ℕ
nmax = 5000

-- DO1; DO16 is sixteen of these in order, and the loop behind it the rest of a block.
unfoldable pub do1 : ℕ × ℕ → (byte : ℕ) → ℕ × ℕ
do1 (s1, s2) byte = let t = add32 s1 byte in (t, add32 s2 t)

unfoldable pub sum_block : ℕ × ℕ → List ℕ → ℕ × ℕ
sum_block s [] = s
sum_block s (x ∷ xs) = sum_block (do1 s x) xs

-- The loop over the blocks; each has a byte, so the number of bytes is enough fuel.
unfoldable pub sum_blocks : (fuel : ℕ) → ℕ × ℕ → List ℕ → ℕ × ℕ
sum_blocks zero s bs = s
sum_blocks (suc fuel) s [] = s
sum_blocks (suc fuel) s (x ∷ xs) =
    let (s1, s2) = sum_block s (take nmax (x ∷ xs)) in
    sum_blocks fuel (s1 % base, s2 % base) (drop nmax (x ∷ xs))

-- `(s2 << 16) | s1`, where `s1` is below 2 ^ 16
unfoldable pub adler32 : List ℕ → ℕ
adler32 buf = let (s1, s2) = sum_blocks (length buf) (1, 0) buf in add32 (mul32 s2 65536) s1

-- The checksum as it is defined: a remainder after each byte.
unfoldable pub checksum : ℕ × ℕ → List ℕ → ℕ × ℕ
checksum s [] = s
checksum (a, b) (x ∷ xs) = let a' = (a + x) % base in checksum (a', (b + a') % base) xs

unfoldable tri : ℕ → ℕ
tri zero = 0
tri (suc n) = tri n + suc n

tri-double : (n : ℕ) → tri n + tri n ≡ n * (n + 1)
unfolding tri
tri-double zero = refl
tri-double (suc n) = grind (arith, tri-double n)

tri-le : (n m : ℕ) → n ≤ m → tri n ≤ tri m
unfolding tri
tri-le n zero h = grind (arith, h)
tri-le zero (suc m) h = omega arith
tri-le (suc n) (suc m) h = omega (arith, tri-le n m (omega (arith, h)))

the_le : (a : ℕ) → a < base → a ≤ 65520
the_le a h = omega (arith, h)

room :
    (n s1 s2 x : ℕ)
    → x < 256
    → s2 + suc n * s1 + 255 * (tri n + suc n) < word
    → s2 + (s1 + x) + n * (s1 + x) + 255 * tri n < word
room n s1 s2 x h small =
    let most : n * x ≤ n * 255 = mul-le-mul_left n (omega (arith, h)) in
    grind (arith, most, small, h)

sum_step :
    (s1 s2 x : ℕ) (xs : List ℕ)
    → s1 + x < word
    → s2 + (s1 + x) < word
    → sum_block (s1, s2) (x ∷ xs) ≡ sum_block (s1 + x, s2 + (s1 + x)) xs
unfolding sum_block do1
sum_step s1 s2 x xs h k =
    let low : add32 s1 x ≡ s1 + x = omega (arith, h) in
    let high : add32 s2 (s1 + x) ≡ s2 + (s1 + x) = omega (arith, k) in
    let both : do1 (s1, s2) x ≡ (s1 + x, s2 + (s1 + x)) = rw (low, high) refl in
    ap (λ (s : ℕ × ℕ). sum_block s xs) both

checksum_step :
    (s1 s2 x : ℕ) (xs : List ℕ)
    → checksum (s1 % base, s2 % base) (x ∷ xs)
      ≡ checksum ((s1 + x) % base, (s2 + (s1 + x)) % base) xs
unfolding checksum
checksum_step s1 s2 x xs =
    let a : (s1 % base + x) % base ≡ (s1 + x) % base = omega arith in
    let b : (s2 % base + (s1 % base + x) % base) % base ≡ (s2 + (s1 + x)) % base = omega arith in
    let both : ((s1 % base + x) % base, (s2 % base + (s1 % base + x) % base) % base)
        ≡ ((s1 + x) % base, (s2 + (s1 + x)) % base) =
      rw (b, a) refl in
    ap (λ (s : ℕ × ℕ). checksum s xs) both

sum_block-checksum :
    (xs : List ℕ) (s1 s2 : ℕ)
    → AllBytes xs
    → s2 + length xs * s1 + 255 * tri (length xs) < word
    → ((sum_block (s1, s2) xs).0 % base ≡ (checksum (s1 % base, s2 % base) xs).0)
      × ((sum_block (s1, s2) xs).1 % base ≡ (checksum (s1 % base, s2 % base) xs).1)
unfolding tri
sum_block-checksum [] s1 s2 bytes small = unfold sum_block checksum in (refl, refl)
sum_block-checksum (x ∷ xs) s1 s2 bytes small =
    let n = length xs in
    let grown : s2 + (s1 + x) + n * (s1 + x) + 255 * tri n < word = room n s1 s2 x bytes.0 small in
    rw (sum_step s1 s2 x xs (omega (arith, grown)) (omega (arith, grown)), checksum_step s1 s2 x xs)
      (sum_block-checksum xs (s1 + x) (s2 + (s1 + x)) bytes.1 grown)

checksum-append : (s : ℕ × ℕ) (xs ys : List ℕ) → checksum s (xs ++ ys) ≡ checksum (checksum s xs) ys
unfolding checksum
checksum-append s [] ys = refl
checksum-append (a, b) (x ∷ xs) ys =
    checksum-append ((a + x) % base, (b + (a + x) % base) % base) xs ys

block_fits : (n s1 s2 : ℕ) → n ≤ nmax → s1 < base → s2 < base → s2 + n * s1 + 255 * tri n < word
block_fits n s1 s2 h a b =
    omega (arith, mul-le-mul h (the_le s1 a), tri-le n nmax h, tri-double nmax)

take-AllBytes : (n : ℕ) (bs : List ℕ) → AllBytes bs → AllBytes (take n bs)
take-AllBytes zero bs h = tt
take-AllBytes (suc n) [] h = tt
take-AllBytes (suc n) (x ∷ xs) h = (h.0, take-AllBytes n xs h.1)

drop-AllBytes : (n : ℕ) (bs : List ℕ) → AllBytes bs → AllBytes (drop n bs)
drop-AllBytes zero bs h = h
drop-AllBytes (suc n) [] h = tt
drop-AllBytes (suc n) (x ∷ xs) h = drop-AllBytes n xs h.1

one_block :
    (n s1 s2 : ℕ) (bs : List ℕ)
    → n ≤ nmax
    → s1 < base
    → s2 < base
    → AllBytes bs
    → checksum
        ((sum_block (s1, s2) (take n bs)).0 % base, (sum_block (s1, s2) (take n bs)).1 % base)
        (drop n bs)
      ≡ checksum (s1, s2) bs
one_block n s1 s2 bs h a b bytes =
    let head = take n bs in
    let fits = block_fits (length head) s1 s2 (omega (arith, h, length-take n bs)) a b in
    let sums = sum_block-checksum head s1 s2 (take-AllBytes n bs bytes) fits in
    let e1 : s1 % base ≡ s1 = omega (arith, a) in
    let e2 : s2 % base ≡ s2 = omega (arith, b) in
    let start : checksum (s1 % base, s2 % base) head ≡ checksum (s1, s2) head = rw (e1, e2) refl in
    let block : ((sum_block (s1, s2) head).0 % base, (sum_block (s1, s2) head).1 % base)
        ≡ checksum (s1, s2) head =
      rw (sums.0, sums.1) start in
    ap (λ (s : ℕ × ℕ). checksum s (drop n bs)) block
    ∙ sym (checksum-append (s1, s2) head (drop n bs))
    ∙ ap (checksum (s1, s2)) (take-append-drop n bs)

next_blocks :
    (fuel n s1 s2 : ℕ) (bs : List ℕ)
    → sum_blocks fuel
        ((sum_block (s1, s2) (take n bs)).0 % base, (sum_block (s1, s2) (take n bs)).1 % base)
        (drop n bs)
      ≡ checksum
          ((sum_block (s1, s2) (take n bs)).0 % base, (sum_block (s1, s2) (take n bs)).1 % base)
          (drop n bs)
    → n ≤ nmax
    → s1 < base
    → s2 < base
    → AllBytes bs
    → sum_blocks fuel
        ((sum_block (s1, s2) (take n bs)).0 % base, (sum_block (s1, s2) (take n bs)).1 % base)
        (drop n bs)
      ≡ checksum (s1, s2) bs
next_blocks fuel n s1 s2 bs e h a b bytes = e ∙ one_block n s1 s2 bs h a b bytes

sum_blocks-checksum :
    (fuel s1 s2 : ℕ) (bs : List ℕ)
    → length bs ≤ fuel
    → s1 < base
    → s2 < base
    → AllBytes bs
    → sum_blocks fuel (s1, s2) bs ≡ checksum (s1, s2) bs
unfolding sum_blocks
sum_blocks-checksum zero s1 s2 [] enough a b bytes = unfold checksum in refl
sum_blocks-checksum zero s1 s2 (x ∷ xs) enough a b bytes = absurd (omega (arith, enough))
sum_blocks-checksum (suc fuel) s1 s2 [] enough a b bytes = unfold checksum in refl
sum_blocks-checksum (suc fuel) s1 s2 (x ∷ xs) enough a b bytes =
    let bs = x ∷ xs in
    let r = sum_block (s1, s2) (take nmax bs) in
    next_blocks fuel nmax s1 s2 bs
      (sum_blocks-checksum fuel (r.0 % base) (r.1 % base) (drop nmax bs)
        (omega (arith, enough, length-drop nmax bs)) (omega arith) (omega arith)
        (drop-AllBytes nmax bs bytes))
      (omega arith) a b bytes

checksum-lt :
    (bs : List ℕ) (s1 s2 : ℕ)
    → s1 < base
    → s2 < base
    → ((checksum (s1, s2) bs).0 < base) × ((checksum (s1, s2) bs).1 < base)
unfolding checksum
checksum-lt [] s1 s2 a b = (a, b)
checksum-lt (x ∷ xs) s1 s2 a b =
    checksum-lt xs ((s1 + x) % base) ((s2 + (s1 + x) % base) % base) (omega arith) (omega arith)

-- On any bytes, `adler32` is the checksum that takes a remainder after each byte, the second sum
-- above the first: within a block of NMAX bytes no sum leaves 32 bits.
pub adler32-checksum :
    (buf : List ℕ)
    → AllBytes buf
    → adler32 buf ≡ (checksum (1, 0) buf).1 * 65536 + (checksum (1, 0) buf).0
unfolding adler32
adler32-checksum buf bytes =
    let small = checksum-lt buf 1 0 (omega arith) (omega arith) in
    rw (sum_blocks-checksum (length buf) 1 0 buf (omega arith) (omega arith) (omega arith) bytes)
      (omega (arith, small.0, small.1))
