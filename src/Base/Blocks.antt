-- ===== src/Base/Blocks.antt =====
-- Runs of bytes in the memory.
use Prim.Native.Nat.{ℕ, zero, suc, ◌+◌, ◌-◌, ◌/◌, ◌%◌, ◌<◌, ◌≤◌}
use mathlib.Core.List.{List, [], ◌∷◌, ◌++◌}
use mathlib.Core.Path.{◌≡◌, refl, ap, ◌∙◌, subst}
use mathlib.Core.Logic.{◌⊎◌, inl}
use native.Mathlib.Omega.{arith}
use xnu_uboot_arm.Base.Lists.{length, length-append, replicate}
use xnu_uboot_arm.Base.Words.{word}
use xnu_uboot_arm.Base.Bytes.{
  Ram, read8, write8, read32, write32, bzero, SameOutside, read8-SameOutside, write32-SameOutside,
}

-- The bytes from `p` on become `bs`.
unfoldable pub write_bytes : Ram → ℕ → List ℕ → Ram
write_bytes m p [] = m
write_bytes m p (x ∷ xs) = write_bytes (write8 m p x) (p + 1) xs

-- The bytes from `p` on are `bs`.
abbrev pub Holds : Ram → ℕ → List ℕ → Type 0
Holds m p [] = Unit {0}
Holds m p (x ∷ xs) = (read8 m p ≡ x) × Holds m (p + 1) xs

abbrev pub AllBytes : List ℕ → Type 0
AllBytes [] = Unit {0}
AllBytes (x ∷ xs) = (x < 256) × AllBytes xs

-- The `n` bytes from `p` on are zero.
abbrev pub Zeros : Ram → ℕ → ℕ → Type 0
Zeros m p n = (a : ℕ) → p ≤ a → a < p + n → read8 m a ≡ 0

-- A word as four bytes, the lowest first.
abbrev pub le32 : ℕ → List ℕ
le32 v = v % 256 ∷ (v / 256 % 256) ∷ (v / 65536 % 256) ∷ (v / 16777216 % 256) ∷ []

write8-SameOutside : (m : Ram) (p v : ℕ) → SameOutside p 1 m (write8 m p v)
unfolding write8
write8-SameOutside m p v a h = ground arith

pub write_bytes-SameOutside :
    (m : Ram) (p : ℕ) (bs : List ℕ) → SameOutside p (length bs) m (write_bytes m p bs)
unfolding write_bytes
write_bytes-SameOutside m p [] a h = refl
write_bytes-SameOutside m p (x ∷ xs) a h =
    ground (arith, write_bytes-SameOutside (write8 m p x) (p + 1) xs a, write8-SameOutside m p x a)

pub write_bytes-Holds :
    (m : Ram) (p : ℕ) (bs : List ℕ) → AllBytes bs → Holds (write_bytes m p bs) p bs
unfolding write_bytes read8
write_bytes-Holds m p [] h = tt
write_bytes-Holds m p (x ∷ xs) h = (head, write_bytes-Holds (write8 m p x) (p + 1) xs h.1)
  where
    written : write8 m p x p ≡ x
    written = unfold write8 in ground (arith, h.0)

    head : write_bytes (write8 m p x) (p + 1) xs p % 256 ≡ x
    head = ground (
      arith,
      h.0,
      written,
      write_bytes-SameOutside (write8 m p x) (p + 1) xs p (inl (omega arith)),
    )

pub write32-Holds : (m : Ram) (p v : ℕ) → Holds (write32 m p v) p (le32 v)
unfolding write32 read8
write32-Holds m p v = (ground arith, (ground arith, (ground arith, (ground arith, tt))))

pub Holds-SameOutside :
    (lo n : ℕ) (m m' : Ram) (a : ℕ) (bs : List ℕ)
    → SameOutside lo n m m'
    → (a + length bs ≤ lo) ⊎ (lo + n ≤ a)
    → Holds m a bs
    → Holds m' a bs
Holds-SameOutside lo n m m' a [] same out h = tt
Holds-SameOutside lo n m m' a (x ∷ xs) same out h = (
  read8-SameOutside lo n m m' a same (ground arith) ∙ h.0,
  Holds-SameOutside lo n m m' (a + 1) xs same (ground arith) h.1,
)

pub Zeros-SameOutside :
    (lo n : ℕ) (m m' : Ram) (a k : ℕ)
    → SameOutside lo n m m'
    → (a + k ≤ lo) ⊎ (lo + n ≤ a)
    → Zeros m a k
    → Zeros m' a k
Zeros-SameOutside lo n m m' a k same out z b h i =
    read8-SameOutside lo n m m' b same (ground arith) ∙ z b h i

pub Holds-at : (m : Ram) (a b : ℕ) (bs : List ℕ) → a ≡ b → Holds m a bs → Holds m b bs
Holds-at m a b bs e h = subst (λ (c : ℕ). Holds m c bs) e h

pub Holds-append :
    (m : Ram) (a : ℕ) (xs ys : List ℕ)
    → Holds m a xs
    → Holds m (a + length xs) ys
    → Holds m a (xs ++ ys)
Holds-append m a [] ys h k = Holds-at m (a + 0) a ys (omega arith) k
Holds-append m a (x ∷ xs) ys h k = (
  h.0,
  Holds-append m (a + 1) xs ys h.1
      (Holds-at m (a + suc (length xs)) (a + 1 + length xs) ys (omega arith) k),
)

pub Zeros-Holds : (m : Ram) (a n : ℕ) → Zeros m a n → Holds m a (replicate n 0)
Zeros-Holds m a zero z = tt
Zeros-Holds m a (suc n) z = (
  z a (omega arith) (omega arith),
  Zeros-Holds m (a + 1) n (λ b h k. z b (omega arith) (omega arith)),
)

-- The memory at `a` becomes `bs`, and nothing else changes.
abbrev pub Writes : (a : ℕ) → List ℕ → Ram → Ram → Type 0
Writes a bs m m' = Holds m' a bs × SameOutside a (length bs) m m'

pub write_bytes-Writes :
    (m : Ram) (p : ℕ) (bs : List ℕ) → AllBytes bs → Writes p bs m (write_bytes m p bs)
write_bytes-Writes m p bs h = (write_bytes-Holds m p bs h, write_bytes-SameOutside m p bs)

-- Bytes that are zero already need no write.
pub Zeros-Writes : (m : Ram) (a n : ℕ) → Zeros m a n → Writes a (replicate n 0) m m
Zeros-Writes m a n z = (Zeros-Holds m a n z, λ b out. refl)

pub Writes-append :
    (a : ℕ) (xs ys : List ℕ) (m m1 m2 : Ram)
    → Writes a xs m m1
    → Writes (a + length xs) ys m1 m2
    → Writes a (xs ++ ys) m m2
Writes-append a xs ys m m1 m2 w v = (
  Holds-append m2 a xs ys
      (Holds-SameOutside (a + length xs) (length ys) m1 m2 a xs v.1 (inl (omega arith)) w.0) v.0,
  λ b out. ground (arith, length-append xs ys, v.1 b, w.1 b),
)

pub Writes-at : (a b : ℕ) (bs : List ℕ) (m m' : Ram) → a ≡ b → Writes a bs m m' → Writes b bs m m'
Writes-at a b bs m m' e w = subst (λ (c : ℕ). Writes c bs m m') e w

pub Zeros-part : (m : Ram) (a n b k : ℕ) → a ≤ b → b + k ≤ a + n → Zeros m a n → Zeros m b k
Zeros-part m a n b k h l z c i j = z c (omega arith) (omega arith)

pub write32-Writes : (m : Ram) (p v : ℕ) → Writes p (le32 v) m (write32 m p v)
write32-Writes m p v = (write32-Holds m p v, write32-SameOutside m p v)

-- What a write leaves of a run of zeros.
pub Zeros-rest :
    (m m' : Ram) (a n k : ℕ) → SameOutside a k m m' → Zeros m a n → Zeros m' (a + k) (n - k)
Zeros-rest m m' a n k same z b h i =
    read8-SameOutside a k m m' b same (ground arith) ∙ z b (omega arith) (omega arith)

-- Memories that agree on a run hold the same there.
pub Holds-same :
    (m m' : Ram) (a : ℕ) (bs : List ℕ)
    → ((c : ℕ) → a ≤ c → c < a + length bs → m' c ≡ m c)
    → Holds m a bs
    → Holds m' a bs
unfolding read8
Holds-same m m' a [] same h = tt
Holds-same m m' a (x ∷ xs) same h = (
  ap (λ v. v % 256) (same a (omega arith) (omega arith)) ∙ h.0,
  Holds-same m m' (a + 1) xs (λ c l k. same c (omega arith) (omega arith)) h.1,
)

pub Zeros-same :
    (m m' : Ram) (a n : ℕ) → ((c : ℕ) → a ≤ c → c < a + n → m' c ≡ m c) → Zeros m a n → Zeros m' a n
unfolding read8
Zeros-same m m' a n same z c l k = ap (λ v. v % 256) (same c l k) ∙ z c l k

pub bzero-Zeros : (m : Ram) (a n : ℕ) → Zeros (bzero m a n) a n
unfolding bzero read8
bzero-Zeros m a n c l k = ground arith

pub Holds-left : (m : Ram) (a : ℕ) (xs ys : List ℕ) → Holds m a (xs ++ ys) → Holds m a xs
Holds-left m a [] ys h = tt
Holds-left m a (x ∷ xs) ys h = (h.0, Holds-left m (a + 1) xs ys h.1)

pub Holds-right :
    (m : Ram) (a : ℕ) (xs ys : List ℕ) → Holds m a (xs ++ ys) → Holds m (a + length xs) ys
Holds-right m a [] ys h = Holds-at m a (a + 0) ys (omega arith) h
Holds-right m a (x ∷ xs) ys h =
    Holds-at m (a + 1 + length xs) (a + suc (length xs)) ys (omega arith)
      (Holds-right m (a + 1) xs ys h.1)

pub Holds-read32 : (m : Ram) (a v : ℕ) → v < word → Holds m a (le32 v) → read32 m a ≡ v
unfolding read32
Holds-read32 m a v small (e0, (e1, (e2, (e3, end)))) = grind (arith, small, e0, e1, e2, e3)
