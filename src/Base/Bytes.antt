-- ===== src/Base/Bytes.antt =====
-- The byte memory of the machine. A byte is the cell's value modulo 256; words are little endian,
-- as on the 32-bit ARM boards that the loader runs on. `bcopy` and `bzero` are the C library's.
use Prim.Native.Nat.{ℕ, zero, suc, ◌+◌, ◌-◌, ◌*◌, ◌/◌, ◌%◌, ◌<◌, ◌≤◌}
use mathlib.Core.List.{List, [], ◌∷◌}
use mathlib.Core.Path.{◌≡◌}
use mathlib.Core.Bool.{Bool, ◌&&◌}
use mathlib.Core.Logic.{◌⊎◌}
use native.Mathlib.Omega.{arith}
use xnu_uboot_arm.Base.Tests.{ltb, leb, ◌==◌, if◌then◌else◌}
use xnu_uboot_arm.Base.Words.{word}

abbrev pub Ram : Type 0
Ram = ℕ → ℕ

unfoldable pub read8 : Ram → ℕ → ℕ
read8 m a = m a % 256

unfoldable pub read16 : Ram → ℕ → ℕ
unfolding read8
read16 m a = read8 m a + 256 * read8 m (a + 1)

unfoldable pub read32 : Ram → ℕ → ℕ
unfolding read16
read32 m a = read16 m a + 65536 * read16 m (a + 2)

-- Is `a` one of the `n` addresses from `lo` on?
abbrev pub within : ℕ → ℕ → ℕ → Bool
within lo n a = leb lo a && ltb a (lo + n)

unfoldable pub write8 : Ram → ℕ → ℕ → Ram
write8 m p v a = if a == p then v % 256 else m a

-- `*(uint32_t*)p = v`
unfoldable pub write32 : Ram → ℕ → ℕ → Ram
write32 m p v a =
    if a == p
    then v % 256
    else if a == p + 1
    then v / 256 % 256
    else if a == p + 2
    then v / 65536 % 256
    else if a == p + 3
    then v / 16777216 % 256
    else m a

-- `bcopy(src, dst, n)`: the regions may overlap.
unfoldable pub bcopy : Ram → ℕ → ℕ → ℕ → Ram
unfolding read8
bcopy m src dst n a = if within dst n a then read8 m (src + (a - dst)) else m a

-- `bzero(dst, n)`
unfoldable pub bzero : Ram → ℕ → ℕ → Ram
bzero m dst n a = if within dst n a then 0 else m a

-- The two memories differ at most at the `n` addresses from `lo` on.
abbrev pub SameOutside : ℕ → ℕ → Ram → Ram → Type 0
SameOutside lo n m m' = (a : ℕ) → (a < lo) ⊎ (lo + n ≤ a) → m' a ≡ m a

pub read32-lt : (m : Ram) (a : ℕ) → read32 m a < word
unfolding read32
read32-lt m a = omega arith

pub bcopy-inside :
    (m : Ram) (src dst n i : ℕ) → i < n → read8 (bcopy m src dst n) (dst + i) ≡ read8 m (src + i)
unfolding bcopy
bcopy-inside m src dst n i h = let e : dst + i - dst ≡ i = omega arith in rw e (ground arith)

pub bcopy-SameOutside : (m : Ram) (src dst n : ℕ) → SameOutside dst n m (bcopy m src dst n)
unfolding bcopy
bcopy-SameOutside m src dst n a h = ground arith

pub bzero-inside : (m : Ram) (dst n i : ℕ) → i < n → read8 (bzero m dst n) (dst + i) ≡ 0
unfolding bzero read8
bzero-inside m dst n i h = ground arith

pub bzero-SameOutside : (m : Ram) (dst n : ℕ) → SameOutside dst n m (bzero m dst n)
unfolding bzero
bzero-SameOutside m dst n a h = ground arith

pub write32-SameOutside : (m : Ram) (p v : ℕ) → SameOutside p 4 m (write32 m p v)
unfolding write32
write32-SameOutside m p v a h = ground arith

pub write32-read32 : (m : Ram) (p v : ℕ) → v < word → read32 (write32 m p v) p ≡ v
unfolding write32 read32
write32-read32 m p v h = ground arith

-- The `n` bytes from `p` on.
unfoldable pub read_bytes : Ram → ℕ → ℕ → List ℕ
unfolding read8
read_bytes m p zero = []
read_bytes m p (suc n) = read8 m p ∷ read_bytes m (p + 1) n

pub read8-SameOutside :
    (lo n : ℕ) (m m' : Ram) (a : ℕ)
    → SameOutside lo n m m'
    → (a < lo) ⊎ (lo + n ≤ a)
    → read8 m' a ≡ read8 m a
unfolding read8
read8-SameOutside lo n m m' a same out = ground (arith, same a)

-- A word that lies outside is unchanged too.
pub read32-SameOutside :
    (lo n : ℕ) (m m' : Ram) (a : ℕ)
    → SameOutside lo n m m'
    → (a + 4 ≤ lo) ⊎ (lo + n ≤ a)
    → read32 m' a ≡ read32 m a
unfolding read32 read16 read8
read32-SameOutside lo n m m' a same out =
    ground (arith, same a, same (a + 1), same (a + 2), same (a + 2 + 1))

pub SameOutside-trans :
    (lo n : ℕ) (m m' m'' : Ram)
    → SameOutside lo n m m'
    → SameOutside lo n m' m''
    → SameOutside lo n m m''
SameOutside-trans lo n m m' m'' p q a h = ground (arith, p a, q a)

pub SameOutside-widen :
    (lo n lo' n' : ℕ) (m m' : Ram)
    → lo' ≤ lo
    → lo + n ≤ lo' + n'
    → SameOutside lo n m m'
    → SameOutside lo' n' m m'
SameOutside-widen lo n lo' n' m m' h k p a out = p a (ground arith)
