-- ===== src/DeviceTree/Find/Path.antt =====
-- The names between the slashes of a path, and how `DT__FindNode` takes them off it.
use xnu_uboot_arm.Base.{
  ℕ, zero, suc, ◌+◌, ◌≤◌, ◌≡◌, ◌≢◌, sym, ◌∙◌, refl, ap, true, false, List, [], ◌∷◌, ◌==◌,
  if◌then◌else◌, length, arith, Bool-cases, inl, inr,
}
use xnu_uboot_arm.DeviceTree.Find.{skip_slashes, take_name}

-- The characters before the first slash, and what follows them.
unfoldable pub first_name : List ℕ → List ℕ
first_name [] = []
first_name (c ∷ path) = let rest = first_name path in if c == b'/' then [] else c ∷ rest

unfoldable pub behind : List ℕ → List ℕ
behind [] = []
behind (c ∷ path) = let rest = behind path in if c == b'/' then c ∷ path else rest

-- The names between the slashes: the parts that are not empty.
unfoldable pub prepend : ℕ → List (List ℕ) → List (List ℕ)
prepend c [] = (c ∷ []) ∷ []
prepend c (name ∷ names) = (c ∷ name) ∷ names

unfoldable pub parts : List ℕ → List (List ℕ)
parts [] = [] ∷ []
parts (c ∷ path) = let rest = parts path in if c == b'/' then [] ∷ rest else prepend c rest

unfoldable pub nonempty : List (List ℕ) → List (List ℕ)
nonempty [] = []
nonempty ([] ∷ names) = nonempty names
nonempty ((c ∷ name) ∷ names) = (c ∷ name) ∷ nonempty names

abbrev pub components : List ℕ → List (List ℕ)
components path = nonempty (parts path)

-- The parts of what follows the first name.
unfoldable more : List ℕ → List (List ℕ)
more [] = []
more (c ∷ path) = let rest = more path in if c == b'/' then parts path else rest

parts-more : (path : List ℕ) → parts path ≡ first_name path ∷ more path
unfolding parts first_name more prepend
parts-more [] = refl
parts-more (c ∷ path) = elim (Bool-cases (c == b'/')) [
  | inl e ↦ rw e refl
  | inr e ↦ rw (e, parts-more path, parts, first_name, more) refl
]

parts_slash : (c : ℕ) (path : List ℕ) → (c == b'/') ≡ true → parts (c ∷ path) ≡ [] ∷ parts path
unfolding parts
parts_slash c path e = rw e refl

skip_slashes_other :
    (c : ℕ) (path : List ℕ) → (c == b'/') ≡ false → skip_slashes (c ∷ path) ≡ c ∷ path
unfolding skip_slashes
skip_slashes_other c path e = rw e refl

first_name_other :
    (c : ℕ) (path : List ℕ) → (c == b'/') ≡ false → first_name (c ∷ path) ≡ c ∷ first_name path
unfolding first_name
first_name_other c path e = rw e refl

more_slash : (c : ℕ) (path : List ℕ) → (c == b'/') ≡ true → more (c ∷ path) ≡ parts path
unfolding more
more_slash c path e = rw e refl

behind_slash : (c : ℕ) (path : List ℕ) → (c == b'/') ≡ true → behind (c ∷ path) ≡ c ∷ path
unfolding behind
behind_slash c path e = rw e refl

nonempty-more : (path : List ℕ) → nonempty (more path) ≡ components (behind path)
unfolding more behind nonempty parts
nonempty-more [] = refl
nonempty-more (c ∷ path) = elim (Bool-cases (c == b'/')) [
  | inl e ↦
      ap nonempty (more_slash c path e)
      ∙ sym (ap nonempty (parts_slash c path e))
      ∙ ap components (sym (behind_slash c path e))
  | inr e ↦ rw e (nonempty-more path)
]

pub components-first_name :
    (path : List ℕ) (c : ℕ) (name : List ℕ)
    → first_name path ≡ c ∷ name
    → components path ≡ (c ∷ name) ∷ components (behind path)
unfolding nonempty
components-first_name path c name e =
    rw (parts-more path, e, nonempty) (ap (◌∷◌ (c ∷ name)) (nonempty-more path))

pub components-skip_slashes : (path : List ℕ) → components (skip_slashes path) ≡ components path
unfolding skip_slashes nonempty
components-skip_slashes [] = refl
components-skip_slashes (c ∷ path) = elim (Bool-cases (c == b'/')) [
  | inl e ↦ rw e (components-skip_slashes path ∙ ap nonempty (sym (parts_slash c path e)))
  | inr e ↦ ap components (skip_slashes_other c path e)
]

pub skip_slashes_empty :
    (path : List ℕ) → first_name (skip_slashes path) ≡ [] → components path ≡ []
unfolding skip_slashes parts nonempty
skip_slashes_empty [] e = refl
skip_slashes_empty (c ∷ path) e = elim (Bool-cases (c == b'/')) [
  | inl s ↦
      ap nonempty (parts_slash c path s) ∙ skip_slashes_empty path (ap first_name (skipped s) ∙ e)
  | inr s ↦ absurd (
      cons_ne_nil
        (sym (first_name_other c path s) ∙ ap first_name (sym (skip_slashes_other c path s)) ∙ e))
]
  where
    skipped : (c == b'/') ≡ true → skip_slashes path ≡ skip_slashes (c ∷ path)
    skipped s = rw s refl

    cons_ne_nil : {x : ℕ} {xs : List ℕ} → x ∷ xs ≢ []
    cons_ne_nil e = ground (arith, e)

pub take_name-first_name :
    (limit : ℕ) (path : List ℕ)
    → length (first_name path) ≤ limit
    → take_name limit path ≡ (first_name path, behind path)
unfolding take_name first_name behind
take_name-first_name zero [] short = refl
take_name-first_name (suc n) [] short = refl
take_name-first_name zero (c ∷ path) short = elim (Bool-cases (c == b'/')) [
  | inl e ↦ rw e refl
  | inr e ↦ absurd (omega (arith, short, ap length (first_name_other c path e)))
]
take_name-first_name (suc n) (c ∷ path) short = rest (take_name-first_name n path)
  where
    rest :
        (length (first_name path) ≤ n → take_name n path ≡ (first_name path, behind path))
        → take_name (suc n) (c ∷ path) ≡ (first_name (c ∷ path), behind (c ∷ path))
    rest ih = elim (Bool-cases (c == b'/')) [
      | inl e ↦ rw e refl
      | inr e ↦
          let fits : length (first_name path) ≤ n =
            omega (arith, short, ap length (first_name_other c path e)) in
          rw (e, ih fits, take_name, first_name, behind) refl
    ]

pub length-behind : (path : List ℕ) → length (first_name path) + length (behind path) ≡ length path
unfolding first_name behind
length-behind [] = refl
length-behind (c ∷ path) = ground (arith, length-behind path)

pub length-skip_slashes : (path : List ℕ) → length (skip_slashes path) ≤ length path
unfolding skip_slashes
length-skip_slashes [] = omega arith
length-skip_slashes (c ∷ path) = ground (arith, length-skip_slashes path)
