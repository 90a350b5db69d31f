-- ===== src/Plist/Count.antt =====
-- What the parser holds: the symbols that a tree of tags refers to, its tags, and the references
-- that the table of symbols counts.
use xnu_uboot_arm.Base.{
  ℕ, ◌+◌, ◌≤◌, ◌≡◌, ap, refl, Bool, true, false, Option, none, some, List, [], ◌∷◌, ◌++◌,
  if◌then◌else◌, strcmp_eq, arith,
}
use xnu_uboot_arm.Plist.{
  TagType, tag_integer, Field, zero_field, symbol, number, Tag, no_tag, tag, Symbol, find_symbol,
}

unfoldable pub hit : (string s : List ℕ) → ℕ
hit string s = if strcmp_eq string s then 1 else 0

-- The uses of the symbol `s` in a tag, those below it and those behind it, and their number.
unfoldable pub field_uses : List ℕ → TagType → Field → ℕ
field_uses s type zero_field = 0
field_uses s type (number n) = 0
field_uses s type (symbol x) = elim type [ tag_integer ↦ 0 | _ ↦ hit x s ]

unfoldable pub uses : List ℕ → Tag → ℕ
uses s no_tag = 0
uses s (tag type string child next) = field_uses s type string + uses s child + uses s next

unfoldable pub count : Tag → ℕ
count no_tag = 0
count (tag type string child next) = 1 + count child + count next

-- The references to `s` that the table counts, and its entries for `s`.
unfoldable pub refs : List ℕ → List Symbol → ℕ
refs s [] = 0
refs s (x ∷ xs) = (if strcmp_eq x.string s then x.ref_count else 0) + refs s xs

unfoldable pub entries : List ℕ → List Symbol → ℕ
entries s [] = 0
entries s (x ∷ xs) = hit x.string s + entries s xs

unfoldable pub AllUsed : List Symbol → Type 0
AllUsed [] = Unit {0}
AllUsed (x ∷ xs) = (1 ≤ x.ref_count) × AllUsed xs

-- Every symbol has a reference, and no two have one text.
pub record IsTable (xs : List Symbol) : Type 0 where
  pub used : AllUsed xs
  pub distinct : (s : List ℕ) → entries s xs ≤ 1

pub refs-append : (s : List ℕ) (xs ys : List Symbol) → refs s (xs ++ ys) ≡ refs s xs + refs s ys
unfolding refs
refs-append s [] ys = omega arith
refs-append s (x ∷ xs) ys = omega (arith, refs-append s xs ys)

pub entries-append :
    (s : List ℕ) (xs ys : List Symbol) → entries s (xs ++ ys) ≡ entries s xs + entries s ys
unfolding entries
entries-append s [] ys = omega arith
entries-append s (x ∷ xs) ys = omega (arith, entries-append s xs ys)

pub AllUsed-append : (xs ys : List Symbol) → AllUsed xs → AllUsed ys → AllUsed (xs ++ ys)
unfolding AllUsed
AllUsed-append [] ys u v = v
AllUsed-append (x ∷ xs) ys u v = (u.0, AllUsed-append xs ys u.1 v)

pub AllUsed-split : (xs ys : List Symbol) → AllUsed (xs ++ ys) → AllUsed xs × AllUsed ys
unfolding AllUsed
AllUsed-split [] ys u = (tt, u)
AllUsed-split (x ∷ xs) ys u = let rest = AllUsed-split xs ys u.1 in ((u.0, rest.0), rest.1)

pub strcmp_eq_refl : (a : List ℕ) → strcmp_eq a a ≡ true
unfolding strcmp_eq
strcmp_eq_refl [] = refl
strcmp_eq_refl (x ∷ a) = ground (arith, strcmp_eq_refl a)

pub strcmp_eq-true : (a b : List ℕ) → strcmp_eq a b ≡ true → a ≡ b
unfolding strcmp_eq
strcmp_eq-true [] [] e = refl
strcmp_eq-true [] (y ∷ b) e = absurd (ground (arith, e))
strcmp_eq-true (x ∷ a) [] e = absurd (ground (arith, e))
strcmp_eq-true (x ∷ a) (y ∷ b) e =
    let same : x ≡ y = ground (arith, e) in
    let rest : strcmp_eq a b ≡ true = ground (arith, e) in
    rw same (ap (◌∷◌ y) (strcmp_eq-true a b rest))

-- Where a search ends: without an entry, or between two parts of the list.
unfoldable pub Split : List ℕ → List Symbol → Option (List Symbol × Symbol × List Symbol) → Type 0
Split string xs none = (entries string xs ≡ 0) × (refs string xs ≡ 0)
Split string xs (some (before, found, after)) =
    (xs ≡ before ++ found ∷ after) × (found.string ≡ string)

pub find_symbol-Split :
    (string : List ℕ) (xs : List Symbol) → Split string xs (find_symbol string xs)
unfolding Split find_symbol entries refs hit
find_symbol-Split string [] = (refl, refl)
find_symbol-Split string (x ∷ xs) =
    at_head (strcmp_eq x.string string) refl (find_symbol string xs) (find_symbol-Split string xs)
  where
    at_head :
        (b : Bool)
        → strcmp_eq x.string string ≡ b
        → (r : Option (List Symbol × Symbol × List Symbol)) → Split string xs r
        → Split string (x ∷ xs) (
            if b then some ([], x, xs) else elim r [
              | none ↦ none
              | some (before, found, after) ↦ some (x ∷ before, found, after)
            ])
    at_head true e r k = (refl, strcmp_eq-true x.string string e)
    at_head false e none k =
        let no_entry : entries string xs ≡ 0 = k.0 in
        let no_ref : refs string xs ≡ 0 = k.1 in
        (ground (arith, e, no_entry), ground (arith, e, no_ref))
    at_head false e (some (before, found, after)) k = (ap (◌∷◌ x) k.0, k.1)
