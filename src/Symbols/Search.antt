-- ===== src/Symbols/Search.antt =====
-- `binary_search` on a table sorted by `strcmp`.
use native.Mathlib.Decide.{dec_lt}
use mathlib.Core.Path.{subst}
use Prim.Native.Nat.{Ordering, lt, eq, gt}
use xnu_uboot_arm.Base.{
  ℕ, zero, suc, ◌+◌, ◌-◌, ◌/◌, ◌<◌, ◌≤◌, ◌≡◌, ◌≢◌, ◌⊎◌, inl, inr, refl, ap, sym, Bool-cases, Option,
  some, List, [], ◌∷◌, ◌==◌, get_elem?, arith,
}
use xnu_uboot_arm.Symbols.{
  Name, strcmp, Found, found, missing, fault, out_of_fuel, search_loop, binary_search,
}

pub strcmp-eq : (a b : Name) → strcmp a b ≡ eq → a ≡ b
unfolding strcmp
strcmp-eq [] [] h = refl
strcmp-eq [] (y ∷ b) h = cc
strcmp-eq (x ∷ a) [] h = cc
strcmp-eq (x ∷ a) (y ∷ b) h = ground (arith, strcmp-eq a b)

strcmp_swap : (a b : Name) → strcmp a b ≡ lt → strcmp b a ≡ gt
unfolding strcmp
strcmp_swap [] [] h = cc
strcmp_swap [] (y ∷ b) h = refl
strcmp_swap (x ∷ a) [] h = cc
strcmp_swap (x ∷ a) (y ∷ b) h = ground (arith, strcmp_swap a b)

strcmp_self : (a : Name) → strcmp a a ≡ eq
unfolding strcmp
strcmp_self [] = refl
strcmp_self (x ∷ a) = ground (arith, strcmp_self a)

pub Ordering-cases : (o : Ordering) → (o ≡ lt) ⊎ ((o ≡ eq) ⊎ (o ≡ gt))
Ordering-cases lt = inl refl
Ordering-cases eq = inr (inl refl)
Ordering-cases gt = inr (inr refl)

-- A table of `count` names, each below the next.
pub record IsSorted (name_at : ℕ → Option Name) (name : ℕ → Name) (count : ℕ) : Type 0 where
  pub reads : (i : ℕ) → i < count → name_at i ≡ some (name i)
  pub rises : (i j : ℕ) → i < j → j < count → strcmp (name i) (name j) ≡ lt

module _ (key : Name) (name_at : ℕ → Option Name) (name : ℕ → Name) (count : ℕ)
    (table : IsSorted name_at name count) where
  -- The pivot `p` is below the key, or above it: so is all on its side.
  pub left_ne : (p i : ℕ) → strcmp key (name p) ≡ gt → i ≤ p → p < count → name i ≢ key
  left_ne p i c h b e = elim (dec_lt i p) [
    | yes l ↦ cc (table.rises i p l b, c, ap (λ (t : Name). strcmp t (name p)) e)
    | no l ↦
        let same : i ≡ p = omega arith in
        cc (
          c,
          strcmp_self key,
          ap (λ (t : Name). strcmp key t) e,
          ap (λ (t : ℕ). strcmp key (name t)) same,
        )
  ]

  pub right_ne : (p i : ℕ) → strcmp key (name p) ≡ lt → p ≤ i → i < count → name i ≢ key
  right_ne p i c h b e = elim (dec_lt p i) [
    | yes l ↦ cc (
      strcmp_swap (name p) (name i) (table.rises p i l b),
      c,
      ap (λ (t : Name). strcmp t (name p)) e,
    )
    | no l ↦
        let same : i ≡ p = omega arith in
        cc (
          c,
          strcmp_self key,
          ap (λ (t : Name). strcmp key t) e,
          ap (λ (t : ℕ). strcmp key (name t)) same,
        )
  ]

  -- What a search of the indices from `lo` to `hi` says, for the index `i`.
  abbrev pub Explains : (lo hi i : ℕ) → Found → Type 0
  Explains lo hi i (found p) = (p < count) × (name p ≡ key)
  Explains lo hi i missing = lo ≤ i → i < hi → name i ≢ key
  Explains lo hi i fault = ⊥
  Explains lo hi i out_of_fuel = ⊥

  pub Explains-right :
      (lo hi i p : ℕ) (r : Found)
      → strcmp key (name p) ≡ gt
      → p < count
      → Explains (p + 1) hi i r
      → Explains lo hi i r
  Explains-right lo hi i p (found q) c b x = x
  Explains-right lo hi i p missing c b x =
      λ l h. elim (dec_lt p i) [ yes k ↦ x (omega arith) h | no k ↦ left_ne p i c (omega arith) b ]
  Explains-right lo hi i p fault c b x = x
  Explains-right lo hi i p out_of_fuel c b x = x

  pub Explains-left :
      (lo hi i p : ℕ) (r : Found)
      → strcmp key (name p) ≡ lt
      → hi ≤ count
      → Explains lo p i r
      → Explains lo hi i r
  Explains-left lo hi i p (found q) c b x = x
  Explains-left lo hi i p missing c b x =
      λ l h. elim (dec_lt i p) [ yes k ↦ x l k | no k ↦ right_ne p i c (omega arith) (omega arith) ]
  Explains-left lo hi i p fault c b x = x
  Explains-left lo hi i p out_of_fuel c b x = x

  search_loop-Explains :
      (fuel base n i : ℕ)
      → n < fuel
      → base + n ≤ count
      → Explains base (base + n) i (search_loop key name_at fuel base n)
  unfolding search_loop
  search_loop-Explains zero base n i h b = absurd (omega arith)
  search_loop-Explains (suc fuel) base n i h b = elim (Bool-cases (n == 0)) [
    | inl empty ↦ rw (empty, search_loop) (λ l k. absurd (ground arith))
    | inr more ↦
        let p = base + n / 2 in
        let inside : p < base + n = ground arith in
        elim (Ordering-cases (strcmp key (name p))) [
          | inl c ↦
              rw (more, table.reads p (omega arith), c, search_loop)
                (Explains-left base (base + n) i p (search_loop key name_at fuel base (n / 2)) c b
                  (search_loop-Explains fuel base (n / 2) i (ground arith) (omega arith)))
          | inr (inl c) ↦
              rw (more, table.reads p (omega arith), c, search_loop)
                (omega arith, sym (strcmp-eq key (name p) c))
          | inr (inr c) ↦
              rw (more, table.reads p (omega arith), c, search_loop)
                (Explains-right base (base + n) i p
                  (search_loop key name_at fuel (p + 1) ((n - 1) / 2)) c (omega arith)
                  (subst
                    (λ (t : ℕ).
                      Explains (p + 1) t i (search_loop key name_at fuel (p + 1) ((n - 1) / 2)))
                    (ground arith)
                    (search_loop-Explains fuel (p + 1) ((n - 1) / 2) i (ground arith)
                      (ground arith))))
        ]
  ]

  -- On a sorted table of `count` names the search stays inside the table and ends; an index that it
  -- returns is that of the key, and if it returns none no name of the table is the key.
  pub search_loop_sound : (i : ℕ) → Explains 0 count i (search_loop key name_at (count + 1) 0 count)
  search_loop_sound i =
      subst (λ (t : ℕ). Explains 0 t i (search_loop key name_at (count + 1) 0 count)) (omega arith)
        (search_loop-Explains (count + 1) 0 count i (omega arith) (omega arith))

-- What a search for `key` among `count` names is to answer.
abbrev pub Answers : Name → (ℕ → Name) → (count : ℕ) → Found → Type 0
Answers key name count (found p) = (p < count) × (name p ≡ key)
Answers key name count missing = (i : ℕ) → i < count → name i ≢ key
Answers key name count fault = ⊥
Answers key name count out_of_fuel = ⊥

pub Answers-Explains :
    (key : Name) (name_at : ℕ → Option Name) (name : ℕ → Name) (count : ℕ)
    (table : IsSorted name_at name count) (r : Found)
    → ((i : ℕ) → Explains key name_at name count table 0 count i r)
    → Answers key name count r
Answers-Explains key name_at name count table (found p) h = h 0
Answers-Explains key name_at name count table missing h = λ i k. h i (omega arith) k
Answers-Explains key name_at name count table fault h = h 0
Answers-Explains key name_at name count table out_of_fuel h = h 0

-- On a symbol table whose first `symbol_count` names are sorted, `binary_search` ends without a
-- read past them; it returns the index of the key, or nothing if none of these names is the key.
pub binary_search-Answers :
    (key : Name) (symbols : List Name) (name : ℕ → Name) (symbol_count : ℕ)
    → IsSorted (get_elem? symbols) name symbol_count
    → Answers key name symbol_count (binary_search key symbols symbol_count)
unfolding binary_search
binary_search-Answers key symbols name symbol_count table =
    Answers-Explains key (get_elem? symbols) name symbol_count table _
      (search_loop_sound key (get_elem? symbols) name symbol_count table)
