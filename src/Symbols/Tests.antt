-- ===== src/Symbols/Tests.antt =====
-- Runs of mach-o/macho_util.c on a small symbol table, and its theorems at it.
use Prim.Native.Nat.{lt}
use xnu_uboot_arm.Base.{
  ℕ, zero, suc, ◌<◌, ◌≡◌, refl, some, List, [], ◌∷◌, get_elem?, get_or, codes, arith,
}
use xnu_uboot_arm.Symbols.{
  Name, strcmp, found, missing, search_loop, toc_loop, binary_search, toc_name, binary_search_toc,
}
use xnu_uboot_arm.Symbols.Search.{IsSorted, Answers, binary_search-Answers}
use xnu_uboot_arm.Symbols.Hinted.{binary_search_toc-Answers}

abbrev symbols : List Name
symbols = codes "_bcopy" ∷ codes "_bzero" ∷ codes "_main" ∷ codes "start" ∷ []

-- The symbols in another order, and a table of contents that sorts them.
abbrev shuffled : List Name
shuffled = codes "start" ∷ codes "_bzero" ∷ codes "_bcopy" ∷ codes "_main" ∷ []

abbrev toc : List ℕ
toc = 2 ∷ 1 ∷ 3 ∷ 0 ∷ []

abbrev name : ℕ → Name
name i = get_or symbols i []

finds : binary_search (codes "_main") symbols 4 ≡ found 2
unfolding binary_search search_loop strcmp
finds = refl

misses : binary_search (codes "_start") symbols 4 ≡ missing
unfolding binary_search search_loop strcmp
misses = refl

finds_hinted : binary_search_toc (codes "_bcopy") shuffled toc 4 3 ≡ found 0
unfolding binary_search_toc toc_loop toc_name strcmp
finds_hinted = refl

reads : (i : ℕ) → i < 4 → get_elem? symbols i ≡ some (name i)
reads zero h = refl
reads (suc zero) h = refl
reads (suc (suc zero)) h = refl
reads (suc (suc (suc zero))) h = refl
reads (suc (suc (suc (suc i)))) h = absurd (omega arith)

reads_toc : (i : ℕ) → i < 4 → toc_name shuffled toc i ≡ some (name i)
unfolding toc_name
reads_toc zero h = refl
reads_toc (suc zero) h = refl
reads_toc (suc (suc zero)) h = refl
reads_toc (suc (suc (suc zero))) h = refl
reads_toc (suc (suc (suc (suc i)))) h = absurd (omega arith)

rises : (i j : ℕ) → i < j → j < 4 → strcmp (name i) (name j) ≡ lt
unfolding strcmp
rises zero (suc zero) h k = refl
rises zero (suc (suc zero)) h k = refl
rises zero (suc (suc (suc zero))) h k = refl
rises (suc zero) (suc (suc zero)) h k = refl
rises (suc zero) (suc (suc (suc zero))) h k = refl
rises (suc (suc zero)) (suc (suc (suc zero))) h k = refl
rises i (suc (suc (suc (suc j)))) h k = absurd (omega arith)
rises i zero h k = absurd (omega arith)
rises (suc i) (suc zero) h k = absurd (omega arith)
rises (suc (suc i)) (suc (suc zero)) h k = absurd (omega arith)
rises (suc (suc (suc i))) (suc (suc (suc zero))) h k = absurd (omega arith)

table : IsSorted (get_elem? symbols) name 4
table = record { reads = reads; rises = rises }

table_toc : IsSorted (toc_name shuffled toc) name 4
table_toc = record { reads = reads_toc; rises = rises }

binary_search-Answers_example :
    Answers (codes "_main") name 4 (binary_search (codes "_main") symbols 4)
binary_search-Answers_example = binary_search-Answers (codes "_main") symbols name 4 table

binary_search_toc-Answers_example :
    Answers (codes "_bcopy") name 4 (binary_search_toc (codes "_bcopy") shuffled toc 4 3)
binary_search_toc-Answers_example =
    binary_search_toc-Answers (codes "_bcopy") shuffled toc name 4 3 table_toc (omega arith)
      (omega arith)
