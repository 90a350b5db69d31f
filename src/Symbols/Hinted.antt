-- ===== src/Symbols/Hinted.antt =====
-- `binary_search_toc`: the same answer, whatever the hint.
use xnu_uboot_arm.Base.{
  ℕ, zero, suc, ◌+◌, ◌-◌, ◌/◌, ◌^◌, ◌<◌, ◌≤◌, ◌≡◌, inl, inr, true, sym, Bool-cases, Option, List,
  ltb, leb, if◌then◌else◌, arith,
}
use xnu_uboot_arm.Symbols.{Name, strcmp, toc_loop, toc_name, binary_search_toc}
use xnu_uboot_arm.Symbols.Search.{
  IsSorted, Explains, Explains-left, Explains-right, Answers, Answers-Explains, Ordering-cases,
  strcmp-eq,
}

module _ (key : Name) (name_at : ℕ → Option Name) (name : ℕ → Name) (count : ℕ)
    (table : IsSorted name_at name count) where
  toc_loop-Explains :
      (fuel low mid top i : ℕ)
      → top < low + fuel
      → low ≤ top
      → top ≤ count
      → (low < top → (low ≤ mid) × (mid < top))
      → Explains key name_at name count table low top i (toc_loop key name_at fuel low mid top)
  unfolding toc_loop
  toc_loop-Explains zero low mid top i h o b m = absurd (omega arith)
  toc_loop-Explains (suc fuel) low mid top i h o b m = elim (Bool-cases (ltb low top)) [
    | inr empty ↦ rw (empty, toc_loop) (λ l k. absurd (ground arith))
    | inl more ↦
        let in_range : (low ≤ mid) × (mid < top) = m (ground arith) in
        let read = table.reads mid (omega arith) in
        elim (Ordering-cases (strcmp key (name mid))) [
          | inl c ↦
              rw (more, read, c, toc_loop)
                (Explains-left key name_at name count table low top i mid
                  (toc_loop key name_at fuel low ((low + mid - 1) / 2) mid) c b
                  (toc_loop-Explains fuel low ((low + mid - 1) / 2) mid i (omega arith) in_range.0
                    (omega arith) (λ l. (omega arith, omega arith))))
          | inr (inl c) ↦
              rw (more, read, c, toc_loop) (omega arith, sym (strcmp-eq key (name mid) c))
          | inr (inr c) ↦
              rw (more, read, c, toc_loop)
                (Explains-right key name_at name count table low top i mid
                  (toc_loop key name_at fuel (mid + 1) ((mid + 1 + top - 1) / 2) top) c
                  (omega arith)
                  (toc_loop-Explains fuel (mid + 1) ((mid + 1 + top - 1) / 2) top i (omega arith)
                    (omega arith) b (λ l. (omega arith, omega arith))))
        ]
  ]

-- On a table of contents whose first `symbol_count` entries lead to sorted names,
-- `binary_search_toc` ends without a read past them, whatever the hint is below 2 ^ 31; it returns
-- the entry of the key, or nothing if none of these names is the key. At most 2 ^ 30 symbols keep
-- the sums of `low` and `high` inside an `int32_t`.
pub binary_search_toc-Answers :
    (key : Name) (symbols : List Name) (toc : List ℕ) (name : ℕ → Name)
    (symbol_count hint_index : ℕ)
    → IsSorted (toc_name symbols toc) name symbol_count
    → hint_index < 2 ^ 31
    → symbol_count ≤ 2 ^ 30
    → Answers key name symbol_count (binary_search_toc key symbols toc symbol_count hint_index)
unfolding binary_search_toc
binary_search_toc-Answers key symbols toc name symbol_count hint_index table small few =
    let signed : ltb hint_index (2 ^ 31) ≡ true = ground arith in
    rw (signed, binary_search_toc)
      (Answers-Explains key (toc_name symbols toc) name symbol_count table _ (λ i.
        toc_loop-Explains key (toc_name symbols toc) name symbol_count table (symbol_count + 1) 0
          (if leb symbol_count hint_index then symbol_count / 2 else hint_index) symbol_count i
          (omega arith) (omega arith) (omega arith) (λ l. (omega arith, ground arith))))
