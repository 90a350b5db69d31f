-- ===== src/Symbols.antt =====
-- mach-o/macho_util.c: the two binary searches for a symbol by its name. The symbol table is the
-- list of the names that `stringPool[n_strx]` gives; a read past a table is a fault.
pub mod Search
pub mod Hinted
mod Tests
use Prim.Native.Nat.{compare, Ordering, lt, eq, gt}
use xnu_uboot_arm.Base.{
  ℕ, zero, suc, ◌+◌, ◌-◌, ◌/◌, ◌^◌, Bool, true, false, Option, none, some, List, [], ◌∷◌, ltb, leb,
  ◌==◌, if◌then◌else◌, get_elem?,
}

abbrev pub Name : Type 0
Name = List ℕ

-- `strcmp`, on the bytes before the NUL: below, at or above zero.
unfoldable pub strcmp : Name → Name → Ordering
strcmp [] [] = eq
strcmp [] (y ∷ b) = lt
strcmp (x ∷ a) [] = gt
strcmp (x ∷ a) (y ∷ b) = elim (compare x y) [ lt ↦ lt | gt ↦ gt | eq ↦ strcmp a b ]

pub data Found : Type 0 where
  found : (index : ℕ) → Found
  missing fault out_of_fuel : Found

module _ (key : Name) (name_at : ℕ → Option Name) where
  -- The loop of `binary_search`: `base` is an index. `n` falls in each round.
  unfoldable pub search_loop : (fuel base n : ℕ) → Found
  search_loop zero base n = out_of_fuel
  search_loop (suc fuel) base n = elim (n == 0) [
    | true ↦ missing
    | false ↦ elim (name_at (base + n / 2)) [
      | none ↦ fault
      | some pivot ↦ elim (strcmp key pivot) [
        | eq ↦ found (base + n / 2)
        | gt ↦ search_loop fuel (base + n / 2 + 1) ((n - 1) / 2)
        | lt ↦ search_loop fuel base (n / 2)
      ]
    ]
  ]

  -- The loop of `binary_search_toc`, with `high + 1` for `high`: `low <= high` is `low < top`.
  -- `low + high` is the sum of `int32_t` as long as that does not overflow, up to 2 ^ 30 symbols.
  unfoldable pub toc_loop : (fuel low mid top : ℕ) → Found
  toc_loop zero low mid top = out_of_fuel
  toc_loop (suc fuel) low mid top = elim (ltb low top) [
    | false ↦ missing
    | true ↦ elim (name_at mid) [
      | none ↦ fault
      | some pivot ↦ elim (strcmp key pivot) [
        | eq ↦ found mid
        | gt ↦ toc_loop fuel (mid + 1) ((mid + 1 + top - 1) / 2) top
        | lt ↦ toc_loop fuel low ((low + mid - 1) / 2) mid
      ]
    ]
  ]

-- The result is an index into `symbols`.
unfoldable pub binary_search : Name → List Name → (symbol_count : ℕ) → Found
binary_search key symbols symbol_count =
    search_loop key (get_elem? symbols) (symbol_count + 1) 0 symbol_count

-- The name of the symbol that entry `i` of the table of contents points to.
unfoldable pub toc_name : List Name → (toc : List ℕ) → ℕ → Option Name
toc_name symbols toc i = elim (get_elem? toc i) [
  | none ↦ none
  | some index ↦ get_elem? symbols index
]

-- The result is an index into `toc`. A hint from 2 ^ 31 on is negative as an `int32_t`, and the
-- first read with it is out of bounds.
unfoldable pub binary_search_toc : Name → List Name → List ℕ → (symbol_count hint_index : ℕ) → Found
binary_search_toc key symbols toc symbol_count hint_index =
    if ltb hint_index (2 ^ 31)
    then toc_loop key (toc_name symbols toc) (symbol_count + 1) 0
        (if leb symbol_count hint_index then symbol_count / 2 else hint_index) symbol_count
    else if symbol_count == 0
    then missing
    else fault
