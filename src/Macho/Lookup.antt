-- ===== src/Macho/Lookup.antt =====
-- `mach_file_find_symbol` and `_symtab_find_symbol`, mach-o/macho.c: the symbols of an image that is
-- open. The structures of the symbol tables are the parameter `SymbolFormat`.
mod Tests
use xnu_uboot_arm.Base.{
  ℕ, zero, suc, ◌+◌, ◌-◌, ◌*◌, ◌%◌, refl, ◌<◌, ◌≡◌, ◌≢◌, Bool, true, false, ◌&&◌, ◌||◌, not, Option,
  none, some, List, [], ◌∷◌, ◌==◌, if◌then◌else◌, length, add32, sub32, mul32, word, bit_and,
  Bool-cases, Ram, read8, read16, read32, arith, codes, inl, inr,
}
use xnu_uboot_arm.Runtime.{Runtime}
use xnu_uboot_arm.Symbols.{Name, Found, found, missing, fault, out_of_fuel, search_loop}
use xnu_uboot_arm.Symbols.Search.{IsSorted, Explains, search_loop_sound, Answers, Answers-Explains}
use xnu_uboot_arm.Macho.{
  Format, Context, LoaderReturn, Result, ok, fail, badfiletype, exec_unsupported, malformed,
  symbol_not_found,
}

pub record SymbolFormat : Type 0 where
  -- struct dysymtab_command and struct symtab_command
  pub dysym_tocoff : ℕ
  pub dysym_iextdefsym : ℕ
  pub dysym_nextdefsym : ℕ
  pub symtab_nsyms : ℕ
  -- struct nlist: its size, and the offsets of its fields
  pub nlist_size : ℕ
  pub n_strx : ℕ
  pub n_type : ℕ
  pub n_desc : ℕ
  pub n_value : ℕ
  -- constants
  pub n_stab : ℕ
  pub n_arm_thumb_def : ℕ

-- The C string at `p`: none where no NUL stands in the `fuel` bytes from there.
unfoldable pub string_in : Ram → (fuel p : ℕ) → Option Name
string_in m zero p = none
string_in m (suc fuel) p = elim (read8 m p == 0) [
  | true ↦ some []
  | false ↦ elim (string_in m fuel (p + 1)) [ none ↦ none | some s ↦ some (read8 m p ∷ s) ]
]

-- The result of a lookup by name. A search may read past the names, and then the fault is written
-- out.
pub data Lookup : Type 0 where
  located : (sym : ℕ) → Lookup
  refused : LoaderReturn → Lookup
  overread no_fuel : Lookup

module _ (sf : SymbolFormat) (m : Ram) (file : Context) where
  -- `&file->symbol_base[i]`, and its name.
  unfoldable pub symbol_address : ℕ → ℕ
  symbol_address i = add32 file.symbol_base (mul32 sf.nlist_size i)

  unfoldable pub symbol_name : ℕ → Option Name
  symbol_name i =
      string_in m word (add32 file.string_base (read32 m (symbol_address i + sf.n_strx)))

  -- The loop of `_symtab_find_symbol`, with `n` rounds left: the address of the symbol. Once a symbol
  -- in Thumb code is met, the address that is looked for stays even.
  unfoldable pub symtab_loop : (n i entry : ℕ) → Option ℕ
  symtab_loop zero i entry = none
  symtab_loop (suc n) i entry =
      let sym = symbol_address i in
      let thumb = not (bit_and (read16 m (sym + sf.n_desc)) sf.n_arm_thumb_def == 0) in
      let wanted = if thumb then entry - entry % 2 else entry in
      let rest = symtab_loop n (i + 1) wanted in
      if read32 m (sym + sf.n_value) == wanted && bit_and (read8 m (sym + sf.n_type)) sf.n_stab == 0
      then some sym
      else rest

  unfoldable pub symtab_find_symbol : (entry : ℕ) → Option ℕ
  symtab_find_symbol entry = symtab_loop (read32 m (file.symtab + sf.symtab_nsyms)) 0 entry

  -- The first exported symbol, their number, and their names.
  unfoldable pub first_exported : ℕ
  first_exported = read32 m (file.dsymtab + sf.dysym_iextdefsym)

  unfoldable pub exported : ℕ
  exported = read32 m (file.dsymtab + sf.dysym_nextdefsym)

  unfoldable pub exported_name : ℕ → Option Name
  exported_name i = symbol_name (first_exported + i)

  -- `s->n_value + file->loader_bias`
  unfoldable pub rebased : ℕ → ℕ
  rebased i = add32 (read32 m (symbol_address (first_exported + i) + sf.n_value)) file.loader_bias

  -- The binary search is over the names in memory.
  unfoldable pub mach_file_find_symbol : Format → Name → Lookup
  mach_file_find_symbol f name =
      if not (file.filetype == f.mh_execute)
      then refused badfiletype
      else if file.dsymtab == 0
      then refused exec_unsupported
      else if file.string_base == 0 || file.symtab == 0
      then refused malformed
      else if read32 m (file.dsymtab + sf.dysym_tocoff) == 0
      then elim (search_loop name exported_name (exported + 1) 0 exported) [
        | found i ↦ located (rebased i)
        | missing ↦ refused symbol_not_found
        | fault ↦ overread
        | out_of_fuel ↦ no_fuel
      ]
      else refused exec_unsupported

  -- An executable with its symbols, and without a table of contents.
  pub record IsSearchable (f : Format) : Type 0 where
    pub executable : (file.filetype == f.mh_execute) ≡ true
    pub dynamic : (file.dsymtab == 0) ≡ false
    pub strings : (file.string_base == 0) ≡ false
    pub symbols : (file.symtab == 0) ≡ false
    pub no_contents : (read32 m (file.dsymtab + sf.dysym_tocoff) == 0) ≡ true

  -- What a lookup is to answer.
  abbrev pub IsLookup : Name → (ℕ → Name) → Lookup → Type 0
  IsLookup key name (located sym) =
      (i : ℕ) × ((i < exported) × ((name i ≡ key) × (sym ≡ rebased i)))
  IsLookup key name (refused r) = (r ≡ symbol_not_found) × ((i : ℕ) → i < exported → name i ≢ key)
  IsLookup key name overread = ⊥
  IsLookup key name no_fuel = ⊥

  -- In an executable whose exported symbols are sorted by name, and which has no table of contents,
  -- the lookup stays inside the symbols: it returns the address of a symbol of that name, moved by
  -- the bias, or that the symbol is not found if no exported one has the name.
  pub mach_file_find_symbol-IsLookup :
      (f : Format) (key : Name) (name : ℕ → Name)
      → IsSearchable f
      → IsSorted exported_name name exported
      → IsLookup key name (mach_file_find_symbol f key)
  unfolding mach_file_find_symbol
  mach_file_find_symbol-IsLookup f key name s table =
      rw (s.executable, s.dynamic, s.strings, s.symbols, s.no_contents)
        (answered (search_loop key exported_name (exported + 1) 0 exported) (
          Answers-Explains key exported_name name exported table _
            (search_loop_sound key exported_name name exported table)))
    where
      answered :
          (r : Found)
          → Answers key name exported r
          → IsLookup key name (elim r [
            | found i ↦ located (rebased i)
            | missing ↦ refused symbol_not_found
            | fault ↦ overread
            | out_of_fuel ↦ no_fuel
          ])
      answered (found i) a = (i, (a.0, (a.1, refl)))
      answered missing a = (refl, a)
      answered fault a = a
      answered out_of_fuel a = a
