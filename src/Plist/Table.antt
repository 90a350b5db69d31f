-- ===== src/Plist/Table.antt =====
-- `NewSymbol` and `FreeSymbol` count the references of one symbol and keep the table in order.
use xnu_uboot_arm.Base.{
  by_if, ℕ, ◌+◌, ◌-◌, ◌≤◌, ◌≡◌, ◌∙◌, sym, ap, refl, Bool, true, false, Option, none, some, List,
  ◌∷◌, ◌++◌, ◌==◌, if◌then◌else◌, strcmp_eq, length, arith,
}
use xnu_uboot_arm.DeviceTree.{Heap}
use xnu_uboot_arm.Plist.{Symbol, Plist, find_symbol, new_symbol, free_symbol}
use xnu_uboot_arm.Plist.Count.{
  hit, refs, entries, AllUsed, IsTable, refs-append, entries-append, AllUsed-append, AllUsed-split,
  strcmp_eq-true, Split, find_symbol-Split,
}

module _ {W : Type 0} where
  -- The table after one reference more, and after one less; the rest of the state is as it was.
  pub record Gains (string : List ℕ) (p p' : Plist W) : Type 0 where
    pub counts : (s : List ℕ) → refs s p'.symbols ≡ refs s p.symbols + hit string s
    pub table : IsTable p'.symbols
    pub text : p'.text ≡ p.text
    pub tags_free : p'.tags_free ≡ p.tags_free
    pub tag_blocks : p'.tag_blocks ≡ p.tag_blocks

  pub record Loses (string : List ℕ) (p p' : Plist W) : Type 0 where
    pub counts : (s : List ℕ) → refs s p'.symbols + hit string s ≡ refs s p.symbols
    pub table : IsTable p'.symbols
    pub text : p'.text ≡ p.text
    pub tags_free : p'.tags_free ≡ p.tags_free
    pub tag_blocks : p'.tag_blocks ≡ p.tag_blocks

  unfoldable pub Gained : List ℕ → Plist W → Option (Plist W) → Type 0
  Gained string p none = Unit {0}
  Gained string p (some p') = Gains string p p'

abbrev entry : ℕ → List ℕ → Symbol
entry n s = record { ref_count = n; string = s }

head-IsTable :
    (string : List ℕ) (xs : List Symbol)
    → entries string xs ≡ 0
    → IsTable xs
    → IsTable (entry 1 string ∷ xs)
unfolding entries AllUsed hit
head-IsTable string xs e k = record {
  used = (omega arith, k.used);
  distinct = λ s. one s (strcmp_eq string s) refl;
}
  where
    one :
        (s : List ℕ) (b : Bool)
        → strcmp_eq string s ≡ b
        → (if strcmp_eq string s then 1 else 0) + entries s xs ≤ 1
    one s true h =
        let none_yet : entries s xs ≡ 0 =
          ap (λ t. entries t xs) (sym (strcmp_eq-true string s h)) ∙ e in
        ground (arith, h, none_yet)
    one s false h = ground (arith, h, k.distinct s)

change-IsTable :
    (n : ℕ) (before : List Symbol) (found : Symbol) (after : List Symbol)
    → 1 ≤ n
    → IsTable (before ++ found ∷ after)
    → IsTable (before ++ entry n found.string ∷ after)
unfolding entries AllUsed
change-IsTable n before found after h k =
    let parts = AllUsed-split before (found ∷ after) k.used in
    record {
      used = AllUsed-append before (entry n found.string ∷ after) parts.0 (h, parts.1.1);
      distinct = λ s. omega (
        arith,
        k.distinct s,
        entries-append s before (found ∷ after),
        entries-append s before (entry n found.string ∷ after),
      );
    }

remove-IsTable :
    (before : List Symbol) (found : Symbol) (after : List Symbol)
    → IsTable (before ++ found ∷ after)
    → IsTable (before ++ after)
unfolding entries AllUsed
remove-IsTable before found after k =
    let parts = AllUsed-split before (found ∷ after) k.used in
    record {
      used = AllUsed-append before after parts.0 parts.1.1;
      distinct = λ s. omega (
        arith,
        k.distinct s,
        entries-append s before (found ∷ after),
        entries-append s before after,
      );
    }

used_found :
    (before : List Symbol) (found : Symbol) (after : List Symbol)
    → AllUsed (before ++ found ∷ after)
    → 1 ≤ found.ref_count
unfolding AllUsed
used_found before found after u = (AllUsed-split before (found ∷ after) u).1.0

module _ (s : List ℕ) (before : List Symbol) (found : Symbol) (after : List Symbol) where
  refs_more :
      refs s (before ++ entry (found.ref_count + 1) found.string ∷ after)
      ≡ refs s (before ++ found ∷ after) + hit found.string s
  unfolding refs hit
  refs_more = ground (
    arith,
    refs-append s before (found ∷ after),
    refs-append s before (entry (found.ref_count + 1) found.string ∷ after),
  )

  refs_less :
      1 ≤ found.ref_count
      → refs s (before ++ entry (found.ref_count - 1) found.string ∷ after) + hit found.string s
        ≡ refs s (before ++ found ∷ after)
  unfolding refs hit
  refs_less h = ground (
    arith,
    h,
    refs-append s before (found ∷ after),
    refs-append s before (entry (found.ref_count - 1) found.string ∷ after),
  )

  refs_none :
      found.ref_count ≡ 1
      → refs s (before ++ after) + hit found.string s ≡ refs s (before ++ found ∷ after)
  unfolding refs hit
  refs_none h = ground (arith, h, refs-append s before (found ∷ after), refs-append s before after)

module _ {W : Type 0} (h : Heap W) (string : List ℕ) (p : Plist W) (k : IsTable p.symbols) where
  more :
      (before : List Symbol) (found : Symbol) (after : List Symbol)
      → p.symbols ≡ before ++ found ∷ after
      → found.string ≡ string
      → Gains string p
          (record p { symbols = before ++ entry (found.ref_count + 1) found.string ∷ after })
  more before found after e same = record {
    counts = λ s. refs_more s before found after ∙ rw e (rw same refl);
    table = change-IsTable (found.ref_count + 1) before found after (omega arith) (rw e at k);
    text = refl;
    tags_free = refl;
    tag_blocks = refl;
  }

  pub new_symbol-Gained : Gained string p (new_symbol h string p)
  unfolding Gained new_symbol Split
  new_symbol-Gained = at_end (find_symbol string p.symbols) (find_symbol-Split string p.symbols)
    where
      at_end :
          (r : Option (List Symbol × Symbol × List Symbol))
          → Split string p.symbols r
          → Gained string p (elim r [
            | none ↦
                if (h.malloc (8 + 1 + length string) p.heap).0
                then some (record p {
                  symbols = entry 1 string ∷ p.symbols;
                  heap = (h.malloc (8 + 1 + length string) p.heap).1;
                })
                else none
            | some (before, found, after) ↦
                some (record p {
                  symbols = before ++ entry (found.ref_count + 1) found.string ∷ after;
                })
          ])
      at_end none sp =
          by_if (Gained string p) (h.malloc (8 + 1 + length string) p.heap).0
            (λ e. record {
              counts = λ s. unfold refs hit in ground arith;
              table = head-IsTable string p.symbols sp.0 k;
              text = refl;
              tags_free = refl;
              tag_blocks = refl;
            })
            (λ e. tt)
      at_end (some (before, found, after)) sp = more before found after sp.0 sp.1

  recount :
      (ys before : List Symbol) (found : Symbol) (after : List Symbol)
      → p.symbols ≡ before ++ found ∷ after
      → found.string ≡ string
      → ((s : List ℕ) → refs s ys + hit found.string s ≡ refs s (before ++ found ∷ after))
      → (s : List ℕ) → refs s ys + hit string s ≡ refs s p.symbols
  recount ys before found after e same k s = rw e (rw (sym same) (k s))

  pub free_symbol-Loses : 1 ≤ refs string p.symbols → Loses string p (free_symbol h string p)
  unfolding free_symbol Split
  free_symbol-Loses u = at_end (find_symbol string p.symbols) (find_symbol-Split string p.symbols)
    where
      at_end :
          (r : Option (List Symbol × Symbol × List Symbol))
          → Split string p.symbols r
          → Loses string p (elim r [
            | none ↦ p
            | some (before, found, after) ↦
                if found.ref_count - 1 == 0
                then record p { symbols = before ++ after; heap = h.free p.heap }
                else record p {
                  symbols = before ++ entry (found.ref_count - 1) found.string ∷ after;
                }
          ])
      at_end none sp =
          absurd (let no_ref : refs string p.symbols ≡ 0 = sp.1 in omega (arith, u, no_ref))
      at_end (some (before, found, after)) sp =
          let kept : IsTable (before ++ found ∷ after) = rw (sym sp.0) k in
          let one = used_found before found after kept.used in
          by_if (Loses string p) (found.ref_count - 1 == 0)
            (λ e.
              let last : found.ref_count ≡ 1 = ground (arith, e, one) in
              record {
                counts =
                    recount (before ++ after) before found after sp.0 sp.1
                      (λ s. refs_none s before found after last);
                table = remove-IsTable before found after kept;
                text = refl;
                tags_free = refl;
                tag_blocks = refl;
              })
            (λ e. record {
              counts =
                  recount (before ++ entry (found.ref_count - 1) found.string ∷ after) before found
                    after sp.0 sp.1 (λ s. refs_less s before found after one);
              table =
                  change-IsTable (found.ref_count - 1) before found after (ground (arith, e)) kept;
              text = refl;
              tags_free = refl;
              tag_blocks = refl;
            })
