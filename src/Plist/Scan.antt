-- ===== src/Plist/Scan.antt =====
-- `GetNextTag` and `FixDataMatchingTag` stay in the text, move on, and write only between where
-- they start and where they end.
use xnu_uboot_arm.Base.{
  by_if, ℕ, zero, suc, ◌+◌, ◌≤◌, ◌<◌, ◌≡◌, ◌⊎◌, inl, inr, ◌∙◌, sym, refl, Option, none, some, List,
  [], ◌∷◌, ◌==◌, if◌then◌else◌, length, length-set, length-drop, get_or, get_or-set_ne, set, drop,
  arith,
}
use xnu_uboot_arm.Plist.Text.{
  seek, NextTag, get_next_tag, Fixed, fixed, no_end, fix_fuel, ends_tag, fix_from,
  fix_data_matching_tag,
}

-- The two texts have one length and differ at most from `lo` on and before `hi`.
pub record Within (lo hi : ℕ) (text text' : List ℕ) : Type 0 where
  pub size : length text' ≡ length text
  pub same : (i : ℕ) → (i < lo) ⊎ (hi ≤ i) → get_or text' i 0 ≡ get_or text i 0

pub Within-refl : (lo hi : ℕ) (text : List ℕ) → Within lo hi text text
Within-refl lo hi text = record { size = refl; same = λ i o. refl }

pub Within-trans :
    {text text1 text2 : List ℕ} (lo m hi : ℕ)
    → lo ≤ m
    → m ≤ hi
    → Within lo m text text1
    → Within m hi text1 text2
    → Within lo hi text text2
Within-trans lo m hi a b u v = record {
  size = v.size ∙ u.size;
  same = λ i o.
      v.same i (elim o [ inl l ↦ inl (omega arith) | inr r ↦ inr r ])
      ∙ u.same i (elim o [ inl l ↦ inl l | inr r ↦ inr (omega arith) ]);
}

Within-both :
    {lo hi : ℕ} {text text1 text2 : List ℕ}
    → Within lo hi text text1
    → Within lo hi text1 text2
    → Within lo hi text text2
Within-both u v = record { size = v.size ∙ u.size; same = λ i o. v.same i o ∙ u.same i o }

pub Within-wider :
    {text text1 : List ℕ} (lo hi top : ℕ)
    → hi ≤ top
    → Within lo hi text text1
    → Within lo top text text1
Within-wider lo hi top a u = record {
  size = u.size;
  same = λ i o. u.same i (elim o [ inl l ↦ inl l | inr r ↦ inr (omega arith) ]);
}

set-Within : (lo hi i v : ℕ) (text : List ℕ) → lo ≤ i → i < hi → Within lo hi text (set text i v)
set-Within lo hi i v text a b = record {
  size = length-set text i v;
  same = λ j o.
      get_or-set_ne text i j v 0
        (elim o [ inl l ↦ λ e. omega (arith, e) | inr r ↦ λ e. omega (arith, e) ]);
}

unfoldable Inside : List ℕ → Option ℕ → Type 0
Inside xs none = Unit {0}
Inside xs (some n) = n < length xs

seek-Inside : (c : ℕ) (xs : List ℕ) → Inside xs (seek c xs)
unfolding seek Inside
seek-Inside c [] = tt
seek-Inside c (x ∷ xs) =
    by_if (Inside (x ∷ xs)) (x == 0) (λ e. tt)
      (λ e.
        by_if (Inside (x ∷ xs)) (x == c) (λ e. omega arith)
          (λ e. later (seek c xs) (seek-Inside c xs)))
  where
    later :
        (r : Option ℕ)
        → Inside xs r
        → Inside (x ∷ xs) (elim r [ none ↦ none | some n ↦ some (suc n) ])
    later none k = tt
    later (some n) k = omega (arith, k)

pub record IsNext (text : List ℕ) (pos : ℕ) (found : NextTag) (text1 : List ℕ) : Type 0 where
  pub moves : 2 ≤ found.length
  pub name : found.name ≡ found.start + 1
  pub before : found.name < found.length
  pub bound : pos + found.length ≤ length text
  pub writes : Within pos (pos + found.length) text text1

unfoldable pub Found : List ℕ → ℕ → Option (NextTag × List ℕ) → Type 0
Found text pos none = Unit {0}
Found text pos (some (found, text1)) = IsNext text pos found text1

pub get_next_tag-Found : (text : List ℕ) (pos : ℕ) → Found text pos (get_next_tag text pos)
unfolding get_next_tag Found Inside
get_next_tag-Found text pos =
    at_start (seek b'<' (drop pos text)) (seek-Inside b'<' (drop pos text))
  where
    at_end :
        (cnt : ℕ) (r : Option ℕ)
        → cnt < length (drop pos text)
        → Inside (drop (pos + cnt + 1) text) r
        → Found text pos (elim r [
          | none ↦ none
          | some more ↦ some (
            record { start = cnt; name = cnt + 1; length = cnt + 1 + more + 1 },
            set text (pos + (cnt + 1 + more)) 0,
          )
        ])
    at_end cnt none a k = tt
    at_end cnt (some more) a k =
        let fits : pos + (cnt + 1 + more + 1) ≤ length text =
          omega (arith, k, length-drop (pos + cnt + 1) text) in
        record {
          moves = omega arith;
          name = refl;
          before = omega arith;
          bound = fits;
          writes =
              set-Within pos (pos + (cnt + 1 + more + 1)) (pos + (cnt + 1 + more)) 0 text
                (omega arith) (omega arith);
        }

    at_start :
        (r : Option ℕ)
        → Inside (drop pos text) r
        → Found text pos (elim r [
          | none ↦ none
          | some cnt ↦ elim (seek b'>' (drop (pos + cnt + 1) text)) [
            | none ↦ none
            | some more ↦ some (
              record { start = cnt; name = cnt + 1; length = cnt + 1 + more + 1 },
              set text (pos + (cnt + 1 + more)) 0,
            )
          ]
        ])
    at_start none k = tt
    at_start (some cnt) k =
        at_end cnt (seek b'>' (drop (pos + cnt + 1) text)) k
          (seek-Inside b'>' (drop (pos + cnt + 1) text))

unfoldable pub Fix : List ℕ → ℕ → Fixed → Type 0
Fix text pos (fixed len text1) = (pos + len ≤ length text) × Within pos (pos + len) text text1
Fix text pos (no_end text1) = Within pos (length text) text text1
Fix text pos fix_fuel = ⊥

fix_from-Fix :
    (fuel : ℕ) (name : List ℕ) (pos start : ℕ) (text0 text : List ℕ)
    → length text0 < fuel + (pos + start)
    → pos + start ≤ length text0
    → Within pos (pos + start) text0 text
    → Fix text0 pos (fix_from fuel name pos start text)
unfolding fix_from Fix Found
fix_from-Fix zero name pos start text0 text a b w = absurd (omega arith)
fix_from-Fix (suc n) name pos start text0 text a b w =
    at_tag (get_next_tag text (pos + start)) (fix_from-Fix n name pos)
      (get_next_tag-Found text (pos + start))
  where
    at_tag :
        (r : Option (NextTag × List ℕ))
        → ((s : ℕ) (text0 text1 : List ℕ)
            → length text0 < n + (pos + s)
            → pos + s ≤ length text0
            → Within pos (pos + s) text0 text1
            → Fix text0 pos (fix_from n name pos s text1))
        → Found text (pos + start) r
        → Fix text0 pos (elim r [
          | none ↦ no_end text
          | some (found, text1) ↦
              if ends_tag text1 name (pos + start + found.name)
              then fixed (start + found.length) (set text1 (pos + (start + found.start)) 0)
              else fix_from n name pos (start + found.length) text1
        ])
    at_tag none again k = Within-wider pos (pos + start) (length text0) b w
    at_tag (some (found, text1)) again k =
        let e : pos + start + found.length ≡ pos + (start + found.length) = omega arith in
        let s = start + found.length in
        let here : Within (pos + start) (pos + s) text text1 = rw (sym e) k.writes in
        let there : Within pos (pos + s) text0 text1 =
          Within-trans pos (pos + start) (pos + s) (omega arith) (omega arith) w here in
        let fits : pos + s ≤ length text0 = omega (arith, k.bound, w.size) in
        by_if (Fix text0 pos) (ends_tag text1 name (pos + start + found.name))
          (λ q. (
            fits,
            Within-both there (
                set-Within pos (pos + s) (pos + (start + found.start)) 0 text1 (omega arith)
                  (omega (arith, k.before, k.name))),
          ))
          (λ q. again s text0 text1 (omega (arith, a, k.moves)) fits there)

pub fix_data_matching_tag-Fix :
    (name : List ℕ) (pos : ℕ) (text : List ℕ)
    → pos ≤ length text
    → Fix text pos (fix_data_matching_tag name pos text)
unfolding fix_data_matching_tag
fix_data_matching_tag-Fix name pos text a =
    fix_from-Fix (length text + 1) name pos 0 text text (omega arith) (omega arith)
      (Within-refl pos (pos + 0) text)
