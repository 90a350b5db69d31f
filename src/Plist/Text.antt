-- ===== src/Plist/Text.antt =====
-- `GetNextTag` and `FixDataMatchingTag`, serialize/xml_plist.c: the tags of the buffer by position.
use xnu_uboot_arm.Base.{
  ℕ, zero, suc, ◌+◌, Bool, Option, none, some, List, [], ◌∷◌, ◌==◌, ◌&&◌, if◌then◌else◌, strcmp_eq,
  length, set, get_or, drop,
}

-- The C string that starts at a position.
unfoldable pub until_nul : List ℕ → List ℕ
until_nul [] = []
until_nul (b ∷ bs) = if b == 0 then [] else b ∷ until_nul bs

unfoldable pub string_at : List ℕ → ℕ → List ℕ
string_at text pos = until_nul (drop pos text)

-- `while ((buffer[cnt] != '\0') && (buffer[cnt] != c)) cnt++`: the count, or none at the NUL.
unfoldable pub seek : (c : ℕ) → List ℕ → Option ℕ
seek c [] = none
seek c (b ∷ bs) =
    let rest = seek c bs in
    if b == 0
    then none
    else if b == c
    then some 0
    else elim rest [ none ↦ none | some n ↦ some (suc n) ]

-- `start`, the position of the tag's name behind `buffer`, and the returned length.
pub record NextTag : Type 0 where
  pub start : ℕ
  pub name : ℕ
  pub length : ℕ

unfoldable pub get_next_tag : List ℕ → (pos : ℕ) → Option (NextTag × List ℕ)
get_next_tag text pos = elim (seek b'<' (drop pos text)) [
  | none ↦ none
  | some cnt ↦ elim (seek b'>' (drop (pos + cnt + 1) text)) [
    | none ↦ none
    | some more ↦ some (
      record { start = cnt; name = cnt + 1; length = cnt + 1 + more + 1 },
      set text (pos + (cnt + 1 + more)) 0,
    )
  ]
]

-- Where a search for the matching end tag ends: with the length of the data and the end tag, with
-- -1, or without fuel.
pub data Fixed : Type 0 where
  fixed : (length : ℕ) (text : List ℕ) → Fixed
  no_end : (text : List ℕ) → Fixed
  fix_fuel : Fixed

-- `(*endTag == '/') && !strcmp(endTag + 1, tag)`
unfoldable pub ends_tag : (text name : List ℕ) → (pos : ℕ) → Bool
ends_tag text name pos = get_or text pos 0 == b'/' && strcmp_eq (string_at text (pos + 1)) name

-- `start` is the part of the buffer that was looked at.
unfoldable pub fix_from : (fuel : ℕ) → (name : List ℕ) → (pos start : ℕ) → (text : List ℕ) → Fixed
fix_from zero name pos start text = fix_fuel
fix_from (suc n) name pos start text = elim (get_next_tag text (pos + start)) [
  | none ↦ no_end text
  | some (found, text1) ↦
      let rest = fix_from n name pos (start + found.length) text1 in
      if ends_tag text1 name (pos + start + found.name)
      then fixed (start + found.length) (set text1 (pos + (start + found.start)) 0)
      else rest
]

unfoldable pub fix_data_matching_tag : (name : List ℕ) → (pos : ℕ) → (text : List ℕ) → Fixed
fix_data_matching_tag name pos text = fix_from (length text + 1) name pos 0 text
