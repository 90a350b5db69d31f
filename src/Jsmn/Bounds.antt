-- ===== src/Jsmn/Bounds.antt =====
-- Each round of the tokenizer keeps its indices inside the array of tokens, and moves on.
use xnu_uboot_arm.Base.{
  ℕ, zero, suc, ◌+◌, ◌<◌, ◌≤◌, ◌≡◌, ◌≢◌, ◌⊎◌, inl, inr, refl, ap, sym, ◌∙◌, false, Bool-cases,
  Option-cases, Option, none, some, List, [], ◌∷◌, leb, length, drop, arith,
}
use xnu_uboot_arm.Jsmn.{
  TokenType, object, array, put_token, token_at, same_type, Error, success, nomem, inval, part,
  Parser, at, ends_primitive, primitive_end, jsmn_alloc_token, jsmn_parse_primitive, StringEnd,
  closed, bad_escape, unclosed, string_end, jsmn_parse_string, jsmn_comment_length, find_open,
  count_child, add_children_token, open_token, close_token, counted, parse_char,
}

-- No more tokens than the array has, and the superior token is one of them.
pub record IsWithin (num_tokens : ℕ) (p : Parser) : Type 0 where
  pub in_array : p.toknext ≤ num_tokens
  pub super_below : (i : ℕ) → p.toksuper ≡ some i → i < p.toknext

-- After a part of the parse: the indices are in order, no token is lost, the text is not read again.
pub record Moved (num_tokens : ℕ) (p p' : Parser) : Type 0 where
  pub within : IsWithin num_tokens p'
  pub kept : p.toknext ≤ p'.toknext
  pub forward : p.pos ≤ p'.pos

find_open-lt : (p : Parser) (n i : ℕ) → find_open p n ≡ some i → i < n
unfolding find_open
find_open-lt p zero i h = cc
find_open-lt p (suc n) i h = ground (arith, find_open-lt p n i)

pub at-lt : (js : List ℕ) (i : ℕ) → at js i ≢ 0 → i < length js
at-lt [] i h = absurd (h refl)
at-lt (c ∷ js) zero h = omega arith
at-lt (c ∷ js) (suc i) h = omega (arith, at-lt js i h)

drop-at : (js : List ℕ) (i : ℕ) → at js i ≢ 0 → drop i js ≡ at js i ∷ drop (suc i) js
drop-at [] i h = absurd (h refl)
drop-at (c ∷ js) zero h = refl
drop-at (c ∷ js) (suc i) h = drop-at js i h

primitive_end-ge : (r : List ℕ) (pos e : ℕ) → primitive_end r pos ≡ some e → pos ≤ e
unfolding primitive_end
primitive_end-ge [] pos e h = ground arith
primitive_end-ge (c ∷ r) pos e h = ground (arith, primitive_end-ge r (pos + 1) e)

string_end-ge : (delim : ℕ) (r : List ℕ) (pos e : ℕ) → string_end delim r pos ≡ closed e → pos ≤ e
unfolding string_end
string_end-ge delim [] pos e h = cc
string_end-ge delim (c ∷ []) pos e h = ground arith
string_end-ge delim (c ∷ x ∷ r) pos e h =
    ground (arith, string_end-ge delim (x ∷ r) (pos + 1) e, string_end-ge delim r (pos + 2) e)

count_child-same :
    (p : Parser)
    → ((count_child p).toknext ≡ p.toknext)
      × ((count_child p).pos ≡ p.pos)
      × ((count_child p).toksuper ≡ p.toksuper)
unfolding count_child
count_child-same p = elim (Option-cases p.toksuper) [
  | inl e ↦ rw (e, count_child) (refl, refl, e)
  | inr (i, e) ↦ rw (e, count_child) (refl, refl, e)
]

module _ (js : List ℕ) (num_tokens : ℕ) (p : Parser) (h : IsWithin num_tokens p) where
  abbrev pub Fine : Error × Parser → Type 0
  Fine (e, p') = Moved num_tokens p p'

  pub unmoved : Moved num_tokens p p
  unmoved = record { within = h; kept = omega arith; forward = omega arith }

  -- The same superior token, and at most one token more.
  Moved-grown :
      (q : Parser)
      → p.toknext ≤ q.toknext
      → q.toknext ≤ num_tokens
      → p.pos ≤ q.pos
      → q.toksuper ≡ p.toksuper
      → Moved num_tokens p q
  Moved-grown q n room o same = record {
    within = record {
      in_array = room;
      super_below = λ i e. omega (arith, h.super_below i (sym same ∙ e));
    };
    kept = n;
    forward = o;
  }

  Moved-count : (q : Parser) → Moved num_tokens p q → Moved num_tokens p (count_child q)
  Moved-count q m =
      let same = count_child-same q in
      record {
        within = record {
          in_array = omega (arith, m.within.in_array, same.0);
          super_below = λ i e. omega (arith, same.0, m.within.super_below i (sym same.2 ∙ e));
        };
        kept = omega (arith, m.kept, same.0);
        forward = omega (arith, m.forward, same.1);
      }

  alloc-cases :
      (jsmn_alloc_token num_tokens p ≡ none)
      ⊎ ((p' : Parser) × (jsmn_alloc_token num_tokens p ≡ some (p.toknext, p'))
          × (p.toknext < num_tokens)
          × (p'.toknext ≡ p.toknext + 1)
          × (p'.pos ≡ p.pos)
          × (p'.toksuper ≡ p.toksuper))
  unfolding jsmn_alloc_token
  alloc-cases = elim (Bool-cases (leb num_tokens p.toknext)) [
    | inl full ↦ inl (rw (full, jsmn_alloc_token))
    | inr free ↦
        let blank = record (token_at p p.toknext) { start = none; end = none; size = 0 } in
        inr (
          record (put_token p p.toknext blank) { toknext = p.toknext + 1 },
          rw (free, jsmn_alloc_token),
          ground arith,
          refl,
          refl,
          refl,
        )
  ]

  add_children_token-Fine : Fine (add_children_token num_tokens p)
  unfolding add_children_token
  add_children_token-Fine = elim alloc-cases [
    | inl e ↦ rw (e, add_children_token) unmoved
    | inr (p', e, room, n, o, s) ↦
        rw (e, add_children_token)
          (Moved-count _ (Moved-grown _ (omega (arith, n)) (omega (arith, n)) (omega (arith, o)) s))
  ]

  open_token-Fine : (type : TokenType) → Fine (open_token num_tokens type p)
  unfolding open_token
  open_token-Fine type = elim alloc-cases [
    | inl e ↦ rw (e, open_token) unmoved
    | inr (p', e, room, n, o, s) ↦
        let same = count_child-same p' in
        rw (e, open_token)
          (record {
            within = record {
              in_array = omega (arith, same.0, n);
              super_below = λ i x. ground (arith, same.0, n, x);
            };
            kept = omega (arith, same.0, n);
            forward = omega (arith, same.1, o);
          })
  ]

  close_token-Fine : (type : TokenType) → Fine (close_token type p)
  unfolding close_token
  close_token-Fine type = elim (Option-cases (find_open p p.toknext)) [
    | inl e ↦ rw (e, close_token) unmoved
    | inr (i, e) ↦
        let below = find_open-lt p p.toknext i e in
        elim (Bool-cases (same_type (token_at p i).type type)) [
          | inr other ↦ rw (e, other, close_token) unmoved
          | inl same ↦
              rw (e, same, close_token)
                (record {
                  within = record {
                    in_array = h.in_array;
                    super_below = λ j x. omega (arith, below, find_open-lt _ (suc i) j x);
                  };
                  kept = omega arith;
                  forward = omega arith;
                })
        ]
  ]

  jsmn_parse_string-Fine : (delim : ℕ) → Fine (jsmn_parse_string js num_tokens delim p)
  unfolding jsmn_parse_string
  jsmn_parse_string-Fine delim = go (string_end delim (drop (p.pos + 1) js) (p.pos + 1)) refl
    where
      go :
          (r : StringEnd)
          → string_end delim (drop (p.pos + 1) js) (p.pos + 1) ≡ r
          → Fine (jsmn_parse_string js num_tokens delim p)
      go unclosed e = rw (e, jsmn_parse_string) unmoved
      go bad_escape e = rw (e, jsmn_parse_string) unmoved
      go (closed end) e = elim alloc-cases [
        | inl full ↦ rw (e, full, jsmn_parse_string) unmoved
        | inr (p', a, room, n, o, s) ↦
            let ge = string_end-ge delim (drop (p.pos + 1) js) (p.pos + 1) end e in
            rw (e, a, jsmn_parse_string)
              (Moved-grown _ (omega (arith, n)) (omega (arith, n)) (omega (arith, ge)) s)
      ]

  jsmn_parse_primitive-Fine :
      at js p.pos ≢ 0
      → ends_primitive (at js p.pos) ≡ false
      → Fine (jsmn_parse_primitive js num_tokens p)
  unfolding jsmn_parse_primitive primitive_end
  jsmn_parse_primitive-Fine some_char inner =
      elim (Option-cases (primitive_end (drop p.pos js) p.pos)) [
        | inl e ↦ rw (e, jsmn_parse_primitive) unmoved
        | inr (end, e) ↦ elim alloc-cases [
          | inl full ↦ rw (e, full, jsmn_parse_primitive) unmoved
          | inr (p', a, room, n, o, s) ↦
              let here = drop-at js p.pos some_char in
              let ge : p.pos + 1 ≤ end = ground (
                arith,
                inner,
                primitive_end-ge (drop (suc p.pos) js) (p.pos + 1) end,
                sym (ap (λ (r : List ℕ). primitive_end r p.pos) here) ∙ e,
              ) in
              rw (e, a, jsmn_parse_primitive)
                (Moved-grown _ (omega (arith, n)) (omega (arith, n)) (omega (arith, ge)) s)
        ]
      ]

  counted-Fine : (r : Error × Parser) → Fine r → Fine (counted r)
  counted-Fine (success, q) m = Moved-count q m
  counted-Fine (nomem, q) m = m
  counted-Fine (inval, q) m = m
  counted-Fine (part, q) m = m

  abbrev pub FineOrOverread : Option (Error × Parser) → Type 0
  FineOrOverread none = Unit {0}
  FineOrOverread (some r) = Fine r

  comment-Fine :
      (len : Option ℕ)
      → FineOrOverread
          (elim len [ none ↦ none | some n ↦ some (success, record p { pos = p.pos + n }) ])
  comment-Fine none = tt
  comment-Fine (some n) = Moved-grown _ (omega arith) h.in_array (omega arith) refl

  pub parse_char-Fine : at js p.pos ≢ 0 → FineOrOverread (parse_char js num_tokens p)
  unfolding parse_char
  parse_char-Fine some_char = ground (
    arith,
    comment-Fine (jsmn_comment_length (drop p.pos js)),
    add_children_token-Fine,
    open_token-Fine object,
    open_token-Fine array,
    close_token-Fine object,
    close_token-Fine array,
    counted-Fine (jsmn_parse_string js num_tokens (at js p.pos) p)
        (jsmn_parse_string-Fine (at js p.pos)),
    unmoved,
    counted-Fine (jsmn_parse_primitive js num_tokens p),
    jsmn_parse_primitive-Fine some_char,
  )
