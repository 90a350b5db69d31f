-- ===== src/Jsmn/Parse.antt =====
-- The loop of the tokenizer ends, with its indices inside the array of tokens.
use xnu_uboot_arm.Base.{
  ℕ, zero, suc, ◌+◌, ◌<◌, ◌≤◌, ◌≢◌, Bool-cases, inl, inr, Option-cases, Option, none, some, List,
  ◌==◌, length, arith,
}
use xnu_uboot_arm.Jsmn.{
  Error, success, nomem, inval, part, Parser, at, find_open, parse_char, Parsed, parsed, overread,
  out_of_fuel, parse_loop, jsmn_parse,
}
use xnu_uboot_arm.Jsmn.Bounds.{IsWithin, Moved, FineOrOverread, unmoved, at-lt, parse_char-Fine}

module _ (js : List ℕ) (num_tokens : ℕ) where
  -- What a run from `p` leaves, unless a comment leads out of the text.
  abbrev pub Kept : Parser → Parsed → Type 0
  Kept p (parsed e p') = Moved num_tokens p p'
  Kept p overread = Unit {0}
  Kept p out_of_fuel = ⊥

  Kept-next :
      (p q : Parser)
      → Moved num_tokens p q
      → (r : Parsed) → Kept (record q { pos = q.pos + 1 }) r
      → Kept p r
  Kept-next p q m (parsed e p') n = record {
    within = n.within;
    kept = omega (arith, m.kept, n.kept);
    forward = omega (arith, m.forward, n.forward);
  }
  Kept-next p q m overread n = n
  Kept-next p q m out_of_fuel n = n

  parse_loop-Kept :
      (fuel : ℕ) (p : Parser)
      → IsWithin num_tokens p
      → 1 ≤ fuel
      → length js < p.pos + fuel
      → Kept p (parse_loop fuel js num_tokens p)
  unfolding parse_loop
  parse_loop-Kept zero p h some_fuel enough = absurd (omega arith)
  parse_loop-Kept (suc fuel) p h some_fuel enough = elim (Bool-cases (at js p.pos == 0)) [
    | inl end ↦ elim (Option-cases (find_open p p.toknext)) [
      | inl e ↦ rw (end, e, parse_loop) (unmoved js num_tokens p h)
      | inr (i, e) ↦ rw (end, e, parse_loop) (unmoved js num_tokens p h)
    ]
    | inr more ↦
        let some_char : at js p.pos ≢ 0 = ground arith in
        let inside = at-lt js p.pos some_char in
        rw (more, parse_loop)
          (go (parse_char js num_tokens p) (parse_char-Fine js num_tokens p h some_char) (λ q m.
            Kept-next p q m _ (
              parse_loop-Kept fuel (record q { pos = q.pos + 1 })
                (record { in_array = m.within.in_array; super_below = m.within.super_below })
                (omega arith) (omega (arith, m.forward)))))
  ]
    where
      go :
          (r : Option (Error × Parser))
          → FineOrOverread js num_tokens p h r
          → ((q : Parser)
              → Moved num_tokens p q
              → Kept p (parse_loop fuel js num_tokens (record q { pos = q.pos + 1 })))
          → Kept p (elim r [
            | none ↦ overread
            | some (success, q) ↦ parse_loop fuel js num_tokens (record q { pos = q.pos + 1 })
            | some (e, q) ↦ parsed e q
          ])
      go none f rest = tt
      go (some (success, q)) f rest = rest q f
      go (some (nomem, q)) f rest = f
      go (some (inval, q)) f rest = f
      go (some (part, q)) f rest = f

  -- From a parser whose tokens fit in the array, with its superior token among them, the tokenizer
  -- ends for every text, by a result or by a comment that leads out of the text. With a result,
  -- success or error, the tokens still fit and the superior token is one of them, no token is
  -- lost, and the position is not moved back.
  pub jsmn_parse-Kept : (p : Parser) → IsWithin num_tokens p → Kept p (jsmn_parse js num_tokens p)
  unfolding jsmn_parse
  jsmn_parse-Kept p h = parse_loop-Kept (length js + 1) p h (omega arith) (omega arith)
