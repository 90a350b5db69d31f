-- ===== src/Lzss/Bounds.antt =====
-- `decompress_lzss` ends, and writes at most nine bytes for each byte it reads.
use xnu_uboot_arm.Base.{
  ℕ, zero, suc, ◌+◌, ◌*◌, ◌/◌, ◌%◌, ◌<◌, ◌≤◌, ◌≡◌, ◌∙◌, ap, ◌⊎◌, inl, inr, refl, none, some,
  Bool-cases, has_bit, Ram, read8, write8, SameOutside, arith,
}
use xnu_uboot_arm.Lzss.{
  Lzss, ring_size, threshold, emit, take_byte, copy_match, next_flags, one_item, round, rounds,
  initial, decompress_lzss,
}

-- From `s` to `s'`, `r` bytes are read and `n` are written, all behind the old output.
pub record Moves (r n : ℕ) (s s' : Lzss) : Type 0 where
  pub read : s'.src ≡ s.src + r
  pub grown : s'.dst ≡ s.dst + n
  pub same : SameOutside s.dst n s.ram s'.ram

Moves-trans :
    (r n r' n' r'' n'' : ℕ) (s t u : Lzss)
    → r + r' ≡ r''
    → n + n' ≡ n''
    → Moves r n s t
    → Moves r' n' t u
    → Moves r'' n'' s u
Moves-trans r n r' n' r'' n'' s t u er en p q = record {
  read = omega (arith, p.read, q.read);
  grown = omega (arith, p.grown, q.grown);
  same = λ a out. ground (arith, p.grown, p.same a, q.same a);
}

emit-Moves : (s : Lzss) (c : ℕ) → Moves 0 1 s (emit s c)
unfolding emit write8
emit-Moves s c = record { read = omega arith; grown = refl; same = λ a out. ground arith }

copy_match-Moves : (n i k : ℕ) (s : Lzss) → Moves 0 n s (copy_match n i k s)
unfolding copy_match
copy_match-Moves zero i k s = record {
  read = omega arith;
  grown = omega arith;
  same = λ a out. refl;
}
copy_match-Moves (suc n) i k s =
    let c = s.text_buf ((i + k) % ring_size) in
    Moves-trans 0 1 0 n 0 (suc n) s (emit s c) (copy_match n i (k + 1) (emit s c)) (omega arith)
      (omega arith) (emit-Moves s c) (copy_match-Moves n i (k + 1) (emit s c))

-- What one round does, if it does not leave the loop.
pub record Advances (srcend : ℕ) (s s' : Lzss) : Type 0 where
  pub reads : ℕ
  pub writes : ℕ
  pub moves : Moves reads writes s s'
  pub some_read : 1 ≤ reads
  pub bounded : writes ≤ 9 * reads
  pub inside : s'.src ≤ srcend

-- The state after a byte of the source is taken.
abbrev after_byte : Lzss → Lzss
after_byte s = record s { src = s.src + 1 }

take_byte-cases :
    (srcend : ℕ) (s : Lzss)
    → (take_byte srcend s ≡ none)
      ⊎ ((s.src < srcend) × (take_byte srcend s ≡ some (read8 s.ram s.src, after_byte s)))
unfolding take_byte
take_byte-cases srcend s = ground arith

after_byte-Moves : (s : Lzss) → Moves 1 0 s (after_byte s)
after_byte-Moves s = record { read = refl; grown = omega arith; same = λ a out. refl }

-- With or without a new byte of flags.
next_flags-cases :
    (srcend : ℕ) (s : Lzss)
    → s.src ≤ srcend
    → (next_flags srcend s ≡ none)
      ⊎ ((t : Lzss) × (r : ℕ) × (next_flags srcend s ≡ some t) × Moves r 0 s t × (t.src ≤ srcend))
unfolding next_flags
next_flags-cases srcend s h = elim (Bool-cases (has_bit 8 (s.flags / 2))) [
  | inl old ↦ inr (
    record s { flags = s.flags / 2 },
    0,
    rw old,
    record { read = omega arith; grown = omega arith; same = λ a out. refl },
    h,
  )
  | inr new ↦ elim (take_byte-cases srcend (record s { flags = s.flags / 2 })) [
    | inl e ↦ inl (rw (new, e, next_flags))
    | inr (b, e) ↦ inr (
      record s { src = s.src + 1; flags = read8 s.ram s.src + 0xFF00 },
      1,
      rw (new, e, next_flags),
      record { read = refl; grown = omega arith; same = λ a out. refl },
      omega arith,
    )
  ]
]

abbrev item_end : Lzss → ℕ → ℕ → Lzss
item_end s i j = copy_match (j % 16 + threshold + 1) (i + j / 16 % 16 * 256) 0 s

one_item-cases :
    (srcend : ℕ) (s : Lzss)
    → (one_item srcend s ≡ none) ⊎ ((t : Lzss) × (one_item srcend s ≡ some t) × Advances srcend s t)
unfolding one_item
one_item-cases srcend s = elim (Bool-cases (has_bit 0 s.flags)) [
  | inl literal ↦ elim (take_byte-cases srcend s) [
    | inl e ↦ inl (rw (literal, e, one_item))
    | inr (b, e) ↦
        let c = read8 s.ram s.src in
        let m =
          Moves-trans 1 0 0 1 1 1 s (after_byte s) (emit (after_byte s) c) refl refl
            (after_byte-Moves s) (emit-Moves (after_byte s) c) in
        inr (
          emit (after_byte s) c,
          rw (literal, e, one_item),
          record {
            reads = 1;
            writes = 1;
            moves = m;
            some_read = omega arith;
            bounded = omega arith;
            inside = omega (arith, m.read);
          },
        )
  ]
  | inr match ↦ elim (take_byte-cases srcend s) [
    | inl e ↦ inl (rw (match, e, one_item))
    | inr (b, e) ↦ elim (take_byte-cases srcend (after_byte s)) [
      | inl e' ↦ inl (rw (match, e, e', one_item))
      | inr (b', e') ↦
          let i = read8 s.ram s.src in
          let j = read8 s.ram (s.src + 1) in
          let u = after_byte (after_byte s) in
          let n = j % 16 + threshold + 1 in
          let m =
            Moves-trans 2 0 0 n 2 n s u (item_end u i j) refl (omega arith)
              (Moves-trans 1 0 1 0 2 0 s (after_byte s) u refl refl (after_byte-Moves s)
                (after_byte-Moves (after_byte s)))
              (copy_match-Moves n (i + j / 16 % 16 * 256) 0 u) in
          inr (
            item_end u i j,
            rw (match, e, e', one_item),
            record {
              reads = 2;
              writes = n;
              moves = m;
              some_read = omega arith;
              bounded = omega arith;
              inside = omega (arith, m.read);
            },
          )
    ]
  ]
]

round-cases :
    (srcend : ℕ) (s : Lzss)
    → s.src ≤ srcend
    → (round srcend s ≡ none) ⊎ ((t : Lzss) × (round srcend s ≡ some t) × Advances srcend s t)
unfolding round
round-cases srcend s h = elim (next_flags-cases srcend s h) [
  | inl e ↦ inl (rw (e, round))
  | inr (t, r, e, p, k) ↦ elim (one_item-cases srcend t) [
    | inl e' ↦ inl (rw (e, e', round))
    | inr (u, e', a) ↦ inr (
      u,
      rw (e, e', round),
      record {
        reads = r + a.reads;
        writes = a.writes;
        moves =
            Moves-trans r 0 a.reads a.writes (r + a.reads) a.writes s t u refl (omega arith) p
              a.moves;
        some_read = omega (arith, a.some_read);
        bounded = omega (arith, a.bounded);
        inside = a.inside;
      },
    )
  ]
]

-- The loop ends, with no more than nine bytes of output for each byte that was left to read.
rounds-bounded :
    (fuel srcend : ℕ) (s : Lzss)
    → s.src ≤ srcend
    → srcend < s.src + fuel
    → (m : Ram) × (n : ℕ) × (rounds fuel srcend s ≡ some (m, s.dst + n))
      × (n + 9 * s.src ≤ 9 * srcend)
      × SameOutside s.dst n s.ram m
unfolding rounds
rounds-bounded zero srcend s h k = absurd (omega arith)
rounds-bounded (suc fuel) srcend s h k = elim (round-cases srcend s h) [
  | inl e ↦ (
    s.ram,
    0,
    rw (e, rounds) (ap (λ (d : ℕ). some (s.ram, d)) (omega arith)),
    omega arith,
    λ a out. refl,
  )
  | inr (t, e, a) ↦
      let (m, n, run, bound, same) =
        rounds-bounded fuel srcend t a.inside (omega (arith, a.moves.read, a.some_read)) in
      (
        m,
        a.writes + n,
        rw (e, rounds) (run ∙ ap (λ (d : ℕ). some (m, d)) (omega (arith, a.moves.grown))),
        omega (arith, a.moves.read, a.bounded),
        λ b out. ground (arith, a.moves.grown, a.moves.same b, same b),
      )
]

-- For any source and whatever the stack holds, the decompressor returns; its output is at most
-- nine times as long as the source, and no byte of the memory outside the output changes.
pub decompress_lzss-bounded :
    (uninitialised : ℕ → ℕ) (m : Ram) (dst src srclen : ℕ)
    → (m' : Ram) × (n : ℕ) × (decompress_lzss uninitialised m dst src srclen ≡ some (m', n))
      × (n ≤ 9 * srclen)
      × SameOutside dst n m m'
unfolding decompress_lzss initial
decompress_lzss-bounded uninitialised m dst src srclen =
    let (m', n, run, bound, same) =
      rounds-bounded (srclen + 1) (src + srclen) (initial uninitialised m dst src) (omega arith)
        (omega arith) in
    (
      m',
      n,
      rw (run, decompress_lzss) (ap (λ (d : ℕ). some (m', d)) (omega arith)),
      omega arith,
      same,
    )
