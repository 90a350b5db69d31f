-- ===== src/Lzss/Window.antt =====
-- The state of `decompress_lzss` against the text so far: what is written, what the ring holds, and
-- what is still to be read.
use xnu_uboot_arm.Base.{
  ℕ, zero, suc, ◌+◌, ◌-◌, ◌%◌, ◌<◌, ◌≤◌, ◌≡◌, ◌≢◌, ◌⊎◌, inl, inr, ◌∙◌, sym, ap, refl, some, List,
  [], ◌∷◌, ◌++◌, length, get_or, drop, Ram, read8, write8, read_bytes, arith,
}
use xnu_uboot_arm.Lzss.{Lzss, ring_size, emit, take_byte, copy_match}
use xnu_uboot_arm.Lzss.Stream.{repeat, latest}

-- `n` bytes of the text are written from `dst` on and `more` are to come; `rest` is left to read, up
-- to `srcend`, and lies apart from where they go.
pub record At (dst srcend : ℕ) (text : List ℕ) (n more : ℕ) (rest : List ℕ) (s : Lzss)
    : Type 0 where
  pub output : s.dst ≡ dst + n
  pub in_ring : s.r < 4096
  pub window :
      (k : ℕ) → k < 4096 → k < length text → s.text_buf ((s.r + 4095 - k) % 4096) ≡ get_or text k 0
  pub bytes : (k : ℕ) → get_or text k 0 < 256
  pub written : read_bytes s.ram dst n ≡ latest n text
  pub source : read_bytes s.ram s.src (length rest) ≡ rest
  pub ends : s.src + length rest ≡ srcend
  pub apart : (s.dst + more ≤ s.src) ⊎ (srcend ≤ s.dst)

read_bytes-same :
    (m m' : Ram) (p n : ℕ)
    → ((a : ℕ) → p ≤ a → a < p + n → m' a ≡ m a)
    → read_bytes m' p n ≡ read_bytes m p n
unfolding read_bytes read8
read_bytes-same m m' p zero h = refl
read_bytes-same m m' p (suc n) h =
    let rest = read_bytes-same m m' (p + 1) n (λ a l u. h a (omega arith) (omega arith)) in
    rw (h p (omega arith) (omega arith)) (ap (◌∷◌ (m p % 256)) rest)

read_bytes-snoc :
    (m : Ram) (p n : ℕ) → read_bytes m p (suc n) ≡ read_bytes m p n ++ read8 m (p + n) ∷ []
unfolding read_bytes
read_bytes-snoc m p zero = let e : p + 0 ≡ p = omega arith in rw e refl
read_bytes-snoc m p (suc n) =
    let e : p + 1 + n ≡ p + suc n = omega arith in
    ap (◌∷◌ (read8 m p))
      (read_bytes-snoc m (p + 1) n ∙ ap (λ (a : ℕ). read_bytes m (p + 1) n ++ read8 m a ∷ []) e)

module _ {dst srcend : ℕ} {text : List ℕ} {n more : ℕ} {rest : List ℕ} (s : Lzss) where
  pub emit-At :
      (c : ℕ)
      → c < 256
      → At dst srcend text n (suc more) rest s
      → At dst srcend (c ∷ text) (suc n) more rest (emit s c)
  unfolding emit latest write8 read8
  emit-At c b k = record {
    output = omega (arith, k.output);
    in_ring = omega arith;
    window = λ j l h. newer j l h;
    bytes = λ j. byte j;
    written =
        read_bytes-snoc (write8 s.ram s.dst c) dst n
        ∙ ap (λ (xs : List ℕ). xs ++ read8 (write8 s.ram s.dst c) (dst + n) ∷ [])
            (read_bytes-same s.ram (write8 s.ram s.dst c) dst n
                (λ a l u. elsewhere a (λ e. omega (arith, k.output, u, e)))
              ∙ k.written)
        ∙ ap (λ (x : ℕ). latest n text ++ x ∷ []) there;
    source =
        read_bytes-same s.ram (write8 s.ram s.dst c) s.src (length rest) (λ a l u. elsewhere a (λ e.
          elim k.apart [ inl q ↦ omega (arith, q, l, e) | inr q ↦ omega (arith, q, u, e, k.ends) ]))
        ∙ k.source;
    ends = k.ends;
    apart = elim k.apart [ inl q ↦ inl (omega (arith, q)) | inr q ↦ inr (omega (arith, q)) ];
  }
    where
      elsewhere : (a : ℕ) → a ≢ s.dst → write8 s.ram s.dst c a ≡ s.ram a
      elsewhere a e = ground (arith, e)

      there : read8 (write8 s.ram s.dst c) (dst + n) ≡ c
      there = ground (arith, b, k.output)

      newer :
          (j : ℕ)
          → j < 4096
          → j < suc (length text)
          → (emit s c).text_buf (((s.r + 1) % 4096 + 4095 - j) % 4096) ≡ get_or (c ∷ text) j 0
      newer zero l h =
          let e : ((s.r + 1) % 4096 + 4095 - 0) % 4096 ≡ s.r = omega (arith, k.in_ring) in
          ground (arith, e)
      newer (suc j) l h =
          let back = ((s.r + 1) % 4096 + 4095 - suc j) % 4096 in
          let e : back ≡ (s.r + 4095 - j) % 4096 = omega (arith, k.in_ring, l) in
          let ne : back ≢ s.r = λ q. omega (arith, k.in_ring, l, q) in
          let old = k.window j (omega arith) (omega arith) in
          ground (arith, ne) ∙ ap s.text_buf e ∙ old

      byte : (j : ℕ) → get_or (c ∷ text) j 0 < 256
      byte zero = b
      byte (suc j) = k.bytes j

  -- The next byte that is left to read.
  pub take_byte-At :
      (b : ℕ)
      → At dst srcend text n more (b ∷ rest) s
      → (take_byte srcend s ≡ some (b, record s { src = s.src + 1 }))
        × At dst srcend text n more rest (record s { src = s.src + 1 })
  unfolding take_byte read_bytes
  take_byte-At b k =
      let first : read8 s.ram s.src ≡ b = ap (λ (xs : List ℕ). get_or xs 0 0) k.source in
      let more_left : s.src < srcend = omega (arith, k.ends) in
      (
        ground (arith, first, more_left),
        record {
          output = k.output;
          in_ring = k.in_ring;
          window = k.window;
          bytes = k.bytes;
          written = k.written;
          source = ap (drop 1) k.source;
          ends = omega (arith, k.ends);
          apart = elim k.apart [ inl q ↦ inl (omega arith) | inr q ↦ inr q ];
        },
      )

pub copy_match-r : (n i k : ℕ) (s : Lzss) → s.r < 4096 → (copy_match n i k s).r ≡ (s.r + n) % 4096
unfolding copy_match emit
copy_match-r zero i k s h = omega (arith, h)
copy_match-r (suc n) i k s h =
    let c = s.text_buf ((i + k) % ring_size) in
    omega (arith, copy_match-r n i (k + 1) (emit s c) (omega arith))

pub copy_match-flags : (n i k : ℕ) (s : Lzss) → (copy_match n i k s).flags ≡ s.flags
unfolding copy_match emit
copy_match-flags zero i k s = refl
copy_match-flags (suc n) i k s =
    copy_match-flags n i (k + 1) (emit s (s.text_buf ((i + k) % ring_size)))

-- A match copies from the ring what the text has `distance` bytes back.
pub copy_match-At :
    {dst srcend : ℕ} {rest : List ℕ} (size distance i k : ℕ) (text : List ℕ) (n m more : ℕ)
    (s : Lzss)
    → 1 ≤ distance
    → distance ≤ 4096
    → distance ≤ length text
    → (i + k) % 4096 ≡ (s.r + 4096 - distance) % 4096
    → n + size ≡ m
    → At dst srcend text n (size + more) rest s
    → At dst srcend (repeat size distance text) m more rest (copy_match size i k s)
unfolding copy_match repeat
copy_match-At {dst} {srcend} {rest} zero distance i k text n m more s a b c e p at =
    let none_left : 0 + more ≡ more = omega arith in
    let same : m ≡ n = omega (arith, p) in
    let here : At dst srcend text n more rest s = rw none_left at at in rw same here
copy_match-At {dst} {srcend} {rest} (suc size) distance i k text n m more s a b c e p at =
    let copied = s.text_buf ((i + k) % ring_size) in
    let old : copied ≡ get_or text (distance - 1) 0 =
      ap s.text_buf (omega (arith, a, b, e, at.in_ring))
      ∙ at.window (distance - 1) (omega arith) (omega arith) in
    let left : suc size + more ≡ suc (size + more) = omega arith in
    let here : At dst srcend text n (suc (size + more)) rest s = rw left at at in
    let small : copied < 256 = omega (arith, old, at.bytes (distance - 1)) in
    let sent = emit-At s copied small here in
    let next : At dst srcend (get_or text (distance - 1) 0 ∷ text) (suc n) (size + more) rest
        (emit s copied) =
      rw (sym old) sent in
    copy_match-At size distance i (k + 1) (get_or text (distance - 1) 0 ∷ text) (suc n) m more
      (emit s copied) a b (omega arith) (unfold emit in omega (arith, e, a, b, at.in_ring))
      (omega (arith, p)) next
