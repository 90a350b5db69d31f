-- ===== src/Lzss/Loop.antt =====
-- The loop of `decompress_lzss`, over a group of items and over a whole stream.
use mathlib.Core.List.{append_assoc}
use xnu_uboot_arm.Base.{
  ℕ, zero, suc, ◌+◌, ◌*◌, ◌/◌, ◌%◌, ◌<◌, ◌≤◌, ◌≡◌, ◌⊎◌, inl, inr, ◌∙◌, ap, refl, true, false,
  Option, some, List, [], ◌∷◌, ◌++◌, length, length-append, has_bit, Ram, arith,
}
use xnu_uboot_arm.Lzss.{Lzss, ring_size, next_flags, one_item, round, rounds}
use xnu_uboot_arm.Lzss.Stream.{
  Item, literal, match, expand_item, expand_group, expand, item_size, group_size, stream_size,
  write_item, write_items, flag_bits, write_stream, IsGroup, IsStream,
}
use xnu_uboot_arm.Lzss.Window.{At, take_byte-At}
use xnu_uboot_arm.Lzss.Items.{double, flag_bits-lt, has_more, one_item-Took, round_end}

module _ (dst srcend : ℕ) where
  write_item_some : (r : ℕ) (x : Item) → 1 ≤ length (write_item r x)
  unfolding write_item
  write_item_some r (literal c) = omega arith
  write_item_some r (match distance size) = omega arith

  At-flags :
      (flags : ℕ) {text : List ℕ} {n more : ℕ} {rest : List ℕ} (s : Lzss)
      → At dst srcend text n more rest s
      → At dst srcend text n more rest (record s { flags = flags })
  At-flags flags s at = record {
    output = at.output;
    in_ring = at.in_ring;
    window = at.window;
    bytes = at.bytes;
    written = at.written;
    source = at.source;
    ends = at.ends;
    apart = at.apart;
  }

  -- The state before a round, with `k` flags left for the items of a group.
  record InGroup (k : ℕ) (xs : List Item) (text : List ℕ) (n more : ℕ) (rest : List ℕ) (s : Lzss)
      : Type 0 where
    pub at : At dst srcend text n (group_size xs + more) (write_items s.r xs ++ rest) s
    pub flags : s.flags / 2 ≡ flag_bits xs + double k * 255
    pub valid : IsGroup xs text

  -- An item of the group, behind the step on the flags.
  record Stepped (k : ℕ) (x : Item) (xs : List Item) (text : List ℕ) (n more : ℕ) (rest : List ℕ)
      (t : Lzss) : Type 0 where
    pub next : Lzss
    pub ran : one_item srcend t ≡ some next
    pub group : InGroup k xs (expand_item x text) (n + item_size x) more rest next
    pub place : next.r ≡ (t.r + item_size x) % 4096
    pub forward : t.src < next.src

  step :
      (k : ℕ) (x : Item) (xs : List Item) (text : List ℕ) (n more : ℕ) (rest : List ℕ) (t : Lzss)
      → t.flags ≡ flag_bits (x ∷ xs) + double (suc k) * 255
      → IsGroup (x ∷ xs) text
      → At dst srcend text n (group_size (x ∷ xs) + more) (write_items t.r (x ∷ xs) ++ rest) t
      → Stepped k x xs text n more rest t
  unfolding group_size write_items IsGroup
  step k x xs text n more rest t f valid at =
      let later = (t.r + item_size x) % ring_size in
      let sizes : item_size x + group_size xs + more ≡ item_size x + (group_size xs + more) =
        omega arith in
      let here : At dst srcend text n (item_size x + (group_size xs + more))
          (write_item t.r x ++ (write_items later xs ++ rest)) t =
        rw (sizes, append_assoc (write_item t.r x) (write_items later xs) rest) at at in
      let (u, took, f') = one_item-Took text t x xs k f valid.0 here in
      record {
        next = u;
        ran = took.ran;
        group = record {
          at = rw took.place took.at;
          flags = ap (λ (a : ℕ). a / 2) took.flags ∙ f';
          valid = valid.1;
        };
        place = took.place;
        forward = omega (
          arith,
          here.ends,
          took.at.ends,
          write_item_some t.r x,
          length-append (write_item t.r x) (write_items later xs ++ rest),
        );
      }

  -- A byte of flags is read before the first item of a group.
  next_flags-load :
      (b : ℕ) {text : List ℕ} {n more : ℕ} {rest : List ℕ} (s : Lzss)
      → has_bit 8 (s.flags / 2) ≡ false
      → At dst srcend text n more (b ∷ rest) s
      → (next_flags srcend s ≡ some (record s { src = s.src + 1; flags = b + 0xFF00 }))
        × At dst srcend text n more rest (record s { src = s.src + 1; flags = b + 0xFF00 })
  unfolding next_flags
  next_flags-load b s bit at =
      let shifted : Lzss = record s { flags = s.flags / 2 } in
      let (taken, after) = take_byte-At shifted b (At-flags (s.flags / 2) s at) in
      (rw (bit, taken) refl, At-flags (b + 0xFF00) (record shifted { src = s.src + 1 }) after)

  -- The loop goes on to `P` from every state that a group or a stream leaves.
  module _ (P : Option (Ram × ℕ) → Type 0) where
    abbrev Leads : (text : List ℕ) (n more : ℕ) (rest : List ℕ) (place : ℕ) → Type 0
    Leads text n more rest place =
        (fuel : ℕ) (s : Lzss)
        → At dst srcend text n more rest s
        → s.r ≡ place
        → (has_bit 8 (s.flags / 2) ≡ false) ⊎ (rest ≡ [])
        → srcend < s.src + fuel
        → P (rounds fuel srcend s)

    in_group :
        (k : ℕ) (xs : List Item) (text : List ℕ) (n more : ℕ) (rest : List ℕ) (fuel : ℕ) (s : Lzss)
        → k ≤ 7
        → length xs ≤ k
        → (length xs ≡ k) ⊎ (rest ≡ [])
        → InGroup k xs text n more rest s
        → srcend < s.src + fuel
        → Leads (expand_group xs text) (n + group_size xs) more rest ((s.r + group_size xs) % 4096)
        → P (rounds fuel srcend s)
    unfolding rounds round next_flags IsGroup group_size write_items expand_group flag_bits double
    in_group k [] text n more rest fuel s l h full g enough leads =
        let count : n + 0 ≡ n = omega arith in
        let left : 0 + more ≡ more = omega arith in
        let here : At dst srcend text n more rest s = rw left at g.at in
        let place : s.r ≡ (s.r + 0) % 4096 = omega (arith, g.at.in_ring) in
        leads fuel s (rw count here) place
          (elim full [ inl e ↦ inl (no_more k e g.flags) | inr e ↦ inr e ]) enough
      where
        no_more :
            (k : ℕ) → 0 ≡ k → s.flags / 2 ≡ 0 + double k * 255 → has_bit 8 (s.flags / 2) ≡ false
        no_more zero e f = ground (arith, f)
        no_more (suc k) e f = absurd (omega (arith, e))
    in_group zero (x ∷ xs) text n more rest fuel s l h full g enough leads =
        absurd (omega (arith, h))
    in_group (suc k) (x ∷ xs) text n more rest zero s l h full g enough leads =
        absurd (omega (arith, enough, g.at.ends))
    in_group (suc k) (x ∷ xs) text n more rest (suc fuel) s l h full g enough leads =
        let t : Lzss = record s { flags = s.flags / 2 } in
        let st = step k x xs text n more rest t g.flags g.valid (At-flags (s.flags / 2) s g.at) in
        let bit : has_bit 8 (s.flags / 2) ≡ true =
          ap (has_bit 8) g.flags
          ∙ has_more (flag_bits (x ∷ xs)) k (flag_bits-lt (x ∷ xs) (suc k) h) (omega arith) in
        let ran : round srcend s ≡ some st.next = rw (bit, st.ran, round) refl in
        let assoc : n + (item_size x + group_size xs) ≡ n + item_size x + group_size xs =
          omega arith in
        rw (ran, rounds)
          (in_group k xs (expand_item x text) (n + item_size x) more rest fuel st.next (omega arith)
            (omega (arith, h)) (elim full [ inl e ↦ inl (omega (arith, e)) | inr e ↦ inr e ])
            st.group (omega (arith, st.forward))
            (λ fuel' s' at' place' end' enough'.
              leads fuel' s' (rw assoc at') (place' ∙ omega (arith, st.place)) end' enough'))

    IsStream-cases :
        (g : List Item) (gs : List (List Item)) (text : List ℕ)
        → IsStream (g ∷ gs) text
        → (1 ≤ length g)
          × (length g ≤ 8)
          × ((length g ≡ 8) ⊎ (gs ≡ []))
          × IsGroup g text
          × IsStream gs (expand_group g text)
    unfolding IsStream
    IsStream-cases g [] text (a, b, valid) = (a, b, inr refl, valid, tt)
    IsStream-cases g (g' ∷ gs) text (e, valid, more) =
        (omega (arith, e), omega (arith, e), inl e, valid, more)

    module _ (total : ℕ) (final : List ℕ)
        (leave : (s : Lzss) → At dst srcend final total 0 [] s → P (some (s.ram, s.dst))) where
      pub stream :
          (gs : List (List Item)) (text : List ℕ) (n fuel : ℕ) (s : Lzss)
          → IsStream gs text
          → n + stream_size gs ≡ total
          → expand gs text ≡ final
          → At dst srcend text n (stream_size gs) (write_stream s.r gs) s
          → (has_bit 8 (s.flags / 2) ≡ false) ⊎ (write_stream s.r gs ≡ [])
          → srcend < s.src + fuel
          → P (rounds fuel srcend s)
      unfolding write_stream stream_size expand expand_group group_size rounds round double
      stream [] text n zero s valid size ends at bit enough =
          absurd (omega (arith, enough, at.ends))
      stream [] text n (suc fuel) s valid size ends at bit enough =
          let count : n ≡ total = omega (arith, size) in
          let out = round_end srcend s (omega (arith, at.ends)) in
          rw (out, rounds) (leave s (rw (count, ends) at at))
      stream (g ∷ gs) text n zero s valid size ends at bit enough =
          absurd (omega (arith, enough, at.ends))
      stream ([] ∷ gs) text n (suc fuel) s valid size ends at bit enough =
          let v = IsStream-cases [] gs text valid in absurd (omega (arith, v.0))
      stream ((x ∷ xs) ∷ gs) text n (suc fuel) s valid size ends at (inr e) enough =
          absurd (omega (arith, ap length e))
      stream ((x ∷ xs) ∷ gs) text n (suc fuel) s valid size ends at (inl bit) enough =
          let (_, short, full, group, later) = IsStream-cases (x ∷ xs) gs text valid in
          let rest = write_stream ((s.r + group_size (x ∷ xs)) % ring_size) gs in
          let fb = flag_bits (x ∷ xs) in
          let (loaded, at') = next_flags-load fb s bit at in
          let t : Lzss = record s { src = s.src + 1; flags = fb + 0xFF00 } in
          let flags : fb + 0xFF00 ≡ fb + double 8 * 255 = refl in
          let st = step 7 x xs text n (stream_size gs) rest t flags group at' in
          let ran : round srcend s ≡ some st.next = rw (loaded, st.ran, round) refl in
          rw (ran, rounds)
            (in_group 7 xs (expand_item x text) (n + item_size x) (stream_size gs) rest fuel st.next
              (omega arith) (omega (arith, short))
              (elim full [
                | inl e ↦ inl (omega (arith, e))
                | inr e ↦ inr (ap (write_stream ((s.r + group_size (x ∷ xs)) % ring_size)) e)
              ])
              st.group (omega (arith, st.forward, enough))
              (λ fuel' s' at'' place' end' enough'.
                let place : s'.r ≡ (s.r + group_size (x ∷ xs)) % ring_size =
                  place' ∙ omega (arith, st.place) in
                let same : write_stream s'.r gs ≡ rest = ap (λ (a : ℕ). write_stream a gs) place in
                stream gs (expand_group xs (expand_item x text)) (n + item_size x + group_size xs)
                  fuel' s' later (omega (arith, size)) ends (rw same at'') (rw same end') enough'))
