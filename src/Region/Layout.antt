-- ===== src/Region/Layout.antt =====
-- Where `memory_reserve` puts its blocks.
use native.Mathlib.Nat.{one-le-pow}
use mathlib.Core.Path.{subst}
use xnu_uboot_arm.Base.{
  ℕ, Option, none, some, inl, inr, ◌+◌, ◌%◌, ◌^◌, ◌<◌, ◌≤◌, ◌≡◌, ◌⊎◌, Bool, true, false, List, [],
  ◌∷◌, sub32, word, arith, refl,
}
use xnu_uboot_arm.Runtime.{Range, range, Runtime, IsRuntime}
use xnu_uboot_arm.Region.{Region, memory_reserve}

-- A request for `size` bytes, on no boundary or on one of 2 ^ k bytes.
pub record Request : Type 0 where
  pub size : ℕ
  pub order : Option ℕ

abbrev pub boundary : Option ℕ → ℕ
boundary none = 0
boundary (some k) = 2 ^ k

abbrev pub IsAligned : Option ℕ → ℕ → Type 0
IsAligned none a = Unit {0}
IsAligned (some k) a = a % 2 ^ k ≡ 0

-- The request does not move the region out of the 32-bit space.
abbrev pub HasRoom : Bool → (pos size : ℕ) → Option ℕ → Type 0
HasRoom true pos size order = (pos < word) × (size ≤ pos)
HasRoom false pos size order = pos + boundary order + size < word

-- The block lies beyond all that was reserved before: below the old position if the region grows
-- downwards, else above it. The new position stands at the block's other end.
abbrev pub Beyond : Bool → (pos size start pos' : ℕ) → Type 0
Beyond true pos size start pos' = (start + size ≤ pos) × (pos' ≡ start)
Beyond false pos size start pos' = (pos ≤ start) × (pos' ≡ start + size)

-- The block lies on the free side of the position.
abbrev pub Past : Bool → ℕ → Range → Type 0
Past true pos b = b.base + b.size ≤ pos
Past false pos b = pos ≤ b.base

abbrev pub AllPast : Bool → ℕ → List Range → Type 0
AllPast d pos [] = Unit {0}
AllPast d pos (b ∷ bs) = Past d pos b × AllPast d pos bs

-- No two blocks share an address.
abbrev pub Apart : Range → Range → Type 0
Apart a b = (a.base + a.size ≤ b.base) ⊎ (b.base + b.size ≤ a.base)

abbrev pub ApartAll : Range → List Range → Type 0
ApartAll a [] = Unit {0}
ApartAll a (b ∷ bs) = Apart a b × ApartAll a bs

abbrev pub AreDisjoint : List Range → Type 0
AreDisjoint [] = Unit {0}
AreDisjoint (b ∷ bs) = ApartAll b bs × AreDisjoint bs

module _ (p n start p' : ℕ) where
  Past-Beyond : (d : Bool) (b : Range) → Beyond d p n start p' → Past d p' b → Past d p b
  Past-Beyond true b h k = omega arith
  Past-Beyond false b h k = omega arith

  AllPast-Beyond :
      (d : Bool) (bs : List Range) → Beyond d p n start p' → AllPast d p' bs → AllPast d p bs
  AllPast-Beyond d [] h k = tt
  AllPast-Beyond d (b ∷ bs) h k = (Past-Beyond d b h k.0, AllPast-Beyond d bs h k.1)

  Past-start : (d : Bool) → Beyond d p n start p' → Past d p (range start n)
  Past-start true h = omega arith
  Past-start false h = omega arith

  Apart-Past :
      (d : Bool) (b : Range) → Beyond d p n start p' → Past d p' b → Apart (range start n) b
  Apart-Past true b h k = inr (omega arith)
  Apart-Past false b h k = inl (omega arith)

  ApartAll-AllPast :
      (d : Bool) (bs : List Range)
      → Beyond d p n start p'
      → AllPast d p' bs
      → ApartAll (range start n) bs
  ApartAll-AllPast d [] h k = tt
  ApartAll-AllPast d (b ∷ bs) h k = (Apart-Past d b h k.0, ApartAll-AllPast d bs h k.1)

two_pow_pos : (k : ℕ) → 0 < 2 ^ k
two_pow_pos k = one-le-pow k 2 (omega arith)

module _ (rt : Runtime) where
  abbrev pub reserve : Region → Request → Region × ℕ
  reserve r q = memory_reserve rt r q.size (boundary q.order)

  -- A row of requests: the blocks in the order of the calls.
  unfoldable pub reserve_all : Region → List Request → List Range
  reserve_all r [] = []
  reserve_all r (q ∷ qs) = let out = reserve r q in range out.1 q.size ∷ reserve_all out.0 qs

  abbrev pub HasRoomAll : Region → List Request → Type 0
  HasRoomAll r [] = Unit {0}
  HasRoomAll r (q ∷ qs) = HasRoom r.down r.pos q.size q.order × HasRoomAll (reserve r q).0 qs

  module _ (laws : IsRuntime rt) where
    placed :
        (d : Bool) (b p n : ℕ) (o : Option ℕ)
        → HasRoom d p n o
        → let out = memory_reserve rt (record { base = b; down = d; pos = p }) n (boundary o) in
          IsAligned o out.1 × Beyond d p n out.1 out.0.pos × (out.0.base ≡ b) × (out.0.down ≡ d)
    unfolding memory_reserve
    placed true b p n none room = (tt, omega arith, refl, refl)
    placed true b p n (some k) room =
        let moved = sub32 p n in
        let low = laws.align_down_le moved k (omega arith) in
        let fits = laws.align_down_mod moved k (omega arith) in ground (arith, two_pow_pos k)
    placed false b p n none room = (tt, omega arith, refl, refl)
    placed false b p n (some k) room =
        let ge = laws.align_up_ge p k (omega arith) in
        let lt = laws.align_up_lt p k (omega arith) in
        let fits = laws.align_up_mod p k (omega arith) in ground (arith, two_pow_pos k)

    -- In a region with room for the request, upwards or downwards, the reserved block is aligned
    -- and lies beyond everything reserved before, the new position is the block's other end, and
    -- base and direction stay.
    pub memory_reserve-placed :
        (r : Region) (size : ℕ) (order : Option ℕ)
        → HasRoom r.down r.pos size order
        → let out = memory_reserve rt r size (boundary order) in
          IsAligned order out.1
          × Beyond r.down r.pos size out.1 out.0.pos
          × (out.0.base ≡ r.base)
          × (out.0.down ≡ r.down)
    memory_reserve-placed r size order room = placed r.down r.base r.pos size order room

    -- Blocks reserved one after the other never share an address and all lie on the free side of
    -- the position where the region stood, as long as each request has room.
    pub reserve_all-AreDisjoint :
        (r : Region) (qs : List Request)
        → HasRoomAll r qs
        → AreDisjoint (reserve_all r qs) × AllPast r.down r.pos (reserve_all r qs)
    unfolding reserve_all
    reserve_all-AreDisjoint r [] room = (tt, tt)
    reserve_all-AreDisjoint r (q ∷ qs) room =
        let out = reserve r q in
        let (fit, beyond, b, d) = memory_reserve-placed r q.size q.order room.0 in
        let (apart, past) = reserve_all-AreDisjoint out.0 qs room.1 in
        let past' : AllPast r.down out.0.pos (reserve_all out.0 qs) =
          subst (λ t. AllPast t out.0.pos (reserve_all out.0 qs)) d past in
        (
          (ApartAll-AllPast r.pos q.size out.1 out.0.pos r.down _ beyond past', apart),
          (
            Past-start r.pos q.size out.1 out.0.pos r.down beyond,
            AllPast-Beyond r.pos q.size out.1 out.0.pos r.down _ beyond past',
          ),
        )
