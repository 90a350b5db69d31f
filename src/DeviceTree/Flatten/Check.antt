-- ===== src/DeviceTree/Flatten/Check.antt =====
-- A test for trees that can be flattened: names of at most 31 bytes, values below a hundred, bytes.
use xnu_uboot_arm.Base.{
  ℕ, ◌≡◌, ◌&&◌, refl, Bool, true, false, List, [], ◌∷◌, ◌++◌, ltb, length, AllBytes, arith,
}
use xnu_uboot_arm.DeviceTree.{Property, Node, null, node}
use xnu_uboot_arm.DeviceTree.Flatten.Written.{IsFlat, AllFlat, IsFlatTree}

abbrev pub all_small : List ℕ → Bool
all_small [] = true
all_small (b ∷ bs) = ltb b 256 && all_small bs

abbrev pub fits_field : Property → Bool
fits_field p =
    all_small (p.name ++ 0 ∷ [])
    && (all_small p.value && (ltb (length p.name) 32 && ltb (length p.value) 100))

abbrev pub fit_fields : List Property → Bool
fit_fields [] = true
fit_fields (p ∷ ps) = fits_field p && fit_fields ps

abbrev pub can_be_flat : Node → Bool
can_be_flat null = true
can_be_flat (node id ps children next) = fit_fields ps && (can_be_flat children && can_be_flat next)

both : (a b : Bool) → (a && b) ≡ true → (a ≡ true) × (b ≡ true)
both true b e = (refl, e)
both false b e = absurd (ground (arith, e))

all_small-AllBytes : (bs : List ℕ) → all_small bs ≡ true → AllBytes bs
all_small-AllBytes [] e = tt
all_small-AllBytes (b ∷ bs) e =
    let (h, t) = both (ltb b 256) (all_small bs) e in (ground (arith, h), all_small-AllBytes bs t)

fits_field-IsFlat : (p : Property) → fits_field p ≡ true → IsFlat p
fits_field-IsFlat p e =
    let (a, rest) =
      both (all_small (p.name ++ 0 ∷ []))
        (all_small p.value && (ltb (length p.name) 32 && ltb (length p.value) 100)) e in
    let (b, sizes) =
      both (all_small p.value) (ltb (length p.name) 32 && ltb (length p.value) 100) rest in
    let (c, d) = both (ltb (length p.name) 32) (ltb (length p.value) 100) sizes in
    record {
      name_fits = ground (arith, c);
      name_bytes = all_small-AllBytes (p.name ++ 0 ∷ []) a;
      value_fits = ground (arith, d);
      value_bytes = all_small-AllBytes p.value b;
    }

fit_fields-AllFlat : (ps : List Property) → fit_fields ps ≡ true → AllFlat ps
fit_fields-AllFlat [] e = tt
fit_fields-AllFlat (p ∷ ps) e =
    let (h, t) = both (fits_field p) (fit_fields ps) e in
    (fits_field-IsFlat p h, fit_fields-AllFlat ps t)

pub can_be_flat-IsFlatTree : (t : Node) → can_be_flat t ≡ true → IsFlatTree t
can_be_flat-IsFlatTree null e = tt
can_be_flat-IsFlatTree (node id ps children next) e =
    let (a, rest) = both (fit_fields ps) (can_be_flat children && can_be_flat next) e in
    let (b, c) = both (can_be_flat children) (can_be_flat next) rest in
    (fit_fields-AllFlat ps a, can_be_flat-IsFlatTree children b, can_be_flat-IsFlatTree next c)
