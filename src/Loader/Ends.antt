-- ===== src/Loader/Ends.antt =====
-- Statements about what a call of the loader leaves behind, if it returns.
use xnu_uboot_arm.Base.{ℕ, Bool-cases, inl, inr, if◌then◌else◌, add32, Ram}
use xnu_uboot_arm.Runtime.{Runtime}
use xnu_uboot_arm.Macho.{Format}
use xnu_uboot_arm.Loader.{
  driver_pad_start, Services, Board, Loader, Outcome, returned, halted, out_of_fuel,
}
use xnu_uboot_arm.Loader.Command.{
  is_driver, is_compressed, decomp_image, decomp_size, Unpacked, unpack, unpacked, refused, no_fuel,
  place_image, load_image,
}

-- If the call returns, its result and its state satisfy `P`.
abbrev pub Ends : {W : Type 0} → (ℕ → Loader W → Type 0) → Outcome W → Type 0
Ends P (returned ret s) = P ret s
Ends P halted = Unit {0}
Ends P out_of_fuel = Unit {0}

-- If the call returns, its state satisfies `P`.
abbrev pub Leaves : {W : Type 0} → (Loader W → Type 0) → Outcome W → Type 0
Leaves P = Ends (λ ret. P)

pub Leaves-map :
    {W : Type 0} (P Q : Loader W → Type 0) (o : Outcome W)
    → ((s : Loader W) → P s → Q s)
    → Leaves P o
    → Leaves Q o
Leaves-map P Q (returned ret s) h p = h s p
Leaves-map P Q halted h p = tt
Leaves-map P Q out_of_fuel h p = tt

module _ (sv : Services) (rt : Runtime) where
  open sv use {World}

  module _ (f : Format) (board : Board) where
    -- What holds after every way to place the image, unpacked or not, holds after `load_image`.
    pub load_image-Ends :
        (P : ℕ → Loader World → Type 0) (p flags address size : ℕ) (s : Loader World)
        → ((a n d : ℕ) (m : Ram) (w : World)
            → Ends P (place_image sv rt f board p flags a n d (record s { ram = m; world = w })))
        → ((w : World) → P 1 (record s { world = w }))
        → Ends P (load_image sv rt f board p flags address size s)
    unfolding load_image
    load_image-Ends P p flags address size s placed refuses =
        elim (Bool-cases (is_compressed flags)) [
          | inl c ↦
              rw (c, load_image)
                (cases (
                  unpack sv rt f board p flags address size
                    (decomp_image sv rt f board p flags raw s.ram) s.ram s.world))
          | inr c ↦ rw (c, load_image) (placed address size raw s.ram s.world)
        ]
      where
        raw : ℕ
        raw = if is_driver flags then add32 s.memory_top driver_pad_start else s.memory_top

        cases :
            (u : Unpacked sv rt f board)
            → Ends P (elim u [
              | no_fuel ↦ out_of_fuel
              | refused w ↦ returned 1 (record s { world = w })
              | unpacked m w ↦
                  place_image sv rt f board p flags
                    (decomp_image sv rt f board p flags raw s.ram)
                    (decomp_size m p)
                    raw
                    (record s { ram = m; world = w })
            ])
        cases no_fuel = tt
        cases (refused w) = refuses w
        cases (unpacked m w) = placed _ _ _ m w
