-- ===== src/Loader/Invariant/Console.antt =====
-- Every state that the console commands can reach is consistent.
use mathlib.Core.Path.{subst}
use xnu_uboot_arm.Base.{
  ◌||◌, ◌%◌, codes, strcmp_eq, word, ℕ, ◌≡◌, Bool, true, false, List, [], ◌∷◌, ◌==◌, if◌then◌else◌,
  Ram, arith,
}
use xnu_uboot_arm.Runtime.{Runtime}
use xnu_uboot_arm.Macho.{Format}
use xnu_uboot_arm.Loader.{Services, Board, Loader, returned, increment_kernel_memory}
use xnu_uboot_arm.Loader.Image.{load_general_image}
use xnu_uboot_arm.Loader.Console.{last_env, do_imgx, do_rdx}
use xnu_uboot_arm.Loader.Ends.{Leaves}
use xnu_uboot_arm.Loader.Invariant.{IsConsistent}
use xnu_uboot_arm.Loader.Invariant.Images.{load_general_image-IsConsistent}

module _ (sv : Services) (rt : Runtime) (f : Format) (board : Board) where
  open sv use {World}

  -- One command that returns; or anything else that happens to the memory and to the world, such
  -- as a file that U-Boot loads.
  pub data Step : Loader World → Loader World → Type 0 where
    imgx :
        {s t : Loader World} (argv : List (List ℕ)) (ret : ℕ)
        → do_imgx sv rt f board argv s ≡ returned ret t
        → Step s t
    rdx : {s t : Loader World} (ret : ℕ) → do_rdx sv rt s ≡ returned ret t → Step s t
    outside : {s : Loader World} (m : Ram) (w : World) → Step s (record s { ram = m; world = w })

  pub data Reaches (s : Loader World) : Loader World → Type 0 where
    here : Reaches s s
    next : {t u : Loader World} → Reaches s t → Step t u → Reaches s u

  do_imgx-IsConsistent :
      (argv : List (List ℕ)) (s : Loader World)
      → IsConsistent sv rt s
      → Leaves (IsConsistent sv rt) (do_imgx sv rt f board argv s)
  unfolding do_imgx
  do_imgx-IsConsistent (name ∷ arg ∷ []) s c =
      let addr = last_env sv (codes "fileaddr") s.world in
      choose (strcmp_eq arg (codes "last") || strcmp_eq arg (codes "l")) (addr == 0)
    where
      choose :
          (last null : Bool)
          → Leaves (IsConsistent sv rt) (
              if last
              then if null
                then returned 1 s
                else load_general_image sv rt f board (last_env sv (codes "fileaddr") s.world) s
              else load_general_image sv rt f board (sv.simple_strtoul arg 16 % word) s)
      choose true true = c
      choose true false = load_general_image-IsConsistent sv rt f board _ s c
      choose false null = load_general_image-IsConsistent sv rt f board _ s c
  do_imgx-IsConsistent _ s c = c

  do_rdx-IsConsistent :
      (s : Loader World) → IsConsistent sv rt s → Leaves (IsConsistent sv rt) (do_rdx sv rt s)
  unfolding do_rdx increment_kernel_memory
  do_rdx-IsConsistent s c = ground arith

  Step-IsConsistent : {s t : Loader World} → Step s t → IsConsistent sv rt s → IsConsistent sv rt t
  Step-IsConsistent {s} (imgx argv ret e) c =
      subst (Leaves (IsConsistent sv rt)) e (do_imgx-IsConsistent argv s c)
  Step-IsConsistent {s} (rdx ret e) c =
      subst (Leaves (IsConsistent sv rt)) e (do_rdx-IsConsistent s c)
  Step-IsConsistent (outside m w) c = c

  -- In every state that any sequence of `imgx` and `rdx` commands, failed ones included, reaches
  -- from one without a device tree, whatever else happens to the memory in between, a device tree
  -- is marked as loaded only while a kernel is.
  pub Reaches-IsConsistent :
      {s t : Loader World}
      → s.has_device_tree ≡ false
      → Reaches s t
      → t.has_device_tree ≡ true
      → rt.range_is_null t.kernel_range ≡ false
  Reaches-IsConsistent none r = keeps r (λ has. cc (none, has))
    where
      keeps : {s t : Loader World} → Reaches s t → IsConsistent sv rt s → IsConsistent sv rt t
      keeps here c = c
      keeps (next r st) c = Step-IsConsistent st (keeps r c)
