-- ===== src/Loader/Sequence.antt =====
-- A table of contents is its commands one after the other, up to the first that fails.
use mathlib.Core.Path.{subst}
use xnu_uboot_arm.Base.{ℕ, zero, suc, ◌+◌, ◌<◌, ◌≡◌, ◌≢◌, refl, ap, ◌∙◌, sym, add32, read32, arith}
use xnu_uboot_arm.Runtime.{Runtime}
use xnu_uboot_arm.Macho.{Format}
use xnu_uboot_arm.Loader.{Services, Board, Loader, Outcome, returned, halted, out_of_fuel}
use xnu_uboot_arm.Loader.Image.{run_command, run_commands}

ret_of : {W : Type 0} → Outcome W → ℕ
ret_of (returned ret s) = ret
ret_of halted = 0
ret_of out_of_fuel = 0

state_of : {W : Type 0} → Loader W → Outcome W → Loader W
state_of d (returned ret s) = s
state_of d halted = d
state_of d out_of_fuel = d

module _ (sv : Services) (rt : Runtime) (f : Format) (board : Board) where
  open sv use {World}

  -- `n` commands from `cmd` on succeed, and lead to the command at `cmd'` in state `s'`. Each is
  -- followed by the one behind its own size.
  pub data Ran : ℕ → ℕ → Loader World → ℕ → Loader World → Type 0 where
    none : {cmd : ℕ} {s : Loader World} → Ran zero cmd s cmd s
    more :
        {n cmd cmd' : ℕ} {s t s' : Loader World}
        → run_command sv rt f board cmd s ≡ returned 0 t
        → Ran n (add32 cmd (read32 t.ram (cmd + 4))) t cmd' s'
        → Ran (suc n) cmd s cmd' s'

  -- How a run of `n` commands that returns `ret` went.
  pub data Went (n cmd : ℕ) (s : Loader World) (ret : ℕ) (s' : Loader World) : Type 0 where
    all_ran : (cmd' : ℕ) → ret ≡ 0 → Ran n cmd s cmd' s' → Went n cmd s ret s'
    failed :
        (k cmd' : ℕ) (t : Loader World)
        → k < n
        → Ran k cmd s cmd' t
        → run_command sv rt f board cmd' t ≡ returned ret s'
        → ret ≢ 0
        → Went n cmd s ret s'

  Went-cons :
      (n cmd : ℕ) (s t : Loader World) (ret : ℕ) (s' : Loader World)
      → run_command sv rt f board cmd s ≡ returned 0 t
      → Went n (add32 cmd (read32 t.ram (cmd + 4))) t ret s'
      → Went (suc n) cmd s ret s'
  Went-cons n cmd s t ret s' e (all_ran cmd' z r) = all_ran cmd' z (more e r)
  Went-cons n cmd s t ret s' e (failed k cmd' u h r x nz) =
      failed (suc k) cmd' u (omega arith) (more e r) x nz

  -- A table of contents that returns has run its commands in order: all of them, and then the
  -- result is 0, or those before the first that fails, and then the result is the failing
  -- command's, no later command is run, and the state is the one that command left.
  pub run_commands-Went :
      (n cmd : ℕ) (s : Loader World) {ret : ℕ} {s' : Loader World}
      → run_commands sv rt f board n cmd s ≡ returned ret s'
      → Went n cmd s ret s'
  unfolding run_commands ret_of state_of
  run_commands-Went zero cmd s e =
      all_ran cmd (sym (ap ret_of e)) (subst (λ t. Ran zero cmd s cmd t) (ap (state_of s) e) none)
  run_commands-Went (suc n) cmd s {ret} {s'} e =
      go (run_command sv rt f board cmd s) refl e
        (λ t h. run_commands-Went n (add32 cmd (read32 t.ram (cmd + 4))) t h)
    where
      go :
          (o : Outcome World)
          → run_command sv rt f board cmd s ≡ o
          → elim o [
            | halted ↦ halted
            | out_of_fuel ↦ out_of_fuel
            | returned zero t ↦ run_commands sv rt f board n (add32 cmd (read32 t.ram (cmd + 4))) t
            | returned (suc r) t ↦ returned (suc r) t
          ]
            ≡ returned ret s'
          → ((t : Loader World)
              → run_commands sv rt f board n (add32 cmd (read32 t.ram (cmd + 4))) t
                ≡ returned ret s'
              → Went n (add32 cmd (read32 t.ram (cmd + 4))) t ret s')
          → Went (suc n) cmd s ret s'
      go halted x h rest = cc
      go out_of_fuel x h rest = cc
      go (returned zero t) x h rest = Went-cons n cmd s t ret s' x (rest t h)
      go (returned (suc r) t) x h rest =
          failed 0 cmd s (omega arith) none (x ∙ h) (ground (arith, ap ret_of h))

  -- The other way round: commands that all succeed make a table of contents that does.
  pub Ran-run_commands :
      {n cmd cmd' : ℕ} {s s' : Loader World}
      → Ran n cmd s cmd' s'
      → run_commands sv rt f board n cmd s ≡ returned 0 s'
  unfolding run_commands
  Ran-run_commands none = refl
  Ran-run_commands (more e r) = rw (e, run_commands) (Ran-run_commands r)
