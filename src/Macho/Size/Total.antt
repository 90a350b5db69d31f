-- ===== src/Macho/Size/Total.antt =====
-- What `mach_file_vmsize` adds up, told without its loop variables.
use xnu_uboot_arm.Base.{
  ℕ, zero, suc, ◌+◌, ◌%◌, ◌<◌, ◌≡◌, refl, ◌∙◌, Bool, true, false, ◌||◌, List, [], ◌∷◌, ◌==◌,
  if◌then◌else◌, add32, word, Ram, read32, arith,
}
use xnu_uboot_arm.Runtime.{Runtime}
use xnu_uboot_arm.Macho.{Format, IsFormat, Context, Result, ok, fail, object_badsegment, nosymtab}
use xnu_uboot_arm.Macho.Size.{
  Tally, add_sections, size_command, size_commands, mach_file_vmsize, object_without_symtab,
}

unfoldable pub sum : (ℕ → ℕ) → List ℕ → ℕ
sum f [] = 0
sum f (x ∷ xs) = f x + sum f xs

unfoldable pub keep : (ℕ → Bool) → List ℕ → List ℕ
keep p [] = []
keep p (x ∷ xs) = if p x then x ∷ keep p xs else keep p xs

unfoldable pub any : (ℕ → Bool) → List ℕ → Bool
any p [] = false
any p (x ∷ xs) = p x || any p xs

or_swap : (a b c : Bool) → (b || (a || c)) ≡ ((a || b) || c)
or_swap true true c = refl
or_swap true false c = refl
or_swap false true c = refl
or_swap false false c = refl

module _ (rt : Runtime) (f : Format) (m : Ram) where
  -- The addresses of the load commands, and of the sections of a segment.
  unfoldable pub commands : (n lcp : ℕ) → List ℕ
  commands zero lcp = []
  commands (suc n) lcp = lcp ∷ commands n (rt.add_ptr2 lcp (read32 m (lcp + f.lc_cmdsize)))

  unfoldable pub sections : (n sect : ℕ) → List ℕ
  sections zero sect = []
  sections (suc n) sect = sect ∷ sections n (add32 sect f.section_size)

  abbrev pub file_commands : (file : ℕ) → List ℕ
  file_commands file = commands (read32 m (file + f.head_ncmds)) (file + f.header_size)

  abbrev pub segment_sections : (cmd : ℕ) → List ℕ
  segment_sections cmd = sections (read32 m (cmd + f.seg_nsects)) (add32 cmd f.segment_size)

  abbrev pub is_segment : ℕ → Bool
  is_segment p = read32 m (p + f.lc_cmd) == f.lc_segment

  abbrev pub is_symtab : ℕ → Bool
  is_symtab p = read32 m (p + f.lc_cmd) == f.lc_symtab

  abbrev pub vmsize_of : ℕ → ℕ
  vmsize_of p = read32 m (p + f.seg_vmsize)

  abbrev pub size_of : ℕ → ℕ
  size_of p = read32 m (p + f.sect_size)

  add_sections-sum :
      (n sect sc : ℕ)
      → sc < word
      → add_sections f m n sect sc ≡ (sc + sum size_of (sections n sect)) % word
  unfolding add_sections sum sections
  add_sections-sum zero sect sc h = omega arith
  add_sections-sum (suc n) sect sc h =
      add_sections-sum n (add32 sect f.section_size) _ (omega arith) ∙ omega arith

  module _ (file : Context) where
    abbrev counted : ℕ → Tally → Tally
    counted lcp t =
        if is_segment lcp
        then record t { sc = add32 t.sc (vmsize_of lcp) }
        else if is_symtab lcp
        then record t { has_symtab = true }
        else t

    size_command-execute :
        (lcp : ℕ) (t : Tally)
        → file.filetype ≡ f.mh_execute
        → size_command rt f m file lcp t ≡ ok (counted lcp t)
    unfolding size_command
    size_command-execute lcp t e = ground arith

    size_commands-execute :
        (n lcp : ℕ) (t : Tally)
        → file.filetype ≡ f.mh_execute
        → t.sc < word
        → (t' : Tally) × (size_commands rt f m file n lcp t ≡ ok t')
          × (t'.sc ≡ (t.sc + sum vmsize_of (keep is_segment (commands n lcp))) % word)
    unfolding size_commands sum keep commands
    size_commands-execute zero lcp t e h = (t, refl, omega arith)
    size_commands-execute (suc n) lcp t e h =
        let next = rt.add_ptr2 lcp (read32 m (lcp + f.lc_cmdsize)) in
        let (t', run, total) = size_commands-execute n next (counted lcp t) e (ground arith) in
        (t', rw (size_command-execute lcp t e, size_commands) run, ground (arith, total))

    abbrev tally : ℕ → ℕ → Bool → Tally
    tally sc k h = record { sc = sc; seg_count = k; has_symtab = h }

    -- An object file's segments: one at most.
    abbrev objects : ℕ → List ℕ → ℕ → Bool → Result Tally
    objects k [] sc h = ok (tally sc k h)
    objects zero (s ∷ ss) sc h = objects 1 ss ((sc + sum size_of (segment_sections s)) % word) h
    objects (suc k) (s ∷ ss) sc h = fail object_badsegment

    module _ (laws : IsFormat f) (e : file.filetype ≡ f.mh_object) where
      size_command-object :
          (lcp sc k : ℕ) (h : Bool)
          → sc < word
          → size_command rt f m file lcp (tally sc k h) ≡ (
              if is_segment lcp
              then if k == 0
                then ok (tally ((sc + sum size_of (segment_sections lcp)) % word) 1 h)
                else fail object_badsegment
              else ok (tally sc k (is_symtab lcp || h)))
      unfolding size_command
      size_command-object lcp sc k h b = ground (
        arith,
        laws.execute-ne-object,
        add_sections-sum (read32 m (lcp + f.seg_nsects)) (add32 lcp f.segment_size) sc b,
      )

      size_commands-object :
          (n lcp sc k : ℕ) (h : Bool)
          → sc < word
          → size_commands rt f m file n lcp (tally sc k h)
            ≡ objects k (keep is_segment (commands n lcp)) sc (any is_symtab (commands n lcp) || h)
      unfolding size_commands keep any commands
      size_commands-object zero lcp sc k h b = refl
      size_commands-object (suc n) lcp sc zero h b =
          let next = rt.add_ptr2 lcp (read32 m (lcp + f.lc_cmdsize)) in
          ground (
            arith,
            laws.segment-ne-symtab,
            size_command-object lcp sc 0 h b,
            or_swap (is_symtab lcp) (any is_symtab (commands n next)) h,
            size_commands-object n next ((sc + sum size_of (segment_sections lcp)) % word) 1 h,
            size_commands-object n next sc 0 (is_symtab lcp || h),
          )
      size_commands-object (suc n) lcp sc (suc k) h b =
          let next = rt.add_ptr2 lcp (read32 m (lcp + f.lc_cmdsize)) in
          ground (
            arith,
            laws.segment-ne-symtab,
            size_command-object lcp sc (suc k) h b,
            or_swap (is_symtab lcp) (any is_symtab (commands n next)) h,
            size_commands-object n next sc (suc k) (is_symtab lcp || h),
          )

    -- The size of an executable is the sum of the `vmsize` of all its LC_SEGMENT commands,
    -- modulo 2 ^ 32; other commands count nothing, and the function never fails.
    pub mach_file_vmsize-execute :
        IsFormat f
        → file.filetype ≡ f.mh_execute
        → mach_file_vmsize rt f m file
          ≡ ok (sum vmsize_of (keep is_segment (file_commands file.file)) % word)
    unfolding mach_file_vmsize
    mach_file_vmsize-execute laws e =
        let (t, run, total) =
          size_commands-execute (read32 m (file.file + f.head_ncmds)) (file.file + f.header_size)
            (tally 0 0 false) e (omega arith) in
        rw (run, mach_file_vmsize) (ground (arith, total, laws.execute-ne-object))

    -- What an object file's list of segments and its symbol table make of it.
    abbrev pub object_size : List ℕ → Bool → Result ℕ
    object_size [] symtab = if symtab then ok 0 else fail nosymtab
    object_size (s ∷ []) symtab =
        if symtab then ok (sum size_of (segment_sections s) % word) else fail nosymtab
    object_size (s ∷ _ ∷ _) symtab = fail object_badsegment

    -- An object file with two segments or more is refused as such, one without a symbol table as
    -- such; any other has the sum of its sections' sizes, modulo 2 ^ 32, and zero with no segment.
    pub mach_file_vmsize-object :
        IsFormat f
        → file.filetype ≡ f.mh_object
        → mach_file_vmsize rt f m file
          ≡ object_size
              (keep is_segment (file_commands file.file))
              (any is_symtab (file_commands file.file))
    unfolding mach_file_vmsize
    mach_file_vmsize-object laws e =
        rw
          (
            size_commands-object laws e (read32 m (file.file + f.head_ncmds))
                (file.file + f.header_size) 0 0 false (omega arith),
            mach_file_vmsize,
          )
          (finish (keep is_segment (file_commands file.file))
            (any is_symtab (file_commands file.file)))
      where
        finish :
            (ss : List ℕ) (symtab : Bool)
            → elim (objects 0 ss 0 (symtab || false)) [
              | fail r ↦ fail r
              | ok t ↦ if object_without_symtab rt f m file t then fail nosymtab else ok t.sc
            ]
              ≡ object_size ss symtab
        finish [] symtab = ground arith
        finish (s ∷ []) symtab = ground arith
        finish (s ∷ t ∷ ss) symtab = ground arith
