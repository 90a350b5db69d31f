-- ===== src/Macho/Map/Segment.antt =====
-- What mapping one segment of an executable does to the memory.
use mathlib.Core.Path.{fun_ext}
use native.Mathlib.Decide.{dec_lt}
use xnu_uboot_arm.Base.{
  ℕ, ◌+◌, ◌-◌, ◌<◌, ◌≤◌, ◌≡◌, ◌∙◌, Bool, ◌||◌, ◌&&◌, not, ◌==◌, ◌≢◌, ◌⊎◌, inl, inr, refl, ltb,
  if◌then◌else◌, add32, sub32, word, Ram, read8, read32, read32-lt, SameOutside, SameOutside-trans,
  SameOutside-widen, read32-SameOutside, read8-SameOutside, bcopy, bzero, bcopy-inside,
  bcopy-SameOutside, bzero-inside, bzero-SameOutside, arith,
}
use xnu_uboot_arm.Runtime.{Runtime, IsRuntime}
use xnu_uboot_arm.Macho.{Format, IsFormat, Context, strncmp_is}
use xnu_uboot_arm.Macho.Map.{copy_segment, zero_rest, segment_memory, map_executable, next}

-- Where the fields read after the copy are the old ones, the zeros are the segment's tail.
zero_rest_lem :
    (rt : Runtime) (laws : IsRuntime rt) (f : Format) (cmd load_addr vmaddr : ℕ) (c : Ram)
    (filesize vmsize : ℕ)
    → read32 c (cmd + f.seg_filesize) ≡ filesize
    → read32 c (cmd + f.seg_vmsize) ≡ vmsize
    → filesize ≤ vmsize
    → vmsize < word
    → add32 load_addr vmaddr + vmsize ≤ word
    → zero_rest rt f cmd load_addr vmaddr (sub32 vmsize filesize) c
      ≡ bzero c (add32 load_addr vmaddr + filesize) (vmsize - filesize)
unfolding zero_rest bzero
zero_rest_lem rt laws f cmd load_addr vmaddr c filesize vmsize ef ev fits small room =
    fun_ext λ a. rw (ef, ev, laws.add_ptr3_lem load_addr vmaddr filesize) (ground arith)

module _ (rt : Runtime) (laws : IsRuntime rt) (f : Format) (format : IsFormat f) (file : Context)
    (cmd load_addr : ℕ) (m : Ram) where
  abbrev pub vmaddr : ℕ
  vmaddr = sub32 (read32 m (cmd + f.seg_vmaddr)) file.vm_bias

  abbrev pub vmsize : ℕ
  vmsize = read32 m (cmd + f.seg_vmsize)

  abbrev pub filesize : ℕ
  filesize = read32 m (cmd + f.seg_filesize)

  -- Where the segment comes from, and where it goes.
  abbrev pub source : ℕ
  source = add32 file.file (read32 m (cmd + f.seg_fileoff))

  abbrev pub target : ℕ
  target = add32 load_addr vmaddr

  abbrev pub after : Ram
  after = segment_memory rt f file cmd load_addr vmaddr (sub32 vmsize filesize) m

  abbrev copied : Ram
  copied = copy_segment rt f file cmd load_addr vmaddr m

  copied_lem : copied ≡ bcopy m source target filesize
  unfolding copy_segment bcopy
  copied_lem =
      fun_ext
        λ a. rw (laws.add_ptr2_lem load_addr vmaddr, laws.add_ptr2_lem file.file) (ground arith)

  -- The bytes from `target` on that the segment takes: those in memory, or those of the file where
  -- these are more.
  abbrev pub extent : ℕ
  extent = if ltb vmsize filesize then filesize else vmsize

  vmsize-le-extent : vmsize ≤ extent
  vmsize-le-extent = ground arith

  filesize-le-extent : filesize ≤ extent
  filesize-le-extent = ground arith

  module _ (in_memory : target + extent ≤ word)
      (clear : (cmd + f.segment_size ≤ target) ⊎ (target + extent ≤ cmd)) where
    copied-SameOutside : SameOutside target extent m copied
    copied-SameOutside = rw copied_lem (
        SameOutside-widen target filesize target extent m (bcopy m source target filesize)
          (omega arith) (omega (arith, filesize-le-extent))
          (bcopy-SameOutside m source target filesize))

    kept : (o : ℕ) → o + 4 ≤ f.segment_size → read32 copied (cmd + o) ≡ read32 m (cmd + o)
    kept o inside =
        read32-SameOutside target extent m copied (cmd + o) copied-SameOutside
          (elim clear [ inl h ↦ inl (omega arith) | inr h ↦ inr (omega arith) ])

    -- The zeros are the tail of the segment in memory; there are none where the file has no less.
    abbrev zeroed : Ram
    zeroed = bzero copied (target + filesize) (vmsize - filesize)

    zeroed-same : vmsize ≤ filesize → copied ≡ zeroed
    unfolding bzero
    zeroed-same h = fun_ext λ a. ground arith

    after-copy : vmsize ≤ filesize → after ≡ copied
    unfolding zero_rest
    after-copy h =
        let ef = kept f.seg_filesize format.filesize_inside in
        let ev = kept f.seg_vmsize format.vmsize_inside in rw (ef, ev) (ground arith)

    after_lem : after ≡ zeroed
    after_lem = elim (dec_lt filesize vmsize) [
      | yes less ↦
          zero_rest_lem rt laws f cmd load_addr vmaddr copied filesize vmsize
            (kept f.seg_filesize format.filesize_inside) (kept f.seg_vmsize format.vmsize_inside)
            (omega arith) (read32-lt m (cmd + f.seg_vmsize))
            (omega (arith, in_memory, vmsize-le-extent))
      | no more ↦ after-copy (omega arith) ∙ zeroed-same (omega arith)
    ]

    after-SameOutside : SameOutside target extent m after
    after-SameOutside = rw after_lem (
        SameOutside-trans target extent m copied zeroed copied-SameOutside
          (outside (dec_lt filesize vmsize)))
      where
        outside : Dec (filesize < vmsize) → SameOutside target extent copied zeroed
        outside (yes less) =
            SameOutside-widen (target + filesize) (vmsize - filesize) target extent copied zeroed
              (omega arith) (omega (arith, vmsize-le-extent))
              (bzero-SameOutside copied (target + filesize) (vmsize - filesize))
        outside (no more) = rw (← zeroed-same (omega arith)) (λ a out. refl)

    after-copied : (i : ℕ) → i < filesize → read8 after (target + i) ≡ read8 m (source + i)
    after-copied i h = rw after_lem (
        read8-SameOutside (target + filesize) (vmsize - filesize) copied zeroed (target + i)
          (bzero-SameOutside copied (target + filesize) (vmsize - filesize)) (inl (omega arith))
        ∙ rw copied_lem (bcopy-inside m source target filesize i h))

    after-zero : (i : ℕ) → filesize ≤ i → i < vmsize → read8 after (target + i) ≡ 0
    after-zero i h k = rw after_lem (
        let e : target + i ≡ target + filesize + (i - filesize) = omega arith in
        rw e (
          bzero-inside copied (target + filesize) (vmsize - filesize) (i - filesize) (omega arith)))

    -- Does the memory afterwards show a non-empty segment of the prelink name?
    abbrev pub prelink_segment : Bool
    prelink_segment =
        strncmp_is after (cmd + f.seg_segname) f.prelink_info_segment 15
        && not (read32 after (cmd + f.seg_vmsize) == 0)

    -- A segment of an executable that is taken goes to `load_addr + vmaddr - vm_bias`: its first
    -- `filesize` bytes are those of the file, as they were before; what is left up to `vmsize` is
    -- zero; no byte of the memory changes but these, `filesize` or `vmsize` of them, whichever is
    -- more; and of the context only `is_prelinked` may, by a non-empty segment of that name. These
    -- bytes must not wrap round the address space or lie over the segment's own load command.
    pub map_executable-placed :
        (seg_count : ℕ)
        → (file.vm_bias ≢ 0) ⊎ (seg_count ≢ 0) ⊎ (read32 m (cmd + f.seg_vmaddr) ≡ 0)
        → (map_executable rt f file cmd load_addr seg_count m
            ≡ next
                (record file { is_prelinked = file.is_prelinked || prelink_segment })
                (seg_count + 1)
                after)
          × ((i : ℕ) → i < filesize → read8 after (target + i) ≡ read8 m (source + i))
          × ((i : ℕ) → filesize ≤ i → i < vmsize → read8 after (target + i) ≡ 0)
          × SameOutside target extent m after
    unfolding map_executable
    map_executable-placed seg_count taken =
        (ground arith, after-copied, after-zero, after-SameOutside)
