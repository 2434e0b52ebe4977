-- ===== src/Repository/Duplicates/Wasted.antt =====
-- internal/repository: what the totals of the duplicates count, and when both queries agree.
use omni_blob.Base.{
  ℕ, zero, suc, ◌+◌, ◌-◌, ◌≤◌, ◌<◌, ◌≡◌, refl, ap, ◌∙◌, Bool, true, ◌&&◌, ◌||◌, not, Option, none,
  some, List, [], ◌∷◌, map, arith, ltb, if◌then◌else◌, length, take, keep_if, All, Text, text_eq,
  text_eq_iff, is_empty, contains_text,
}
use omni_blob.Entity.{BinaryFile}
use omni_blob.Repository.BinaryFiles.{Files}
use omni_blob.Repository.Duplicates.{
  DuplicateGroup, wasted_bytes, add_copy, group_copies, insert_wasted, order_wasted, sum_duplicates,
  sum_wasted, DataQualityStats, is_copied, duplicate_hashes, get_data_quality_stats,
  get_duplicate_stats,
}

module _ (le : Text → Text → Bool) where
  -- Each group has a row, and a row more is a new group or a duplicate more.
  abbrev IsGroup : DuplicateGroup → Type 0
  IsGroup g = 0 < g.count

  add_copy-IsGroup :
      (f : BinaryFile) (gs : List DuplicateGroup) → All IsGroup gs → All IsGroup (add_copy le f gs)
  unfolding add_copy
  add_copy-IsGroup f [] h = (omega arith, tt)
  add_copy-IsGroup f (g ∷ gs) h = ground (arith, h, add_copy-IsGroup f gs)

  group_copies-IsGroup : (t : Files) → All IsGroup (group_copies le t)
  unfolding group_copies
  group_copies-IsGroup [] = tt
  group_copies-IsGroup (f ∷ t) = add_copy-IsGroup f (group_copies le t) (group_copies-IsGroup t)

  add_copy-counts :
      (f : BinaryFile) (gs : List DuplicateGroup)
      → All IsGroup gs
      → sum_duplicates (add_copy le f gs) + length (add_copy le f gs)
        ≡ sum_duplicates gs + length gs + 1
  unfolding add_copy sum_duplicates
  add_copy-counts f [] h = omega arith
  add_copy-counts f (g ∷ gs) h = ground (arith, h, add_copy-counts f gs)

  group_copies-counts :
      (t : Files) → sum_duplicates (group_copies le t) + length (group_copies le t) ≡ length t
  unfolding group_copies sum_duplicates
  group_copies-counts [] = refl
  group_copies-counts (f ∷ t) =
      omega (
        arith,
        group_copies-counts t,
        add_copy-counts f (group_copies le t) (group_copies-IsGroup t),
      )

  sum_duplicates-copied :
      (gs : List DuplicateGroup) → sum_duplicates (keep_if is_copied gs) ≡ sum_duplicates gs
  unfolding sum_duplicates
  sum_duplicates-copied [] = refl
  sum_duplicates-copied (g ∷ gs) = ground (arith, sum_duplicates-copied gs)

  sum_wasted-insert :
      (g : DuplicateGroup) (gs : List DuplicateGroup)
      → sum_wasted (insert_wasted g gs) ≡ wasted_bytes g + sum_wasted gs
  unfolding sum_wasted insert_wasted
  sum_wasted-insert g [] = refl
  sum_wasted-insert g (h ∷ hs) = ground (arith, sum_wasted-insert g hs)

  sum_wasted-order : (gs : List DuplicateGroup) → sum_wasted (order_wasted gs) ≡ sum_wasted gs
  unfolding sum_wasted order_wasted
  sum_wasted-order [] = refl
  sum_wasted-order (g ∷ gs) =
      omega (arith, sum_wasted-order gs, sum_wasted-insert g (order_wasted gs))

  sum_duplicates-insert :
      (g : DuplicateGroup) (gs : List DuplicateGroup)
      → sum_duplicates (insert_wasted g gs) ≡ (g.count - 1) + sum_duplicates gs
  unfolding sum_duplicates insert_wasted
  sum_duplicates-insert g [] = refl
  sum_duplicates-insert g (h ∷ hs) = ground (arith, sum_duplicates-insert g hs)

  sum_duplicates-order :
      (gs : List DuplicateGroup) → sum_duplicates (order_wasted gs) ≡ sum_duplicates gs
  unfolding sum_duplicates order_wasted
  sum_duplicates-order [] = refl
  sum_duplicates-order (g ∷ gs) =
      omega (arith, sum_duplicates-order gs, sum_duplicates-insert g (order_wasted gs))

  -- How many different texts there are.
  abbrev pub distinct : List Text → ℕ
  distinct [] = 0
  distinct (x ∷ xs) = if contains_text xs x then distinct xs else 1 + distinct xs

  abbrev checksums : Files → List Text
  checksums t = map (λ f. f.checksum) t

  abbrev group_checksums : List DuplicateGroup → List Text
  group_checksums gs = map (λ g. g.checksum) gs

  contains-add_copy :
      (f : BinaryFile) (x : Text) (gs : List DuplicateGroup)
      → contains_text (group_checksums (add_copy le f gs)) x
        ≡ (text_eq x f.checksum || contains_text (group_checksums gs) x)
  unfolding add_copy
  contains-add_copy f x [] = ground arith
  contains-add_copy f x (g ∷ gs) = ground (
    arith,
    text_eq_iff g.checksum f.checksum,
    text_eq_iff x f.checksum,
    text_eq_iff x g.checksum,
    contains-add_copy f x gs,
  )

  contains-group_copies :
      (x : Text) (t : Files)
      → contains_text (group_checksums (group_copies le t)) x ≡ contains_text (checksums t) x
  unfolding group_copies
  contains-group_copies x [] = refl
  contains-group_copies x (f ∷ t) =
      ground (arith, contains-group_copies x t, contains-add_copy f x (group_copies le t))

  length-add_copy :
      (f : BinaryFile) (gs : List DuplicateGroup)
      → length (add_copy le f gs)
        ≡ (if contains_text (group_checksums gs) f.checksum then length gs else 1 + length gs)
  unfolding add_copy
  length-add_copy f [] = refl
  length-add_copy f (g ∷ gs) = ground (
    arith,
    text_eq_iff g.checksum f.checksum,
    text_eq_iff f.checksum g.checksum,
    length-add_copy f gs,
  )

  length-group_copies : (t : Files) → length (group_copies le t) ≡ distinct (checksums t)
  unfolding group_copies
  length-group_copies [] = refl
  length-group_copies (f ∷ t) = ground (
    arith,
    length-group_copies t,
    length-add_copy f (group_copies le t),
    contains-group_copies f.checksum t,
  )

  abbrev pub checksummed : Files → Files
  checksummed t = keep_if (λ f. not (is_empty f.checksum)) t

  -- What the answer tells, where it is no error.
  abbrev pub CountsDuplicates : Files → Option DataQualityStats → Type 0
  CountsDuplicates t none = ⊥
  CountsDuplicates t (some s) =
      s.total_duplicate_files + distinct (checksums (checksummed t)) ≡ length (checksummed t)

  -- The number of duplicates is that of the records with a checksum less that of the checksums: what
  -- could go if one record of each content stayed. It counts all groups, not only the hundred listed.
  pub get_data_quality_stats-counts :
      (t : Files) → CountsDuplicates t (get_data_quality_stats le true true t)
  unfolding get_data_quality_stats
  get_data_quality_stats-counts t = omega (
    arith,
    sum_duplicates-copied (group_copies le (checksummed t)),
    group_copies-counts (checksummed t),
    length-group_copies (checksummed t),
  )

  take-enough : (n : ℕ) (gs : List DuplicateGroup) → length gs ≤ n → take n gs ≡ gs
  take-enough zero [] h = refl
  take-enough zero (g ∷ gs) h = absurd (omega (arith, h))
  take-enough (suc n) [] h = refl
  take-enough (suc n) (g ∷ gs) h = ap (λ t. g ∷ t) (take-enough n gs (omega (arith, h)))

  length-insert_wasted :
      (g : DuplicateGroup) (gs : List DuplicateGroup)
      → length (insert_wasted g gs) ≡ suc (length gs)
  unfolding insert_wasted
  length-insert_wasted g [] = refl
  length-insert_wasted g (h ∷ hs) = ground (arith, length-insert_wasted g hs)

  length-order_wasted : (gs : List DuplicateGroup) → length (order_wasted gs) ≡ length gs
  unfolding order_wasted
  length-order_wasted [] = refl
  length-order_wasted (g ∷ gs) =
      length-insert_wasted g (order_wasted gs) ∙ ap suc (length-order_wasted gs)

  sized-All :
      (t : Files)
      → All (λ f. 0 < f.size) t
      → keep_if (λ f. not (is_empty f.checksum) && ltb 0 f.size) t ≡ checksummed t
  sized-All [] h = refl
  sized-All (f ∷ t) h = ground (arith, h.0, sized-All t h.1)

  -- Where no record is of size zero and at most fifty checksums occur more than once, the unused
  -- GetDuplicateStats and GetDataQualityStats give the same answer.
  pub get_duplicate_stats-agrees :
      (t : Files)
      → All (λ f. 0 < f.size) t
      → length (duplicate_hashes le t) ≤ 50
      → get_duplicate_stats le true t ≡ get_data_quality_stats le true true t
  unfolding get_duplicate_stats get_data_quality_stats
  get_duplicate_stats-agrees t sized few =
      let gs = duplicate_hashes le t in
      let all : take 50 (order_wasted gs) ≡ order_wasted gs =
        take-enough 50 (order_wasted gs) (omega (arith, few, length-order_wasted gs)) in
      let hundred : take 100 (order_wasted gs) ≡ order_wasted gs =
        take-enough 100 (order_wasted gs) (omega (arith, few, length-order_wasted gs)) in
      rw (sized-All t sized, all, hundred, sum_duplicates-order gs, sum_wasted-order gs) refl
