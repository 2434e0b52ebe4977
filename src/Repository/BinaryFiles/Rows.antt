-- ===== src/Repository/BinaryFiles/Rows.antt =====
-- internal/repository/binary_file_repository.go: what the queries do to the rows.
use omni_blob.Base.{
  ℕ, suc, ◌<◌, ◌≡◌, refl, ◌∙◌, ◌≢◌, inl, inr, Bool, true, false, not, Option, none, some, [], ◌∷◌,
  ◌++◌, map, arith, ◌==◌, if◌then◌else◌, Bool-cases, keep_if, any_of, head_of, Text,
}
use omni_blob.Entity.{BinaryFile}
use omni_blob.Repository.BinaryFiles.{
  Files, get_by_id, insert_row, insert_file, prepare, max_id, delete_row, update_path_and_status,
  set_status,
}

abbrev by_id : ℕ → Files → Option BinaryFile
by_id n t = head_of (keep_if (λ f. f.bin_id == n) t)

by_id-append :
    (n : ℕ) (t : Files) (g : BinaryFile)
    → by_id n (t ++ g ∷ [])
      ≡ elim (by_id n t) [ none ↦ if g.bin_id == n then some g else none | some f ↦ some f ]
by_id-append n [] g = ground arith
by_id-append n (f ∷ t) g = ground (arith, by_id-append n t g)

by_id-none : (n : ℕ) (t : Files) → any_of (λ x. x.bin_id == n) t ≡ false → by_id n t ≡ none
by_id-none n [] h = refl
by_id-none n (f ∷ t) h = ground (arith, by_id-none n t, h)

by_id-delete :
    (m n : ℕ) (t : Files)
    → by_id m (keep_if (λ f. not (f.bin_id == n)) t) ≡ (if m == n then none else by_id m t)
by_id-delete m n [] = ground arith
by_id-delete m n (f ∷ t) = ground (arith, by_id-delete m n t)

max_id-lt : (n : ℕ) (t : Files) → max_id t < n → any_of (λ x. x.bin_id == n) t ≡ false
unfolding max_id
max_id-lt n [] h = refl
max_id-lt n (f ∷ t) h = ground (arith, max_id-lt n t)

-- A row that is deleted is gone, whether it was there or not, and any other identifier gives what it
-- gave.
pub get_by_id-delete_row :
    (m n : ℕ) (t : Files)
    → get_by_id true m (delete_row true n t).0 ≡ (if m == n then none else get_by_id true m t)
unfolding get_by_id delete_row
get_by_id-delete_row m n t = by_id-delete m n t

abbrev taken : ℕ → Files → Bool
taken n t = any_of (λ x. x.bin_id == n) t

-- A write of the row `g` that succeeds gives `g` back, whose identifier no row had and now finds it,
-- and any other identifier finds what it found; one that fails leaves the table.
abbrev pub Inserted : BinaryFile → Files → (Files × Option BinaryFile) → Type 0
Inserted g t (u, none) = u ≡ t
Inserted g t (u, some x) =
    (x ≡ g)
    × (get_by_id true g.bin_id t ≡ none)
    × (get_by_id true g.bin_id u ≡ some g)
    × ((m : ℕ) → m ≢ g.bin_id → get_by_id true m u ≡ get_by_id true m t)

appended-Inserted :
    (g : BinaryFile) (t : Files) → taken g.bin_id t ≡ false → Inserted g t (t ++ g ∷ [], some g)
unfolding get_by_id
appended-Inserted g t e =
    let n = by_id-none g.bin_id t e in
    (
      refl,
      n,
      rw (by_id-append g.bin_id t g, n) (ground arith),
      λ m d. by_id-append m t g ∙ ground (arith, d),
    )

insert_row-Inserted : (up : Bool) (g : BinaryFile) (t : Files) → Inserted g t (insert_row up g t)
unfolding insert_row
insert_row-Inserted false g t = refl
insert_row-Inserted true g t = elim (Bool-cases (taken g.bin_id t)) [
  | inl e ↦ rw (e) refl
  | inr e ↦ rw (e) (appended-Inserted g t e)
]

-- An Insert that succeeds gives back the row it wrote, which is the given one prepared; its
-- identifier, which no row had, then finds it, and any other identifier finds what it found. One
-- that fails leaves the table.
pub insert_file-Inserted :
    (next_up up : Bool) (now : ℕ) (f : BinaryFile) (t : Files)
    → Inserted (prepare next_up now t f) t (insert_file next_up up now f t)
unfolding insert_file
insert_file-Inserted next_up up now f t = insert_row-Inserted up (prepare next_up now t f) t

prepare-fresh :
    (now : ℕ) (f : BinaryFile) (t : Files)
    → f.bin_id ≡ 0
    → (prepare true now t f).bin_id ≡ suc (max_id t)
unfolding prepare
prepare-fresh now f t e = ground (arith, e)

insert_row-free :
    (g : BinaryFile) (t : Files) → taken g.bin_id t ≡ false → (insert_row true g t).1 ≡ some g
unfolding insert_row
insert_row-free g t e = rw (e) refl

-- With the database up and no identifier given, Insert takes the identifier after the greatest, and
-- cannot fail.
pub insert_file-fresh :
    (now : ℕ) (f : BinaryFile) (t : Files)
    → f.bin_id ≡ 0
    → ((insert_file true true now f t).1 ≡ some (prepare true now t f))
      × ((prepare true now t f).bin_id ≡ suc (max_id t))
unfolding insert_file
insert_file-fresh now f t e =
    let n = prepare-fresh now f t e in
    (
      insert_row-free (prepare true now t f) t
          (max_id-lt (prepare true now t f).bin_id t (omega (arith, n))),
      n,
    )

by_id-update :
    (m n : ℕ) (path checksum : Text) (size : ℕ) (flag : Text) (t : Files)
    → by_id m (map (λ f. if f.bin_id == n then set_status path checksum size flag f else f) t)
      ≡ elim (by_id m t) [
        | none ↦ none
        | some f ↦ some (if m == n then set_status path checksum size flag f else f)
      ]
by_id-update m n path checksum size flag [] = refl
by_id-update m n path checksum size flag (f ∷ t) =
    ground (arith, by_id-update m n path checksum size flag t)

-- An update of a row's path and status is seen at its identifier alone, and makes or removes no row.
pub get_by_id-update :
    (m n : ℕ) (path checksum : Text) (size : ℕ) (flag : Text) (t : Files)
    → get_by_id true m (update_path_and_status n path checksum size flag t)
      ≡ elim (get_by_id true m t) [
        | none ↦ none
        | some f ↦ some (if m == n then set_status path checksum size flag f else f)
      ]
unfolding get_by_id update_path_and_status
get_by_id-update m n path checksum size flag t = by_id-update m n path checksum size flag t
