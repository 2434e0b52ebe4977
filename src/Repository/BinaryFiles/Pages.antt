-- ===== src/Repository/BinaryFiles/Pages.antt =====
-- internal/repository/binary_file_repository.go: the page of pending files that a migration reads.
use omni_blob.Base.{
  ◌↔◌, ◌⊎◌, if◌then◌else◌, ltb→lt, All, ap, ℕ, suc, ◌≤◌, ◌<◌, ◌≡◌, refl, sym, ◌∙◌, inl, inr, true,
  some, [], ◌∷◌, arith, ltb, leb, Bool-cases, length, take, keep_if,
}
use omni_blob.Entity.{BinaryFile}
use omni_blob.Repository.BinaryFiles.{Files, get_pending_files, limit_or}
use omni_blob.Repository.BinaryFiles.Ordered.{
  Ascends, order_by_id-Ascends, take-Ascends, count, pending, count-page, count-pending-before,
  count-pending-after, Stands, Stands-All, Stands-order_by_id, Stands-keep_if, Stands-take,
  taken_or_after, length-order_by_id, length-take-min,
}

-- The rows after the checkpoint.
abbrev pub after : ℕ → Files → Files
after last t = keep_if (λ f. ltb last f.bin_id) t

pub Page : ℕ → ℕ → Files → Files → Type 0
Page last limit t page =
    let k = if ltb 0 limit then limit else 100 in
    Ascends 0 page
    × (length page ≡ (if leb k (length (after last t)) then k else length (after last t)))
    × All (λ f. Stands f t × (last < f.bin_id)) page
    × All (λ f. count f.bin_id page ≤ count f.bin_id t) page
    × All (λ f. (f.bin_id ≤ last) ⊎ (Stands f page ⊎ All (λ g. g.bin_id ≤ f.bin_id) page)) t

-- The page of pending files is in the order of the identifiers and holds as many rows as the limit
-- says (100 for a limit of 0), or all after the checkpoint where there are fewer. Each of them is a
-- row of the table after the checkpoint, no identifier stands there more often than in the table, and
-- none is skipped: every row of the table is at the checkpoint or before it, is on the page, or comes
-- after all rows of the page.
pub get_pending_files-Page :
    (last limit : ℕ) (t : Files)
    → (page : Files) × (get_pending_files true last limit t ≡ some page) × Page last limit t page
unfolding get_pending_files Page
get_pending_files-Page last limit t =
    let k = limit_or limit 100 in
    let ordered = pending last t in
    let a = order_by_id-Ascends (after last t) in
    let stands : (f : BinaryFile) → Stands f ordered ↔ (Stands f t × (ltb last f.bin_id ≡ true)) =
      λ f.
        let (there, back) = Stands-order_by_id f (after last t) in
        let (out, into) = Stands-keep_if (λ g. ltb last g.bin_id) f t in
        (λ m. out (there m), λ m. back (into m)) in
    (
      take k ordered,
      refl,
      (
        take-Ascends k 0 ordered a,
        length-take-min k ordered ∙ rw (length-order_by_id (after last t)) refl,
        Stands-All _ (take k ordered) (λ f m.
            let (there, later) = (stands f).0 (Stands-take k f ordered m) in
            (there, ltb→lt last f.bin_id later)),
        Stands-All _ (take k ordered) (λ f m. count-page k f.bin_id last t),
        Stands-All _ t (λ f m. elim (Bool-cases (ltb last f.bin_id)) [
          | inr before ↦ inl (ground (arith, before))
          | inl later ↦ inr (taken_or_after k 0 f ordered a ((stands f).1 (m, later)))
        ]),
      ),
    )

abbrev pub UpTo : ℕ → Files → Type 0
UpTo m = All (λ f. f.bin_id ≤ m)

none_after : (c : ℕ) (t : Files) → ((n : ℕ) → c < n → count n t ≡ 0) → UpTo c t
unfolding count
none_after c [] h = tt
none_after c (f ∷ t) h = (ground (arith, h f.bin_id), none_after c t (λ n g. ground (arith, h n g)))

take_empty : (k : ℕ) (l : Files) → take (suc k) l ≡ [] → l ≡ []
take_empty k [] e = refl
take_empty k (x ∷ l) e = absurd (ground (arith, e))

-- A query that finds nothing says that no record is left after the checkpoint.
pub page_end : (c k : ℕ) (t : Files) → get_pending_files true c (suc k) t ≡ some [] → UpTo c t
unfolding get_pending_files count
page_end c k t e = none_after c t (λ n g.
    sym (count-pending-after n c t g)
    ∙ ap (count n) (take_empty k (pending c t) (ground (arith, e))))

-- What a query finds stands after the checkpoint.
pub page_after :
    (c k : ℕ) (t : Files) (f : BinaryFile) (fs : Files)
    → get_pending_files true c k t ≡ some (f ∷ fs)
    → c < f.bin_id
unfolding get_pending_files count
page_after c k t f fs e =
    let h = count-pending-before (limit_or k 100) f.bin_id c t in
    let g : take (limit_or k 100) (pending c t) ≡ f ∷ fs = ground (arith, e) in ground (arith, g, h)
