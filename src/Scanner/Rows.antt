-- ===== src/Scanner/Rows.antt =====
-- cmd/file-sync/main.go: the rows that a scan writes.
use omni_blob.Base.{
  ℕ, ◌+◌, ◌≡◌, refl, sym, ap, ◌∙◌, inl, inr, Bool, true, false, ◌&&◌, not, Option, none, some, List,
  [], ◌∷◌, ◌++◌, arith, ◌==◌, Bool-cases, length, length-append, any_of, Text,
}
use mathlib.Core.List.{append-nil, append_assoc}
use omni_blob.Entity.{BinaryFile}
use omni_blob.Repository.BinaryFiles.{Files}
use omni_blob.Scanner.{
  Visit, inaccessible, directory, file, Step, Table, is_scanned, scanned_row, row_fits,
  insert_serial, counted, scan_file, scan_visit, scan_all, run_legacy_scanner,
}

-- The rows that are added are counted, and the others stay.
abbrev pub Added : Table → (Table × ℕ) → Type 0
Added t (u, n) = (added : Files) × (u.rows ≡ t.rows ++ added) × (n ≡ length added)

nothing-Added : (t u : Table) → u.rows ≡ t.rows → Added t (u, 0)
nothing-Added t u e = ([], e ∙ sym (append-nil t.rows), refl)

insert_serial-Added :
    (up : Bool) (f : BinaryFile) (t : Table) → Added t (counted (insert_serial up f t))
unfolding insert_serial
insert_serial-Added false f t = nothing-Added t t refl
insert_serial-Added true f t =
    elim (Bool-cases (row_fits f && not (any_of (λ x. x.bin_id == f.bin_id) t.rows))) [
      | inl e ↦ rw e (f ∷ [], refl, refl)
      | inr e ↦ rw e (nothing-Added t (record t { next_serial = t.next_serial + 1 }) refl)
    ]

scan_file-Added :
    (s : Step) (p : Text) (info : Option (ℕ × ℕ)) (t : Table) → Added t (scan_file s p info t)
unfolding scan_file
scan_file-Added s p info t = elim (Bool-cases (s.exists_up && is_scanned p t.rows)) [
  | inl e ↦ rw e (nothing-Added t t refl)
  | inr e ↦ rw e (insert_serial-Added s.insert_up (scanned_row t.next_serial s.now p info) t)
]

scan_visit-Added : (s : Step) (v : Visit) (t : Table) → Added t (scan_visit s v t)
unfolding scan_visit
scan_visit-Added s inaccessible t = nothing-Added t t refl
scan_visit-Added s directory t = nothing-Added t t refl
scan_visit-Added s (file none info) t = nothing-Added t t refl
scan_visit-Added s (file (some p) info) t = scan_file-Added s p info t

Added-then :
    (t : Table) (r : Table × ℕ) (q : Table × ℕ) → Added t r → Added r.0 q → Added t (q.0, r.1 + q.1)
Added-then t (u, n) (w, m) (a, e, c) (b, f, d) = (
  a ++ b,
  f ∙ ap (λ x. x ++ b) e ∙ append_assoc t.rows a b,
  omega (arith, c, d, length-append a b),
)

pub scan_all-Added : (ss : List Step) (t : Table) → Added t (scan_all ss t)
unfolding scan_all
scan_all-Added [] t = nothing-Added t t refl
scan_all-Added (s ∷ ss) t =
    Added-then t (scan_visit s s.visit t) (scan_all ss (scan_visit s s.visit t).0)
      (scan_visit-Added s s.visit t) (scan_all-Added ss (scan_visit s s.visit t).0)

-- A scan removes and changes no row, whatever fails, and the count that it logs is the number of
-- rows that it adds.
pub run_legacy_scanner-Added :
    (present : Bool) (ss : List Step) (t : Table) → Added t (run_legacy_scanner present ss t)
unfolding run_legacy_scanner
run_legacy_scanner-Added true ss t = scan_all-Added ss t
run_legacy_scanner-Added false ss t = nothing-Added t t refl
