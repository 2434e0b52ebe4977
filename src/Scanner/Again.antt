-- ===== src/Scanner/Again.antt =====
-- cmd/file-sync/main.go: a scan finds a row for each file, and a second one adds nothing.
use omni_blob.Base.{
  ℕ, ◌+◌, ◌<◌, ◌≡◌, refl, inl, inr, true, false, Option, none, some, List, [], ◌∷◌, ◌++◌, map,
  arith, ◌==◌, Bool-cases, any_of, All, All-append, Text, text_eq_iff,
}
use omni_blob.Entity.{BinaryFile}
use omni_blob.Repository.BinaryFiles.{Files}
use omni_blob.Scanner.{
  Visit, inaccessible, directory, file, Step, Table, is_scanned, scanned_row, row_fits,
  insert_serial, scan_file, scan_visit, scan_all, run_legacy_scanner, legacy_scan,
}
use omni_blob.Scanner.Rows.{scan_all-Added}

-- The sequence is ahead of all the identifiers.
abbrev pub IsAhead : Table → Type 0
IsAhead t = All (λ f. f.bin_id < t.next_serial) t.rows

-- The file's texts fit into the columns.
abbrev pub VisitFits : Visit → Type 0
VisitFits (file (some p) info) = row_fits (scanned_row 0 0 p info) ≡ true
VisitFits _ = Unit

-- Both queries of a step are answered.
abbrev pub StepWorks : Step → Type 0
StepWorks s = (s.exists_up ≡ true) × (s.insert_up ≡ true) × VisitFits s.visit

-- A visited file has its row.
abbrev pub VisitScanned : Files → Visit → Type 0
VisitScanned t (file (some p) info) = is_scanned p t ≡ true
VisitScanned t _ = Unit

is_scanned-append : (p : Text) (t u : Files) → is_scanned p t ≡ true → is_scanned p (t ++ u) ≡ true
unfolding is_scanned
is_scanned-append p [] u h = cc
is_scanned-append p (f ∷ t) u h = ground (arith, h, is_scanned-append p t u)

is_scanned-last :
    (p : Text) (t : Files) (f : BinaryFile)
    → f.path ≡ p
    → f.module_name ≡ legacy_scan
    → is_scanned p (t ++ f ∷ []) ≡ true
unfolding is_scanned
is_scanned-last p [] f e m =
    ground (arith, (text_eq_iff f.path p).1 e, (text_eq_iff f.module_name legacy_scan).1 m)
is_scanned-last p (g ∷ t) f e m = ground (arith, is_scanned-last p t f e m)

free-ahead : (n : ℕ) (t : Files) → All (λ f. f.bin_id < n) t → any_of (λ x. x.bin_id == n) t ≡ false
free-ahead n [] h = refl
free-ahead n (f ∷ t) h = ground (arith, h.0, free-ahead n t h.1)

All-below : (n : ℕ) (t : Files) → All (λ f. f.bin_id < n) t → All (λ f. f.bin_id < n + 1) t
All-below n [] h = tt
All-below n (f ∷ t) h = (omega (arith, h.0), All-below n t h.1)

insert_serial-works :
    (f : BinaryFile) (t : Table)
    → IsAhead t
    → f.bin_id ≡ t.next_serial
    → row_fits f ≡ true
    → insert_serial true f t
      ≡ (record { rows = t.rows ++ f ∷ []; next_serial = t.next_serial + 1 }, true)
unfolding insert_serial
insert_serial-works f t a e h =
    let free : any_of (λ x. x.bin_id == f.bin_id) t.rows ≡ false =
      rw e (free-ahead t.next_serial t.rows a) in
    rw (h, free) refl

scan_file-found :
    (s : Step) (p : Text) (info : Option (ℕ × ℕ)) (t : Table)
    → s.exists_up ≡ true
    → is_scanned p t.rows ≡ true
    → scan_file s p info t ≡ (t, 0)
unfolding scan_file
scan_file-found s p info t x e = ground (arith, x, e)

-- The table with the row of a new file.
abbrev with_row : Step → Text → Option (ℕ × ℕ) → Table → Table
with_row s p info t = record {
  rows = t.rows ++ scanned_row t.next_serial s.now p info ∷ [];
  next_serial = t.next_serial + 1;
}

scan_file-new :
    (s : Step) (p : Text) (info : Option (ℕ × ℕ)) (t : Table)
    → s.insert_up ≡ true
    → VisitFits (file (some p) info)
    → IsAhead t
    → is_scanned p t.rows ≡ false
    → (scan_file s p info t).0 ≡ with_row s p info t
unfolding scan_file row_fits scanned_row
scan_file-new s p info t i h a e =
    rw (e, i)
      (ground (arith, insert_serial-works (scanned_row t.next_serial s.now p info) t a refl h))

with_row-IsAhead :
    (s : Step) (p : Text) (info : Option (ℕ × ℕ)) (t : Table)
    → IsAhead t
    → IsAhead (with_row s p info t)
unfolding scanned_row
with_row-IsAhead s p info t a =
    All-append (λ f. f.bin_id < t.next_serial + 1) t.rows
      (scanned_row t.next_serial s.now p info ∷ []) (All-below t.next_serial t.rows a)
      (omega arith, tt)

with_row-scanned :
    (s : Step) (p : Text) (info : Option (ℕ × ℕ)) (t : Table)
    → is_scanned p (with_row s p info t).rows ≡ true
unfolding scanned_row
with_row-scanned s p info t =
    is_scanned-last p t.rows (scanned_row t.next_serial s.now p info) refl refl

-- A step that works leaves a row of its file, and the sequence ahead.
abbrev Works : Visit → Table → Type 0
Works v u = VisitScanned u.rows v × IsAhead u

scan_file-Works :
    (s : Step) (p : Text) (info : Option (ℕ × ℕ)) (t : Table)
    → s.exists_up ≡ true
    → s.insert_up ≡ true
    → VisitFits (file (some p) info)
    → IsAhead t
    → Works (file (some p) info) (scan_file s p info t).0
scan_file-Works s p info t x i h a = elim (Bool-cases (is_scanned p t.rows)) [
  | inl e ↦ rw (scan_file-found s p info t x e) (e, a)
  | inr e ↦
      rw (scan_file-new s p info t i h a e)
        (with_row-scanned s p info t, with_row-IsAhead s p info t a)
]

scan_visit-Works :
    (s : Step) (v : Visit) (t : Table)
    → s.exists_up ≡ true
    → s.insert_up ≡ true
    → VisitFits v
    → IsAhead t
    → Works v (scan_visit s v t).0
unfolding scan_visit
scan_visit-Works s inaccessible t x i h a = (tt, a)
scan_visit-Works s directory t x i h a = (tt, a)
scan_visit-Works s (file none info) t x i h a = (tt, a)
scan_visit-Works s (file (some p) info) t x i h a = scan_file-Works s p info t x i h a

VisitScanned-append : (v : Visit) (t u : Files) → VisitScanned t v → VisitScanned (t ++ u) v
VisitScanned-append inaccessible t u h = tt
VisitScanned-append directory t u h = tt
VisitScanned-append (file none info) t u h = tt
VisitScanned-append (file (some p) info) t u h = is_scanned-append p t u h

scan_all-kept :
    (ss : List Step) (v : Visit) (t : Table)
    → VisitScanned t.rows v
    → VisitScanned (scan_all ss t).0.rows v
scan_all-kept ss v t h =
    let (added, e, n) = scan_all-Added ss t in rw e (VisitScanned-append v t.rows added h)

scan_all-scanned :
    (ss : List Step) (t : Table)
    → All StepWorks ss
    → IsAhead t
    → All (VisitScanned (scan_all ss t).0.rows) (map (λ s. s.visit) ss)
unfolding scan_all
scan_all-scanned [] t w a = tt
scan_all-scanned (s ∷ ss) t ((x, i, h), w) a =
    let (found, ahead) = scan_visit-Works s s.visit t x i h a in
    (
      scan_all-kept ss s.visit (scan_visit s s.visit t).0 found,
      scan_all-scanned ss (scan_visit s s.visit t).0 w ahead,
    )

scan_visit-again :
    (s : Step) (v : Visit) (t : Table)
    → s.exists_up ≡ true
    → VisitScanned t.rows v
    → scan_visit s v t ≡ (t, 0)
unfolding scan_visit
scan_visit-again s inaccessible t x h = refl
scan_visit-again s directory t x h = refl
scan_visit-again s (file none info) t x h = refl
scan_visit-again s (file (some p) info) t x h = scan_file-found s p info t x h

scan_all-again :
    (ss : List Step) (t : Table)
    → All (λ s. s.exists_up ≡ true) ss
    → All (VisitScanned t.rows) (map (λ s. s.visit) ss)
    → scan_all ss t ≡ (t, 0)
unfolding scan_all
scan_all-again [] t x h = refl
scan_all-again (s ∷ ss) t x h =
    rw (scan_visit-again s s.visit t x.0 h.0, scan_all-again ss t x.1 h.1) refl

-- When the sequence is ahead of the identifiers, the files' texts fit into the columns and the
-- queries are answered, then after a scan each visited file has a row of the scanner, and a later
-- scan that visits the same entries and whose lookups are answered changes nothing and counts none.
pub run_legacy_scanner-again :
    (ss later : List Step) (t : Table)
    → All StepWorks ss
    → IsAhead t
    → All (λ s. s.exists_up ≡ true) later
    → map (λ s. s.visit) later ≡ map (λ s. s.visit) ss
    → All (VisitScanned (run_legacy_scanner true ss t).0.rows) (map (λ s. s.visit) ss)
      × (run_legacy_scanner true later (run_legacy_scanner true ss t).0
          ≡ ((run_legacy_scanner true ss t).0, 0))
unfolding run_legacy_scanner
run_legacy_scanner-again ss later t w a x same =
    let found = scan_all-scanned ss t w a in
    (found, scan_all-again later (scan_all ss t).0 x (rw same found))

-- A new file gets no row where the sequence has come to an identifier that a row has, as after
-- uploads, which count on from the greatest identifier and leave the sequence.
pub scan_file-collides :
    (s : Step) (p : Text) (info : Option (ℕ × ℕ)) (t : Table)
    → any_of (λ f. f.bin_id == t.next_serial) t.rows ≡ true
    → ((scan_file s p info t).0.rows ≡ t.rows) × ((scan_file s p info t).1 ≡ 0)
unfolding scan_file insert_serial scanned_row
scan_file-collides s p info t h = ground (arith, h)
