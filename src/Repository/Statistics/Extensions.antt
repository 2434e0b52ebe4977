-- ===== src/Repository/Statistics/Extensions.antt =====
-- internal/repository/binary_file_repository.go: where the statistics of extensions fail, and what
-- the history of jobs says.
use omni_blob.Base.{
  ℕ, zero, suc, ◌≤◌, ◌≡◌, refl, ap, ◌∙◌, ◌↔◌, inl, inr, Bool, true, ◌||◌, Option, none, some, List,
  [], ◌∷◌, ◌++◌, map, arith, ◌==◌, Bool-cases, length, take, keep_if, any_of, All, Text, codes,
  text_eq_iff, has_byte, cons_head, split_on,
}
use omni_blob.Entity.{BinaryFile, LogFileRsync}
use omni_blob.Repository.BinaryFiles.{Files}
use omni_blob.Repository.Statistics.{
  last_of, extension_of, scan_extensions, extension_groups, get_extension_stats, same_key,
  get_job_history, job_of, error_logs,
}
use omni_blob.Repository.Statistics.Grouping.{
  Group, add_row, group_rows, insert_group, order_groups, larger_first,
}

abbrev pub has_blank : List (Group (Option Text)) → Bool
has_blank gs = any_of (λ g. same_key g.key none) gs

scan-has_blank : (gs : List (Group (Option Text))) → has_blank gs ≡ true → scan_extensions gs ≡ none
unfolding scan_extensions
scan-has_blank [] h = cc
scan-has_blank (g ∷ gs) h = ground (arith, scan-has_blank gs)

same_key_iff : (a b : Option Text) → (same_key a b ≡ true) ↔ (a ≡ b)
same_key_iff none none = ground arith
same_key_iff none (some y) = ground arith
same_key_iff (some x) none = ground arith
same_key_iff (some x) (some y) = ground (arith, text_eq_iff x y)

has_blank-add_row :
    (k : Option Text) (n : ℕ) (gs : List (Group (Option Text)))
    → has_blank (add_row same_key k n gs) ≡ (same_key k none || has_blank gs)
unfolding add_row
has_blank-add_row k n [] = ground arith
has_blank-add_row k n (g ∷ gs) = ground (
  arith,
  same_key_iff g.key k,
  same_key_iff g.key none,
  same_key_iff k none,
  has_blank-add_row k n gs,
)

has_blank-insert_group :
    (le : Group (Option Text) → Group (Option Text) → Bool) (g : Group (Option Text))
    (gs : List (Group (Option Text)))
    → has_blank (insert_group le g gs) ≡ (same_key g.key none || has_blank gs)
unfolding insert_group
has_blank-insert_group le g [] = ground arith
has_blank-insert_group le g (h ∷ hs) = ground (arith, has_blank-insert_group le g hs)

has_blank-order_groups :
    (le : Group (Option Text) → Group (Option Text) → Bool) (gs : List (Group (Option Text)))
    → has_blank (order_groups le gs) ≡ has_blank gs
unfolding order_groups
has_blank-order_groups le [] = refl
has_blank-order_groups le (g ∷ gs) =
    ground (arith, has_blank-insert_group le g (order_groups le gs), has_blank-order_groups le gs)

length-insert_group :
    (le : Group (Option Text) → Group (Option Text) → Bool) (g : Group (Option Text))
    (gs : List (Group (Option Text)))
    → length (insert_group le g gs) ≡ suc (length gs)
unfolding insert_group
length-insert_group le g [] = refl
length-insert_group le g (h ∷ hs) = ground (arith, length-insert_group le g hs)

length-order_groups :
    (le : Group (Option Text) → Group (Option Text) → Bool) (gs : List (Group (Option Text)))
    → length (order_groups le gs) ≡ length gs
unfolding order_groups
length-order_groups le [] = refl
length-order_groups le (g ∷ gs) =
    length-insert_group le g (order_groups le gs) ∙ ap suc (length-order_groups le gs)

take-whole : (n : ℕ) (gs : List (Group (Option Text))) → length gs ≤ n → take n gs ≡ gs
take-whole zero [] h = refl
take-whole zero (g ∷ gs) h = absurd (omega (arith, h))
take-whole (suc n) [] h = refl
take-whole (suc n) (g ∷ gs) h = ap (λ t. g ∷ t) (take-whole n gs (omega (arith, h)))

abbrev dotted : Files → Files
dotted t = keep_if (λ f. has_byte b'.' f.file_name) t

abbrev pub groups_of : Files → List (Group (Option Text))
groups_of t = group_rows same_key (λ f. extension_of f.file_name) (dotted t)

-- A name that ends in a dot has a dot and no extension.
EndsPieces : List Text → Type 0
EndsPieces ws = (w : Text) × (x : Text) × (xs : List Text) × (ws ≡ w ∷ x ∷ xs) × (last_of x xs ≡ [])

cons_head-EndsPieces : (c : ℕ) (ws : List Text) → EndsPieces ws → EndsPieces (cons_head c ws)
unfolding EndsPieces
cons_head-EndsPieces c ws (w, x, xs, e, l) = (c ∷ w, x, xs, ap (cons_head c) e, l)

front-EndsPieces : (ws : List Text) → EndsPieces ws → EndsPieces ([] ∷ ws)
unfolding EndsPieces
front-EndsPieces ws (w, x, xs, e, l) = ([], w, x ∷ xs, ap (λ t. [] ∷ t) e, l)

dot-EndsPieces : (s : Text) → EndsPieces (split_on b'.' (s ++ b'.' ∷ []))
unfolding EndsPieces split_on
dot-EndsPieces [] = ([], [], [], refl, refl)
dot-EndsPieces (c ∷ s) = elim (Bool-cases (c == b'.')) [
  | inl e ↦ rw e (front-EndsPieces (split_on b'.' (s ++ b'.' ∷ [])) (dot-EndsPieces s))
  | inr e ↦ rw e (cons_head-EndsPieces c (split_on b'.' (s ++ b'.' ∷ [])) (dot-EndsPieces s))
]

has_dot : (s : Text) → has_byte b'.' (s ++ b'.' ∷ []) ≡ true
unfolding has_byte
has_dot [] = refl
has_dot (c ∷ s) = ground (arith, has_dot s)

extension_of-dot : (s : Text) → extension_of (s ++ b'.' ∷ []) ≡ none
unfolding extension_of EndsPieces
extension_of-dot s =
    let (w, x, xs, e, l) = dot-EndsPieces s in
    let last : last_of [] (split_on b'.' (s ++ b'.' ∷ [])) ≡ [] = ap (last_of []) e ∙ l in
    rw (has_dot s, last) refl

groups-has_blank :
    (u v : Files) (f : BinaryFile) (s : Text)
    → f.file_name ≡ s ++ b'.' ∷ []
    → has_blank (groups_of (u ++ f ∷ v)) ≡ true
unfolding group_rows
groups-has_blank [] v f s e =
    let dot : has_byte b'.' f.file_name ≡ true = ap (has_byte b'.') e ∙ has_dot s in
    let blank : extension_of f.file_name ≡ none = ap extension_of e ∙ extension_of-dot s in
    rw (dot, has_blank-add_row (extension_of f.file_name) f.size (groups_of v), blank) refl
groups-has_blank (g ∷ u) v f s e = elim (Bool-cases (has_byte b'.' g.file_name)) [
  | inl d ↦
      rw
        (
          d,
          has_blank-add_row (extension_of g.file_name) g.size (groups_of (u ++ f ∷ v)),
          groups-has_blank u v f s e,
        )
        (ground arith)
  | inr d ↦ rw d (groups-has_blank u v f s e)
]

-- One record whose file name ends in a dot makes the statistics of extensions fail, where the records
-- have at most 50 extensions: its extension is NULL, which is scanned into a string.
pub get_extension_stats-fails :
    (u v : Files) (f : BinaryFile) (s : Text)
    → f.file_name ≡ s ++ b'.' ∷ []
    → length (groups_of (u ++ f ∷ v)) ≤ 50
    → get_extension_stats true (u ++ f ∷ v) ≡ none
unfolding get_extension_stats
get_extension_stats-fails u v f s e l =
    let gs = groups_of (u ++ f ∷ v) in
    scan-has_blank (extension_groups (u ++ f ∷ v)) (
      ap has_blank
        (take-whole 50 (order_groups larger_first gs) (rw (length-order_groups larger_first gs) l))
      ∙ has_blank-order_groups larger_first gs
      ∙ groups-has_blank u v f s e)

failed_jobs :
    (n : ℕ) (ls : List LogFileRsync) → All (λ j. j.status ≡ codes "Failed") (map job_of (take n ls))
unfolding job_of error_logs
failed_jobs zero ls = tt
failed_jobs (suc n) [] = tt
failed_jobs (suc n) (l ∷ ls) = (refl, failed_jobs n ls)

-- Every job of the history is called failed, also one of a batch without an error: the text that the
-- migration writes into error_logs is never blank.
pub get_job_history_failed :
    (ls : List LogFileRsync) → All (λ j. j.status ≡ codes "Failed") (get_job_history true true ls).0
unfolding get_job_history
get_job_history_failed ls = failed_jobs 20 ls
