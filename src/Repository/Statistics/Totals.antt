-- ===== src/Repository/Statistics/Totals.antt =====
-- internal/repository/binary_file_repository.go: the groups of the statistics tell exactly how many
-- rows there are of each key, and how large they are together.
use omni_blob.Base.{
  ℕ, ◌+◌, ◌≤◌, ◌≡◌, refl, ◌∙◌, ◌↔◌, Bool, true, false, Option, none, some, List, [], ◌∷◌, arith,
  leb, ◌==◌, ==_iff, text_eq, text_eq_iff,
}
use omni_blob.Entity.{BinaryFile}
use omni_blob.Storage.Layout.{Calendar}
use omni_blob.Repository.BinaryFiles.{Files}
use omni_blob.Repository.Statistics.{
  module_key, same_month, month_le, get_module_stats, get_yearly_stats, get_monthly_stats,
}
use omni_blob.Repository.Statistics.Grouping.{
  Group, add_row, group_rows, insert_group, order_groups, larger_first,
}

abbrev pub weight : Bool → ℕ → ℕ
weight true n = n
weight false n = 0

-- The sum of a measure over the entries that pass a test.
abbrev pub total {ℓ} : {A : Type ℓ} → (A → ℕ) → (A → Bool) → List A → ℕ
total m p [] = 0
total m p (x ∷ xs) = weight (p x) (m x) + total m p xs

module _ {K : Type 0} (same : K → K → Bool)
    (same_iff : (a b : K) → (same a b ≡ true) ↔ (a ≡ b)) where
  count_of : List (Group K) → K → ℕ
  count_of gs k = total (λ g. g.count) (λ g. same g.key k) gs

  bytes_of : List (Group K) → K → ℕ
  bytes_of gs k = total (λ g. g.size_bytes) (λ g. same g.key k) gs

  rows_of : List (Group K) → K → ℕ
  rows_of gs k = total (λ g. 1) (λ g. same g.key k) gs

  count_of-add_row :
      (j k : K) (n : ℕ) (gs : List (Group K))
      → count_of (add_row same j n gs) k ≡ count_of gs k + weight (same j k) 1
  unfolding count_of add_row
  count_of-add_row j k n [] = ground arith
  count_of-add_row j k n (g ∷ gs) =
      ground (arith, same_iff g.key j, same_iff j k, same_iff g.key k, count_of-add_row j k n gs)

  bytes_of-add_row :
      (j k : K) (n : ℕ) (gs : List (Group K))
      → bytes_of (add_row same j n gs) k ≡ bytes_of gs k + weight (same j k) n
  unfolding bytes_of add_row
  bytes_of-add_row j k n [] = ground arith
  bytes_of-add_row j k n (g ∷ gs) =
      ground (arith, same_iff g.key j, same_iff j k, same_iff g.key k, bytes_of-add_row j k n gs)

  rows_of-other :
      (j k : K) (n : ℕ) (gs : List (Group K))
      → same j k ≡ false
      → rows_of (add_row same j n gs) k ≡ rows_of gs k
  unfolding rows_of add_row
  rows_of-other j k n [] h = ground (arith, h)
  rows_of-other j k n (g ∷ gs) h = ground (arith, h, rows_of-other j k n gs)

  rows_of-add_row :
      (j k : K) (n : ℕ) (gs : List (Group K))
      → rows_of gs k ≤ 1
      → rows_of (add_row same j n gs) k ≤ 1
  unfolding rows_of add_row
  rows_of-add_row j k n [] h = ground arith
  rows_of-add_row j k n (g ∷ gs) h = ground (
    arith,
    h,
    same_iff g.key j,
    same_iff j k,
    same_iff g.key k,
    rows_of-add_row j k n gs,
    rows_of-other j k n gs,
  )

  module _ (key : BinaryFile → K) where
    count_of-group_rows :
        (k : K) (t : Files)
        → count_of (group_rows same key t) k ≡ total (λ f. 1) (λ f. same (key f) k) t
    unfolding group_rows count_of
    count_of-group_rows k [] = refl
    count_of-group_rows k (f ∷ t) =
        omega (
          arith,
          count_of-group_rows k t,
          count_of-add_row (key f) k f.size (group_rows same key t),
        )

    bytes_of-group_rows :
        (k : K) (t : Files)
        → bytes_of (group_rows same key t) k ≡ total (λ f. f.size) (λ f. same (key f) k) t
    unfolding group_rows bytes_of
    bytes_of-group_rows k [] = refl
    bytes_of-group_rows k (f ∷ t) =
        omega (
          arith,
          bytes_of-group_rows k t,
          bytes_of-add_row (key f) k f.size (group_rows same key t),
        )

    rows_of-group_rows : (k : K) (t : Files) → rows_of (group_rows same key t) k ≤ 1
    unfolding group_rows rows_of
    rows_of-group_rows k [] = omega arith
    rows_of-group_rows k (f ∷ t) =
        rows_of-add_row (key f) k f.size (group_rows same key t) (rows_of-group_rows k t)

total-insert_group :
    {K : Type 0} (le : Group K → Group K → Bool) (m : Group K → ℕ) (p : Group K → Bool)
    (g : Group K) (gs : List (Group K))
    → total m p (insert_group le g gs) ≡ weight (p g) (m g) + total m p gs
unfolding insert_group
total-insert_group le m p g [] = refl
total-insert_group le m p g (h ∷ hs) = ground (arith, total-insert_group le m p g hs)

total-order_groups :
    {K : Type 0} (le : Group K → Group K → Bool) (m : Group K → ℕ) (p : Group K → Bool)
    (gs : List (Group K))
    → total m p (order_groups le gs) ≡ total m p gs
unfolding order_groups
total-order_groups le m p [] = refl
total-order_groups le m p (g ∷ gs) =
    omega (arith, total-order_groups le m p gs, total-insert_group le m p g (order_groups le gs))

-- A key has at most one group, whose count and bytes are those of the rows with the key, and none
-- counts nothing.
abbrev pub Tabulates :
    {K : Type 0} → (K → K → Bool) → (BinaryFile → K) → Files → Option (List (Group K)) → Type 0
Tabulates same key t none = ⊥
Tabulates {K = K} same key t (some gs) =
    (k : K)
    → (total (λ g. 1) (λ g. same g.key k) gs ≤ 1)
      × (total (λ g. g.count) (λ g. same g.key k) gs ≡ total (λ f. 1) (λ f. same (key f) k) t)
      × (total (λ g. g.size_bytes) (λ g. same g.key k) gs
          ≡ total (λ f. f.size) (λ f. same (key f) k) t)

ordered-Tabulates :
    {K : Type 0} (same : K → K → Bool) (same_iff : (a b : K) → (same a b ≡ true) ↔ (a ≡ b))
    (key : BinaryFile → K) (le : Group K → Group K → Bool) (t : Files)
    → Tabulates same key t (some (order_groups le (group_rows same key t)))
unfolding rows_of count_of bytes_of
ordered-Tabulates same same_iff key le t k =
    let gs = group_rows same key t in
    (
      rw (total-order_groups le (λ g. 1) (λ g. same g.key k) gs)
          (rows_of-group_rows same same_iff key k t),
      total-order_groups le (λ g. g.count) (λ g. same g.key k) gs
          ∙ count_of-group_rows same same_iff key k t,
      total-order_groups le (λ g. g.size_bytes) (λ g. same g.key k) gs
          ∙ bytes_of-group_rows same same_iff key k t,
    )

same_month_iff : (a b : ℕ × ℕ) → (same_month a b ≡ true) ↔ (a ≡ b)
same_month_iff (y, m) (z, n) = ground arith

-- The statistics by module, by year and by month each have at most one group for a key, with exactly
-- the number of the records of that key and the sum of their sizes; a record without a module
-- belongs to "unknown".
pub statistics-Tabulates :
    (cal : Calendar) (t : Files)
    → Tabulates text_eq module_key t (get_module_stats true t)
      × Tabulates (λ x y. x == y) (λ f. cal.year f.create_date) t (get_yearly_stats cal true t)
      × Tabulates same_month
          (λ f. (cal.year f.create_date, cal.month f.create_date))
          t
          (get_monthly_stats cal true t)
unfolding get_module_stats get_yearly_stats get_monthly_stats
statistics-Tabulates cal t = (
  ordered-Tabulates text_eq text_eq_iff module_key larger_first t,
  ordered-Tabulates (λ x y. x == y) ==_iff (λ f. cal.year f.create_date) (λ a b. leb a.key b.key) t,
  ordered-Tabulates same_month same_month_iff
      (λ f. (cal.year f.create_date, cal.month f.create_date)) (λ a b. month_le a.key b.key) t,
)
