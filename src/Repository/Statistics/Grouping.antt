-- ===== src/Repository/Statistics/Grouping.antt =====
-- GROUP BY with COUNT and SUM, and ORDER BY, as the statistics of internal/repository use them. Where
-- two groups are equal in the order, SQL leaves it open which comes first.
use omni_blob.Base.{ℕ, ◌+◌, Bool, List, [], ◌∷◌, leb, if◌then◌else◌}
use omni_blob.Entity.{BinaryFile}
use omni_blob.Repository.BinaryFiles.{Files}

-- A group: its key, how many rows it has, and the sum of their sizes.
pub record Group (K : Type 0) : Type 0 where
  pub key : K
  pub count : ℕ
  pub size_bytes : ℕ

module _ {K : Type 0} where
  unfoldable pub add_row : (K → K → Bool) → K → ℕ → List (Group K) → List (Group K)
  add_row same k n [] = (record { key = k; count = 1; size_bytes = n }) ∷ []
  add_row same k n (g ∷ gs) =
      if same g.key k
      then (record g { count = g.count + 1; size_bytes = g.size_bytes + n }) ∷ gs
      else g ∷ add_row same k n gs

  unfoldable pub group_rows : (K → K → Bool) → (BinaryFile → K) → Files → List (Group K)
  unfolding add_row
  group_rows same key [] = []
  group_rows same key (f ∷ fs) = add_row same (key f) f.size (group_rows same key fs)

  -- In an order that is given by a test.
  unfoldable pub insert_group :
      (Group K → Group K → Bool) → Group K → List (Group K) → List (Group K)
  insert_group le g [] = g ∷ []
  insert_group le g (h ∷ hs) = if le g h then g ∷ h ∷ hs else h ∷ insert_group le g hs

  unfoldable pub order_groups : (Group K → Group K → Bool) → List (Group K) → List (Group K)
  unfolding insert_group
  order_groups le [] = []
  order_groups le (g ∷ gs) = insert_group le g (order_groups le gs)

  abbrev pub larger_first : Group K → Group K → Bool
  larger_first a b = leb b.size_bytes a.size_bytes
