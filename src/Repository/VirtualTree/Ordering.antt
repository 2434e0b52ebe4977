-- ===== src/Repository/VirtualTree/Ordering.antt =====
-- internal/repository/binary_file_virtual.go: the order of the rows, and what ordering keeps.
use omni_blob.Base.{
  suc, ◌≡◌, refl, ap, ◌∙◌, inl, inr, Bool, true, false, Option, none, some, List, [], ◌∷◌, arith,
  Bool-cases, length, keep_if, All,
}
use omni_blob.Repository.VirtualTree.{Entry, Collation, before, insert_ordered, order_entries}
use omni_blob.Repository.VirtualTree.Groups.{to_list}

module _ (c : Collation) where
  keep_if-other :
      (p : Entry → Bool) (e : Entry) (gs : List Entry)
      → p e ≡ false
      → keep_if p (insert_ordered c e gs) ≡ keep_if p gs
  unfolding insert_ordered
  keep_if-other p e [] h = ground (arith, h)
  keep_if-other p e (g ∷ gs) h = ground (arith, h, keep_if-other p e gs)

  keep_if-only :
      (p : Entry → Bool) (e : Entry) (gs : List Entry)
      → p e ≡ true
      → keep_if p gs ≡ []
      → keep_if p (insert_ordered c e gs) ≡ e ∷ []
  unfolding insert_ordered
  keep_if-only p e [] h k = ground (arith, h)
  keep_if-only p e (g ∷ gs) h k = ground (arith, h, k, keep_if-only p e gs)

  only_one :
      (g : Entry) (gs : List Entry) (o : Option Entry)
      → g ∷ gs ≡ to_list o
      → (gs ≡ []) × (g ∷ [] ≡ to_list o)
  only_one g gs none h = absurd (cc h)
  only_one g gs (some x) h = (cc, cc)

  -- A condition that at most one row meets is met by the same row after ordering.
  pub keep_if-order_entries :
      (p : Entry → Bool) (gs : List Entry) (o : Option Entry)
      → keep_if p gs ≡ to_list o
      → keep_if p (order_entries c gs) ≡ to_list o
  unfolding order_entries
  keep_if-order_entries p [] o h = h
  keep_if-order_entries p (g ∷ gs) o h = elim (Bool-cases (p g)) [
    | inr e ↦
        keep_if-other p g (order_entries c gs) e
        ∙ keep_if-order_entries p gs o (ground (arith, e, h))
    | inl e ↦
        let one : g ∷ keep_if p gs ≡ to_list o = ground (arith, e, h) in
        let (rest, whole) = only_one g (keep_if p gs) o one in
        keep_if-only p g (order_entries c gs) e (keep_if-order_entries p gs none rest) ∙ whole
  ]

  length-insert_ordered :
      (e : Entry) (gs : List Entry) → length (insert_ordered c e gs) ≡ suc (length gs)
  unfolding insert_ordered
  length-insert_ordered e [] = refl
  length-insert_ordered e (g ∷ gs) = ground (arith, length-insert_ordered e gs)

  pub length-order_entries : (gs : List Entry) → length (order_entries c gs) ≡ length gs
  unfolding order_entries
  length-order_entries [] = refl
  length-order_entries (g ∷ gs) =
      length-insert_ordered g (order_entries c gs) ∙ ap suc (length-order_entries gs)

  -- Every row comes before all the later ones.
  abbrev pub IsOrdered : List Entry → Type 0
  IsOrdered [] = Unit
  IsOrdered (e ∷ es) = All (λ g. before c e g ≡ true) es × IsOrdered es

  before_total : (a b : Entry) → before c a b ≡ false → before c b a ≡ true
  before_total a b h = ground (arith, h, c.le_total a.name b.name)

  before_trans : (a b d : Entry) → before c a b ≡ true → before c b d ≡ true → before c a d ≡ true
  before_trans a b d h k = ground (arith, h, k, c.le_trans a.name b.name d.name)

  All-later :
      (a b : Entry) (gs : List Entry)
      → before c a b ≡ true
      → All (λ g. before c b g ≡ true) gs
      → All (λ g. before c a g ≡ true) gs
  All-later a b [] h all = tt
  All-later a b (g ∷ gs) h all = (before_trans a b g h all.0, All-later a b gs h all.1)

  All-insert_ordered :
      (P : Entry → Type 0) (e : Entry) (gs : List Entry)
      → P e
      → All P gs
      → All P (insert_ordered c e gs)
  unfolding insert_ordered
  All-insert_ordered P e [] h all = (h, tt)
  All-insert_ordered P e (g ∷ gs) h all = elim (Bool-cases (before c e g)) [
    | inl b ↦ rw b (h, all)
    | inr b ↦ rw b (all.0, All-insert_ordered P e gs h all.1)
  ]

  insert_ordered-IsOrdered :
      (e : Entry) (gs : List Entry) → IsOrdered gs → IsOrdered (insert_ordered c e gs)
  unfolding insert_ordered
  insert_ordered-IsOrdered e [] o = (tt, tt)
  insert_ordered-IsOrdered e (g ∷ gs) o = elim (Bool-cases (before c e g)) [
    | inl b ↦ rw b ((b, All-later e g gs b o.0), o)
    | inr b ↦ rw b (
      All-insert_ordered (λ x. before c g x ≡ true) e gs (before_total e g b) o.0,
      insert_ordered-IsOrdered e gs o.1,
    )
  ]

  pub order_entries-IsOrdered : (gs : List Entry) → IsOrdered (order_entries c gs)
  unfolding order_entries
  order_entries-IsOrdered [] = tt
  order_entries-IsOrdered (g ∷ gs) =
      insert_ordered-IsOrdered g (order_entries c gs) (order_entries-IsOrdered gs)

  pub All-order_entries :
      (P : Entry → Type 0) (gs : List Entry) → All P gs → All P (order_entries c gs)
  unfolding order_entries
  All-order_entries P [] all = tt
  All-order_entries P (g ∷ gs) all =
      All-insert_ordered P g (order_entries c gs) all.0 (All-order_entries P gs all.1)
