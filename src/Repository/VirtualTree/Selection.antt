-- ===== src/Repository/VirtualTree/Selection.antt =====
-- internal/repository/binary_file_virtual.go: what the limit and the passing over of blank names keep.
use omni_blob.Base.{
  ℕ, zero, suc, ◌≤◌, ◌≡◌, refl, sym, ap, ◌∙◌, inl, inr, Bool, false, not, List, [], ◌∷◌, arith,
  Bool-cases, length, take, keep_if, All, Text, text_eq, text_eq_iff, is_empty,
}
use omni_blob.Repository.VirtualTree.{Entry, Collation}
use omni_blob.Repository.VirtualTree.Groups.{named}
use omni_blob.Repository.VirtualTree.Ordering.{IsOrdered}

pub All-keep_if :
    (P : Entry → Type 0) (p : Entry → Bool) (gs : List Entry) → All P gs → All P (keep_if p gs)
All-keep_if P p [] all = tt
All-keep_if P p (g ∷ gs) all = ground (arith, all, All-keep_if P p gs all.1)

pub All-take : (P : Entry → Type 0) (n : ℕ) (gs : List Entry) → All P gs → All P (take n gs)
All-take P zero gs all = tt
All-take P (suc n) [] all = tt
All-take P (suc n) (g ∷ gs) all = (all.0, All-take P n gs all.1)

pub keep_if-IsOrdered :
    (c : Collation) (p : Entry → Bool) (gs : List Entry)
    → IsOrdered c gs
    → IsOrdered c (keep_if p gs)
keep_if-IsOrdered c p [] o = tt
keep_if-IsOrdered c p (g ∷ gs) o = elim (Bool-cases (p g)) [
  | inl y ↦ rw y (All-keep_if _ p gs o.0, keep_if-IsOrdered c p gs o.1)
  | inr n ↦ rw n (keep_if-IsOrdered c p gs o.1)
]

pub take-IsOrdered :
    (c : Collation) (n : ℕ) (gs : List Entry) → IsOrdered c gs → IsOrdered c (take n gs)
take-IsOrdered c zero gs o = tt
take-IsOrdered c (suc n) [] o = tt
take-IsOrdered c (suc n) (g ∷ gs) o = (All-take _ n gs o.0, take-IsOrdered c n gs o.1)

pub length-take-le : (n : ℕ) (gs : List Entry) → length (take n gs) ≤ n
length-take-le zero gs = omega arith
length-take-le (suc n) [] = omega arith
length-take-le (suc n) (g ∷ gs) = omega (arith, length-take-le n gs)

pub take-all : (n : ℕ) (gs : List Entry) → length gs ≤ n → take n gs ≡ gs
take-all zero [] h = refl
take-all zero (g ∷ gs) h = absurd (omega (arith, h))
take-all (suc n) [] h = refl
take-all (suc n) (g ∷ gs) h = ap (λ t. g ∷ t) (take-all n gs (omega (arith, h)))

-- The rows of a name that is not blank are not passed over.
pub named-keep_if :
    (n : Text) (gs : List Entry)
    → is_empty n ≡ false
    → named n (keep_if (λ e. not (is_empty e.name)) gs) ≡ named n gs
named-keep_if n [] h = refl
named-keep_if n (g ∷ gs) h = elim (Bool-cases (is_empty g.name)) [
  | inr e ↦ ground (arith, e, named-keep_if n gs h)
  | inl e ↦
      let other : text_eq g.name n ≡ false =
        ground (arith, text_eq_iff g.name n, λ (q : g.name ≡ n). sym h ∙ ap is_empty (sym q) ∙ e) in
      ground (arith, e, other, named-keep_if n gs h)
]
