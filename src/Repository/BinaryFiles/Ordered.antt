-- ===== src/Repository/BinaryFiles/Ordered.antt =====
-- internal/repository/binary_file_repository.go: the pending rows in the order of their identifiers.
use omni_blob.Base.{
  Any, ◌↔◌, ◌⊎◌, Bool, if◌then◌else◌, All, ap, ℕ, zero, suc, ◌≤◌, ◌<◌, ◌≡◌, refl, sym, ◌∙◌, inl,
  inr, true, List, [], ◌∷◌, arith, ltb, leb, ◌==◌, leb→le, Bool-cases, length, take, keep_if,
}
use omni_blob.Entity.{BinaryFile}
use omni_blob.Repository.BinaryFiles.{Files, insert_by_id, order_by_id}

-- The rows stand in the order of their identifiers, from `n` on.
pub Ascends : ℕ → Files → Type 0
Ascends n [] = Unit
Ascends n (f ∷ fs) = (n ≤ f.bin_id) × Ascends f.bin_id fs

insert_by_id-Ascends :
    (n : ℕ) (f : BinaryFile) (fs : Files)
    → n ≤ f.bin_id
    → Ascends n fs
    → Ascends n (insert_by_id f fs)
unfolding insert_by_id Ascends
insert_by_id-Ascends n f [] h a = (h, tt)
insert_by_id-Ascends n f (g ∷ gs) h (k, a) = elim (Bool-cases (leb f.bin_id g.bin_id)) [
  | inl e ↦ rw (e) (h, (leb→le f.bin_id g.bin_id e, a))
  | inr e ↦ rw (e) (k, insert_by_id-Ascends g.bin_id f gs (ground (arith, e)) a)
]

pub order_by_id-Ascends : (fs : Files) → Ascends 0 (order_by_id fs)
unfolding order_by_id Ascends
order_by_id-Ascends [] = tt
order_by_id-Ascends (f ∷ fs) =
    insert_by_id-Ascends 0 f (order_by_id fs) (omega arith) (order_by_id-Ascends fs)

pub take-Ascends : (k n : ℕ) (fs : Files) → Ascends n fs → Ascends n (take k fs)
unfolding Ascends
take-Ascends zero n fs a = tt
take-Ascends (suc k) n [] a = tt
take-Ascends (suc k) n (f ∷ fs) (h, a) = (h, take-Ascends k f.bin_id fs a)

-- How often a row of the identifier `n` stands in the table.
unfoldable pub count : ℕ → Files → ℕ
count n [] = 0
count n (f ∷ fs) = if f.bin_id == n then suc (count n fs) else count n fs

count-insert_by_id :
    (n : ℕ) (f : BinaryFile) (fs : Files) → count n (insert_by_id f fs) ≡ count n (f ∷ fs)
unfolding insert_by_id count
count-insert_by_id n f [] = refl
count-insert_by_id n f (g ∷ gs) = ground (arith, count-insert_by_id n f gs)

count-order_by_id : (n : ℕ) (fs : Files) → count n (order_by_id fs) ≡ count n fs
unfolding order_by_id count
count-order_by_id n [] = refl
count-order_by_id n (f ∷ fs) =
    count-insert_by_id n f (order_by_id fs) ∙ ground (arith, count-order_by_id n fs)

count-pending :
    (n last : ℕ) (fs : Files)
    → count n (keep_if (λ f. ltb last f.bin_id) fs) ≡ (if ltb last n then count n fs else 0)
unfolding count
count-pending n last [] = ground arith
count-pending n last (f ∷ fs) = ground (arith, count-pending n last fs)

abbrev pub pending : ℕ → Files → Files
pending last t = order_by_id (keep_if (λ f. ltb last f.bin_id) t)

count-take-le : (k n : ℕ) (fs : Files) → count n (take k fs) ≤ count n fs
unfolding count
count-take-le zero n fs = omega arith
count-take-le (suc k) n [] = omega arith
count-take-le (suc k) n (f ∷ fs) = ground (arith, count-take-le k n fs)

pub count-page : (k n last : ℕ) (t : Files) → count n (take k (pending last t)) ≤ count n t
count-page k n last t = ground (
  arith,
  count-take-le k n (pending last t),
  count-order_by_id n (keep_if (λ f. ltb last f.bin_id) t),
  count-pending n last t,
)

pub count-pending-before :
    (k n last : ℕ) (t : Files) → n ≤ last → count n (take k (pending last t)) ≡ 0
count-pending-before k n last t h = ground (
  arith,
  count-take-le k n (pending last t),
  count-order_by_id n (keep_if (λ f. ltb last f.bin_id) t),
  count-pending n last t,
)

pub count-pending-after : (n last : ℕ) (t : Files) → last < n → count n (pending last t) ≡ count n t
count-pending-after n last t h =
    ground (arith, count-order_by_id n (keep_if (λ f. ltb last f.bin_id) t), count-pending n last t)

-- The row stands in the table.
abbrev pub Stands : BinaryFile → Files → Type 0
Stands f = Any (λ g. g ≡ f)

pub Stands-All :
    (P : BinaryFile → Type 0) (t : Files) → ((f : BinaryFile) → Stands f t → P f) → All P t
Stands-All P [] h = tt
Stands-All P (f ∷ t) h = (h f (inl refl), Stands-All P t (λ g m. h g (inr m)))

Stands-insert_by_id :
    (f x : BinaryFile) (fs : Files) → Stands f (insert_by_id x fs) ↔ Stands f (x ∷ fs)
unfolding insert_by_id
Stands-insert_by_id f x [] = (λ m. m, λ m. m)
Stands-insert_by_id f x (g ∷ gs) = elim (Bool-cases (leb x.bin_id g.bin_id)) [
  | inl e ↦ rw e (λ m. m, λ m. m)
  | inr e ↦
      let (there, back) = Stands-insert_by_id f x gs in
      rw e (
        λ m. elim m [
          | inl h ↦ inr (inl h)
          | inr k ↦ elim (there k) [ inl h ↦ inl h | inr l ↦ inr (inr l) ]
        ],
        λ m. elim m [
          | inl h ↦ inr (back (inl h))
          | inr k ↦ elim k [ inl h ↦ inl h | inr l ↦ inr (back (inr l)) ]
        ],
      )
]

pub Stands-order_by_id : (f : BinaryFile) (fs : Files) → Stands f (order_by_id fs) ↔ Stands f fs
unfolding order_by_id
Stands-order_by_id f [] = (λ m. m, λ m. m)
Stands-order_by_id f (x ∷ fs) =
    let (there, back) = Stands-order_by_id f fs in
    let (out, into) = Stands-insert_by_id f x (order_by_id fs) in
    (
      λ m. elim (out m) [ inl h ↦ inl h | inr k ↦ inr (there k) ],
      λ m. into (elim m [ inl h ↦ inl h | inr k ↦ inr (back k) ]),
    )

pub Stands-keep_if :
    (p : BinaryFile → Bool) (f : BinaryFile) (fs : Files)
    → Stands f (keep_if p fs) ↔ (Stands f fs × (p f ≡ true))
Stands-keep_if p f [] = (λ m. absurd m, λ m. absurd m.0)
Stands-keep_if p f (x ∷ fs) =
    let (there, back) = Stands-keep_if p f fs in
    elim (Bool-cases (p x)) [
      | inl e ↦ rw e (
        λ m. elim m [ inl h ↦ (inl h, ap p (sym h) ∙ e) | inr k ↦ (inr (there k).0, (there k).1) ],
        λ m. elim m.0 [ inl h ↦ inl h | inr k ↦ inr (back (k, m.1)) ],
      )
      | inr e ↦ rw e (
        λ m. (inr (there m).0, (there m).1),
        λ m. elim m.0 [ inl h ↦ absurd (ground (arith, e, m.1, ap p h)) | inr k ↦ back (k, m.1) ],
      )
    ]

pub Stands-take : (k : ℕ) (f : BinaryFile) (fs : Files) → Stands f (take k fs) → Stands f fs
Stands-take zero f fs m = absurd m
Stands-take (suc k) f [] m = m
Stands-take (suc k) f (x ∷ fs) (inl h) = inl h
Stands-take (suc k) f (x ∷ fs) (inr m) = inr (Stands-take k f fs m)

Ascends-Stands : (n : ℕ) (f : BinaryFile) (fs : Files) → Ascends n fs → Stands f fs → n ≤ f.bin_id
unfolding Ascends
Ascends-Stands n f [] a m = absurd m
Ascends-Stands n f (x ∷ fs) (h, a) (inl e) = ground (arith, h, ap (λ g. g.bin_id) e)
Ascends-Stands n f (x ∷ fs) (h, a) (inr m) =
    let k = Ascends-Stands x.bin_id f fs a m in omega (arith, h, k)

-- A row that the first rows leave out comes after all of them.
pub taken_or_after :
    (k n : ℕ) (f : BinaryFile) (fs : Files)
    → Ascends n fs
    → Stands f fs
    → Stands f (take k fs) ⊎ All (λ g. g.bin_id ≤ f.bin_id) (take k fs)
unfolding Ascends
taken_or_after zero n f fs a m = inr tt
taken_or_after (suc k) n f [] a m = absurd m
taken_or_after (suc k) n f (x ∷ fs) (h, a) (inl e) = inl (inl e)
taken_or_after (suc k) n f (x ∷ fs) (h, a) (inr m) = elim (taken_or_after k x.bin_id f fs a m) [
  | inl t ↦ inl (inr t)
  | inr all ↦ inr (Ascends-Stands x.bin_id f fs a m, all)
]

length-insert_by_id : (x : BinaryFile) (fs : Files) → length (insert_by_id x fs) ≡ suc (length fs)
unfolding insert_by_id
length-insert_by_id x [] = refl
length-insert_by_id x (g ∷ gs) = ground (arith, length-insert_by_id x gs)

pub length-order_by_id : (fs : Files) → length (order_by_id fs) ≡ length fs
unfolding order_by_id
length-order_by_id [] = refl
length-order_by_id (x ∷ fs) =
    length-insert_by_id x (order_by_id fs) ∙ ap suc (length-order_by_id fs)

pub length-take-min :
    {A : Type 0}
    → (k : ℕ) (l : List A) → length (take k l) ≡ (if leb k (length l) then k else length l)
length-take-min zero l = ground arith
length-take-min (suc k) [] = ground arith
length-take-min (suc k) (x ∷ l) = ground (arith, length-take-min k l)
