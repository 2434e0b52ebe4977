-- ===== src/Repository/VirtualTree/Summaries.antt =====
-- internal/repository/binary_file_virtual.go: each row of the grouping stands for the rows of its name.
use omni_blob.Base.{
  ◌≡◌, refl, ap, ◌∙◌, inl, inr, Bool, true, Option, none, some, List, [], ◌∷◌, Bool-cases, keep_if,
  All, Any, text_eq, text_eq_refl,
}
use omni_blob.Repository.VirtualTree.{Entry, group_entries}
use omni_blob.Repository.VirtualTree.Groups.{summary, to_list, named-group_entries}

Has : Entry → List Entry → Type 0
Has g gs = Any (λ x. x ≡ g) gs

All-Has :
    (gs whole : List Entry) → ((g : Entry) → Has g gs → Has g whole) → All (λ g. Has g whole) gs
unfolding Has
All-Has [] whole f = tt
All-Has (g ∷ gs) whole f = (f g (inl refl), All-Has gs whole (λ x m. f x (inr m)))

Has-keep_if :
    (p : Entry → Bool) (g : Entry) (gs : List Entry) → p g ≡ true → Has g gs → Has g (keep_if p gs)
unfolding Has
Has-keep_if p g [] h m = elim m [ ]
Has-keep_if p g (x ∷ gs) h (inl e) = rw (ap p e ∙ h) (inl e)
Has-keep_if p g (x ∷ gs) h (inr m) = elim (Bool-cases (p x)) [
  | inl y ↦ rw y (inr (Has-keep_if p g gs h m))
  | inr n ↦ rw n (Has-keep_if p g gs h m)
]

Has-to_list : (o : Option Entry) (g : Entry) → Has g (to_list o) → o ≡ some g
unfolding Has
Has-to_list none g m = absurd m
Has-to_list (some x) g (inl e) = ap some e
Has-to_list (some x) g (inr m) = absurd m

-- A row of the grouping stands for all the rows of its name.
abbrev pub IsSummary : List Entry → Entry → Type 0
IsSummary es g = summary g.name es ≡ some g

Has-IsSummary : (es : List Entry) (g : Entry) → Has g (group_entries es) → IsSummary es g
Has-IsSummary es g m = Has-to_list (summary g.name es) g (
    rw⁻¹ (named-group_entries g.name es)
      (Has-keep_if (λ x. text_eq x.name g.name) g (group_entries es) (text_eq_refl g.name) m))

pub All-weaken :
    {A B : Entry → Type 0} (gs : List Entry) → ((g : Entry) → A g → B g) → All A gs → All B gs
All-weaken [] f all = tt
All-weaken (g ∷ gs) f all = (f g all.0, All-weaken gs f all.1)

pub group_entries-IsSummary : (es : List Entry) → All (IsSummary es) (group_entries es)
group_entries-IsSummary es =
    All-weaken (group_entries es) (Has-IsSummary es)
      (All-Has (group_entries es) (group_entries es) (λ g m. m))
