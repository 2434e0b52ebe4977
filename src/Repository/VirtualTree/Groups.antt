-- ===== src/Repository/VirtualTree/Groups.antt =====
-- internal/repository/binary_file_virtual.go: what GROUP BY makes of the rows.
use omni_blob.Base.{
  ◌≡◌, refl, Option, none, some, List, [], ◌∷◌, arith, if◌then◌else◌, keep_if, Text, text_eq,
  text_eq_iff,
}
use omni_blob.Repository.VirtualTree.{Entry, merge, add_entry, group_entries}

abbrev pub joined : Entry → Option Entry → Entry
joined e none = e
joined e (some g) = merge g e

-- All the rows of one name in one: whether one of them is below a directory, the sum of the sizes,
-- and the latest date; `none` where no row has the name.
abbrev pub summary : Text → List Entry → Option Entry
summary n [] = none
summary n (e ∷ es) = if text_eq e.name n then some (joined e (summary n es)) else summary n es

abbrev pub to_list : Option Entry → List Entry
to_list none = []
to_list (some g) = g ∷ []

abbrev pub named : Text → List Entry → List Entry
named n gs = keep_if (λ g. text_eq g.name n) gs

named-add_entry :
    (e : Entry) (n : Text) (gs : List Entry) (o : Option Entry)
    → named n gs ≡ to_list o
    → named n (add_entry e gs) ≡ to_list (if text_eq e.name n then some (joined e o) else o)
unfolding add_entry
named-add_entry e n [] none h = ground arith
named-add_entry e n [] (some g) h = absurd (cc h)
named-add_entry e n (g ∷ gs) none h = ground (
  arith,
  h,
  text_eq_iff g.name e.name,
  text_eq_iff e.name n,
  text_eq_iff g.name n,
  named-add_entry e n gs none,
)
named-add_entry e n (g ∷ gs) (some x) h = ground (
  arith,
  h,
  text_eq_iff g.name e.name,
  text_eq_iff e.name n,
  text_eq_iff g.name n,
  named-add_entry e n gs none,
  named-add_entry e n gs (some x),
)

-- Grouping leaves exactly one row for each name that a row has.
pub named-group_entries :
    (n : Text) (es : List Entry) → named n (group_entries es) ≡ to_list (summary n es)
unfolding group_entries
named-group_entries n [] = refl
named-group_entries n (e ∷ es) =
    named-add_entry e n (group_entries es) (summary n es) (named-group_entries n es)
