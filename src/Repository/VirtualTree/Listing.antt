-- ===== src/Repository/VirtualTree/Listing.antt =====
-- internal/repository/binary_file_virtual.go: which nodes a directory has.
use omni_blob.Base.{
  ℕ, suc, ◌≤◌, ◌≡◌, refl, sym, ap, ◌∙◌, ◌⊎◌, inl, inr, Bool, true, false, not, Option, none, some,
  List, [], ◌∷◌, map, arith, Bool-cases, length, take, keep_if, All, length-keep_if-le, Text,
  text_eq, is_empty, has_byte,
}
use omni_blob.FilePath.{slash}
use omni_blob.Entity.{VirtualNode}
use omni_blob.Repository.BinaryFiles.{Files}
use omni_blob.Repository.VirtualTree.{
  Entry, Collation, before, select_root, select_below, group_entries, order_entries, node_limit,
  node_of, selected, clean_prefix, get_virtual_directory,
}
use omni_blob.Repository.VirtualTree.Like.{is_plain, like-plain}
use omni_blob.Repository.VirtualTree.Groups.{summary, to_list, named, named-group_entries}
use omni_blob.Repository.VirtualTree.Ordering.{
  IsOrdered, keep_if-order_entries, length-order_entries, order_entries-IsOrdered,
  All-order_entries,
}
use omni_blob.Repository.VirtualTree.Summaries.{IsSummary, group_entries-IsSummary}
use omni_blob.Repository.VirtualTree.Members.{records_below, node_at, node_list}
use omni_blob.Repository.VirtualTree.Members.Rows.{
  part_below-drop, summary-node_at, node_list-node_at,
}
use omni_blob.Repository.VirtualTree.Selection.{
  All-keep_if, All-take, keep_if-IsOrdered, take-IsOrdered, length-take-le, take-all, named-keep_if,
}

select_root-below : (t : Files) → select_root t ≡ records_below [] t
unfolding select_root
select_root-below [] = refl
select_root-below (f ∷ t) = ground (arith, select_root-below t)

select_below-below :
    (c : ℕ) (p : Text) (t : Files)
    → is_plain (c ∷ p) ≡ true
    → select_below (c ∷ p) t ≡ records_below (c ∷ p) t
unfolding select_below
select_below-below c p [] h = refl
select_below-below c p (f ∷ t) h =
    rw (like-plain (c ∷ p) f.path h, select_below-below c p t h, part_below-drop c p f.path)
      (ground arith)

selected-below : (p : Text) (t : Files) → is_plain p ≡ true → selected p t ≡ records_below p t
selected-below [] t h = select_root-below t
selected-below (c ∷ p) t h = select_below-below c p t h

abbrev has_name : Entry → Bool
has_name e = not (is_empty e.name)

-- The listed rows, before they become nodes.
abbrev listed : Collation → List Entry → List Entry
listed c es = keep_if has_name (take node_limit (order_entries c (group_entries es)))

-- A node comes before another one: it is a directory and the other is none, or both are the same and
-- the database orders the names so.
abbrev ComesFirst : Collation → VirtualNode → VirtualNode → Type 0
ComesFirst c v w =
    ((v.is_directory ≡ true) × (w.is_directory ≡ false))
    ⊎ ((v.is_directory ≡ w.is_directory) × (c.le v.name w.name ≡ true))

abbrev IsListed : Collation → List VirtualNode → Type 0
IsListed c [] = Unit
IsListed c (v ∷ vs) = All (ComesFirst c v) vs × IsListed c vs

-- The nodes of a directory stand in order, are at most 5000, and none has a blank name; each of them is
-- the node for its name.
abbrev pub Listing : Collation → Text → Files → List VirtualNode → Type 0
Listing c p t vs =
    IsListed c vs
    × (length vs ≤ node_limit)
    × All (λ v. is_empty v.name ≡ false) vs
    × All (λ v. node_at p v.name t ≡ some v) vs

listed-le : (c : Collation) (es : List Entry) → length (listed c es) ≤ node_limit
listed-le c es =
    let ordered = order_entries c (group_entries es) in
    omega (
      arith,
      length-keep_if-le has_name (take node_limit ordered),
      length-take-le node_limit ordered,
    )

before-ComesFirst :
    (c : Collation) (p : Text) (a b : Entry)
    → before c a b ≡ true
    → ComesFirst c (node_of p a) (node_of p b)
before-ComesFirst c p a b h = elim (Bool-cases a.is_directory) [
  | inl d ↦ elim (Bool-cases b.is_directory) [
    | inl e ↦ inr (d ∙ sym e, ground (arith, d, e, h))
    | inr e ↦ inl (d, e)
  ]
  | inr d ↦ inr (ground (arith, d, h), ground (arith, d, h))
]

All-nodes :
    (p : Text) (P : Entry → Type 0) (Q : VirtualNode → Type 0) (gs : List Entry)
    → ((g : Entry) → P g → Q (node_of p g))
    → All P gs
    → All Q (map (node_of p) gs)
All-nodes p P Q [] f all = tt
All-nodes p P Q (g ∷ gs) f all = (f g all.0, All-nodes p P Q gs f all.1)

IsOrdered-IsListed :
    (c : Collation) (p : Text) (gs : List Entry) → IsOrdered c gs → IsListed c (map (node_of p) gs)
IsOrdered-IsListed c p [] o = tt
IsOrdered-IsListed c p (g ∷ gs) o = (
  All-nodes p (λ h. before c g h ≡ true) (ComesFirst c (node_of p g)) gs (before-ComesFirst c p g)
      o.0,
  IsOrdered-IsListed c p gs o.1,
)

length-nodes : (p : Text) (gs : List Entry) → length (map (node_of p) gs) ≡ length gs
length-nodes p [] = refl
length-nodes p (g ∷ gs) = ap suc (length-nodes p gs)

kept-All : (q : Entry → Bool) (gs : List Entry) → All (λ g. q g ≡ true) (keep_if q gs)
kept-All q [] = tt
kept-All q (g ∷ gs) = elim (Bool-cases (q g)) [
  | inl y ↦ rw y (y, kept-All q gs)
  | inr n ↦ rw n (kept-All q gs)
]

listed-Listing :
    (c : Collation) (p : Text) (t : Files)
    → Listing c p t (map (node_of p) (listed c (records_below p t)))
listed-Listing c p t =
    let es = records_below p t in
    let rows = group_entries es in
    let ordered = order_entries c rows in
    let kept = listed c es in
    (
      IsOrdered-IsListed c p kept (
          keep_if-IsOrdered c has_name (take node_limit ordered)
            (take-IsOrdered c node_limit ordered (order_entries-IsOrdered c rows))),
      rw (length-nodes p kept) (listed-le c es),
      All-nodes p (λ g. has_name g ≡ true) (λ v. is_empty v.name ≡ false) kept
          (λ g e. ground (arith, e)) (kept-All has_name (take node_limit ordered)),
      All-nodes p (IsSummary es) (λ v. node_at p v.name t ≡ some v) kept
          (λ g e. summary-node_at p g.name t g e)
          (All-keep_if (IsSummary es) has_name (take node_limit ordered) (
            All-take (IsSummary es) node_limit ordered
              (All-order_entries c (IsSummary es) rows (group_entries-IsSummary es)))),
    )

-- The nodes that the query gives, where it is answered.
abbrev pub nodes_of : Option (List VirtualNode) → List VirtualNode
nodes_of none = []
nodes_of (some vs) = vs

-- For a directory whose path has no wildcard, the nodes are at most 5000, with directories first and
-- then by name, none with a blank name, and each of them stands for exactly those records whose path
-- continues the directory's path with its name, either to the end or to a slash: its path is the
-- directory's with the name, it is a directory if and only if one of the records goes further down, its
-- size is the sum of theirs, and its time the latest of their dates.
pub get_virtual_directory-Listing :
    (c : Collation) (prefix : Text) (t : Files)
    → is_plain (clean_prefix prefix) ≡ true
    → Listing c (clean_prefix prefix) t (nodes_of (get_virtual_directory c true prefix t))
unfolding get_virtual_directory
get_virtual_directory-Listing c prefix t h =
    rw (selected-below (clean_prefix prefix) t h) (listed-Listing c (clean_prefix prefix) t)

nodes_named :
    (p n : Text) (gs : List Entry)
    → keep_if (λ v. text_eq v.name n) (map (node_of p) gs) ≡ map (node_of p) (named n gs)
nodes_named p n [] = refl
nodes_named p n (g ∷ gs) = ground (arith, nodes_named p n gs)

named-listed :
    (c : Collation) (n : Text) (es : List Entry)
    → is_empty n ≡ false
    → length (group_entries es) ≤ node_limit
    → named n (listed c es) ≡ to_list (summary n es)
named-listed c n es h l =
    let rows = group_entries es in
    let ordered = order_entries c rows in
    named-keep_if n (take node_limit ordered) h
    ∙ ap (named n) (take-all node_limit ordered (rw (length-order_entries c rows) l))
    ∙ keep_if-order_entries c (λ g. text_eq g.name n) rows (summary n es) (named-group_entries n es)

-- For a directory whose path has no wildcard and that has at most 5000 names, a name that is not blank
-- and has no slash is listed exactly once, with the node for the records whose path continues the
-- directory's path with it, if there is such a record, and else not at all.
pub get_virtual_directory_complete :
    (c : Collation) (prefix n : Text) (t : Files)
    → is_plain (clean_prefix prefix) ≡ true
    → is_empty n ≡ false
    → has_byte slash n ≡ false
    → length (group_entries (records_below (clean_prefix prefix) t)) ≤ node_limit
    → keep_if (λ v. text_eq v.name n) (nodes_of (get_virtual_directory c true prefix t))
      ≡ node_list (node_at (clean_prefix prefix) n t)
unfolding get_virtual_directory
get_virtual_directory_complete c prefix n t h k s l =
    let p = clean_prefix prefix in
    rw (selected-below p t h) (
      nodes_named p n (listed c (records_below p t))
      ∙ ap (map (node_of p)) (named-listed c n (records_below p t) k l)
      ∙ node_list-node_at p n t s)
