-- ===== src/Repository/VirtualTree/Members/Rows.antt =====
-- internal/repository/binary_file_virtual.go: the grouped rows of a name are the node of its records.
use omni_blob.Base.{
  ℕ, ◌≡◌, refl, sym, ap, ◌∙◌, inl, inr, Bool, true, false, ◌&&◌, Option, none, some, List, [], ◌∷◌,
  map, arith, ltb, if◌then◌else◌, Bool-cases, Option-cases, length, Text, text_eq, text_eq_iff,
  has_prefix, has_byte, cons_head, split_on, first_piece,
}
use omni_blob.FilePath.{slash}
use omni_blob.Entity.{BinaryFile, VirtualNode}
use omni_blob.Repository.BinaryFiles.{Files}
use omni_blob.Repository.VirtualTree.{Entry, drop, entry_at, node_of}
use omni_blob.Repository.VirtualTree.Groups.{joined, summary, to_list}
use omni_blob.Repository.VirtualTree.Members.{
  after, not_blank, part_below, goes_deeper, is_at, members, node_for, node_at, row_for, with_part,
  records_below, node_list,
}

pub part_below-drop :
    (c : ℕ) (p path : Text)
    → part_below (c ∷ p) path ≡ (
        if has_prefix path (c ∷ p) && ltb (length (c ∷ p)) (length path)
        then some (drop (length (c ∷ p)) path)
        else none)
unfolding has_prefix
part_below-drop c p path = go (c ∷ p) path
  where
    go :
        (p s : Text)
        → not_blank (after p s)
          ≡ (if has_prefix s p && ltb (length p) (length s) then some (drop (length p) s) else none)
    go [] [] = refl
    go [] (x ∷ s) = ground arith
    go (c ∷ p) [] = refl
    go (c ∷ p) (d ∷ s) = ground (arith, go p s)

first_piece-cons_head : (c : ℕ) (ws : List Text) → first_piece (cons_head c ws) ≡ c ∷ first_piece ws
first_piece-cons_head c [] = refl
first_piece-cons_head c (w ∷ ws) = refl

-- The first piece of a path is a text without a slash exactly where the path is that text, or goes on
-- after it with a slash.
first_piece-is_at :
    (n part : Text)
    → has_byte slash n ≡ false
    → text_eq (first_piece (split_on slash part)) n ≡ is_at n part
unfolding text_eq has_prefix has_byte split_on
first_piece-is_at [] [] h = refl
first_piece-is_at [] (c ∷ part) h = ground (arith, first_piece-cons_head c (split_on slash part))
first_piece-is_at (x ∷ n) [] h = refl
first_piece-is_at (x ∷ n) (c ∷ part) h =
    ground (arith, h, first_piece-cons_head c (split_on slash part), first_piece-is_at n part)

-- There is a slash in a path with that first piece exactly where it goes on after it.
deeper_slash :
    (n part : Text)
    → has_byte slash n ≡ false
    → is_at n part ≡ true
    → has_byte slash part ≡ goes_deeper n part
unfolding text_eq has_prefix has_byte
deeper_slash [] [] h k = refl
deeper_slash [] (c ∷ part) h k = ground (arith, k)
deeper_slash (x ∷ n) [] h k = absurd (ground (arith, k))
deeper_slash (x ∷ n) (c ∷ part) h k = ground (arith, h, k, deeper_slash n part)

-- A first piece has no slash.
first_piece-has_byte : (part : Text) → has_byte slash (first_piece (split_on slash part)) ≡ false
unfolding has_byte split_on
first_piece-has_byte [] = refl
first_piece-has_byte (c ∷ part) =
    ground (arith, first_piece-cons_head c (split_on slash part), first_piece-has_byte part)

abbrev entry : Text → Bool → ℕ → ℕ → Entry
entry n a x u = record { name = n; is_directory = a; size = x; modified = u }

same_row :
    (n m : Text) (a b : Bool) (x y u v : ℕ)
    → n ≡ m
    → a ≡ b
    → x ≡ y
    → u ≡ v
    → some (entry n a x u) ≡ some (entry m b y v)
same_row n m a b x y u v e f g h = rw (e, f, g, h) refl

-- A record joins the row of the other records of its name.
joined-row_for :
    (p n part : Text) (f : BinaryFile) (ms : Files)
    → part_below p f.path ≡ some part
    → first_piece (split_on slash part) ≡ n
    → has_byte slash part ≡ goes_deeper n part
    → some (joined (entry_at part f) (row_for p n ms)) ≡ row_for p n (f ∷ ms)
unfolding entry_at
joined-row_for p n part f [] e first deep =
    same_row _ _ _ _ _ _ _ _ first (rw e (ground (arith, deep))) (omega arith) (ground arith)
joined-row_for p n part f (g ∷ ms) e first deep =
    same_row _ _ _ _ _ _ _ _ refl (rw e (ground (arith, deep))) (omega arith) (ground arith)

with_part-summary :
    (n : Text) (o : Option Text) (part : Text) (f : BinaryFile) (es : List Entry)
    → o ≡ some part
    → text_eq (first_piece (split_on slash part)) n ≡ true
    → summary n (with_part o f es) ≡ some (joined (entry_at part f) (summary n es))
unfolding entry_at
with_part-summary n o part f es e first = rw (e, first) refl

members-with :
    (p n part : Text) (f : BinaryFile) (t : Files)
    → part_below p f.path ≡ some part
    → is_at n part ≡ true
    → members p n (f ∷ t) ≡ f ∷ members p n t
members-with p n part f t e same = rw (e, same) refl

-- The rows of a name without a slash come to the row of its records.
pub summary-row_for :
    (p n : Text) (t : Files)
    → has_byte slash n ≡ false
    → summary n (records_below p t) ≡ row_for p n (members p n t)
unfolding entry_at
summary-row_for p n [] h = refl
summary-row_for p n (f ∷ t) h =
    let rest = summary-row_for p n t h in
    elim (Option-cases (part_below p f.path)) [
      | inl e ↦ rw e rest
      | inr (part, e) ↦ elim (Bool-cases (is_at n part)) [
        | inr other ↦ rw (e, first_piece-is_at n part h, other) rest
        | inl same ↦
            let first : text_eq (first_piece (split_on slash part)) n ≡ true =
              first_piece-is_at n part h ∙ same in
            let join =
              joined-row_for p n part f (members p n t) e
                ((text_eq_iff (first_piece (split_on slash part)) n).0 first)
                (deeper_slash n part h same) in
            with_part-summary n (part_below p f.path) part f (records_below p t) e first
            ∙ ap (λ x. some (joined (entry_at part f) x)) rest
            ∙ join
            ∙ ap (row_for p n) (sym (members-with p n part f t e same))
      ]
    ]

-- A name that has rows is the first component of a path, so it has no slash.
pub summary-has_byte :
    (p n : Text) (t : Files) (g : Entry)
    → summary n (records_below p t) ≡ some g
    → has_byte slash n ≡ false
unfolding entry_at
summary-has_byte p n [] g e = absurd (ground (arith, e))
summary-has_byte p n (f ∷ t) g e = go (part_below p f.path) (λ k. summary-has_byte p n t g k) e
  where
    go :
        (o : Option Text)
        → (summary n (records_below p t) ≡ some g → has_byte slash n ≡ false)
        → summary n (with_part o f (records_below p t)) ≡ some g
        → has_byte slash n ≡ false
    go none rest k = rest k
    go (some part) rest k = elim (Bool-cases (text_eq (first_piece (split_on slash part)) n)) [
      | inl y ↦
          ap (has_byte slash) (sym ((text_eq_iff (first_piece (split_on slash part)) n).0 y))
          ∙ first_piece-has_byte part
      | inr other ↦ rest (rw other at k)
    ]

abbrev node_in : Text → Option Entry → Option VirtualNode
node_in p none = none
node_in p (some x) = some (node_of p x)

row_for-node_for :
    (p n : Text) (g : Entry) (ms : Files)
    → row_for p n ms ≡ some g
    → node_for p n ms ≡ some (node_of p g)
row_for-node_for p n g [] e = absurd (ground (arith, e))
row_for-node_for p n g (f ∷ ms) e = ap (node_in p) e

node_list-row_for :
    (p n : Text) (ms : Files)
    → map (node_of p) (to_list (row_for p n ms)) ≡ node_list (node_for p n ms)
node_list-row_for p n [] = refl
node_list-row_for p n (f ∷ ms) = refl

pub summary-node_at :
    (p n : Text) (t : Files) (g : Entry)
    → summary n (records_below p t) ≡ some g
    → node_at p n t ≡ some (node_of p g)
summary-node_at p n t g e =
    row_for-node_for p n g (members p n t)
      (sym (summary-row_for p n t (summary-has_byte p n t g e)) ∙ e)

pub node_list-node_at :
    (p n : Text) (t : Files)
    → has_byte slash n ≡ false
    → map (node_of p) (to_list (summary n (records_below p t))) ≡ node_list (node_at p n t)
node_list-node_at p n t h =
    ap (λ o. map (node_of p) (to_list o)) (summary-row_for p n t h)
    ∙ node_list-row_for p n (members p n t)
