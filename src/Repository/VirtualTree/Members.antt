-- ===== src/Repository/VirtualTree/Members.antt =====
-- internal/repository/binary_file_virtual.go: the records that a name below a directory stands for, said
-- of their paths alone, and the row that the query makes of them.
pub mod Rows
use omni_blob.Base.{
  ℕ, zero, suc, ◌+◌, ◌-◌, ◌*◌, ◌/◌, ◌%◌, ◌^◌, ◌≤◌, ◌<◌, String, ◌≡◌, refl, sym, ap, ◌∙◌, fun_ext,
  ◌≢◌, ◌↔◌, ◌⊎◌, inl, inr, Bool, true, false, ◌&&◌, ◌||◌, not, Option, none, some, List, [], ◌∷◌,
  ◌++◌, map, reverse, arith, ltb, leb, ◌==◌, if◌then◌else◌, ltb→lt, lt→ltb, leb→le, ==_iff, tests,
  Bool-cases, Option-cases, length, length-append, take, keep_if, any_of, all_of, head_of, All, Any,
  length-keep_if-le, keep_if-append, All-append, Text, codes, text_eq, text_eq_iff, text_eq_refl,
  text_eq-common, is_empty, or_else, has_prefix, has_prefix-append, has_prefix-common,
  has_prefix_self, has_prefix-map, trim_prefix, has_byte, contains, has_byte-append, drop_while,
  trim_if, is_space, trim_space, lower_byte, to_lower, cons_head, split_on, first_piece, cons_cut,
  cut, digits_fuel, decimal, decimal-digits, decimal-given, contains_text, Assoc, lookup, insert,
  delete, lookup-insert, lookup-delete, delete-insert, is_digit, digits_value, digits_value-decimal,
  ℤ, negate, is_positive, magnitude, signed_within, atoi, pos, negsuc,
}
use omni_blob.FilePath.{slash}
use omni_blob.Entity.{BinaryFile, VirtualNode}
use omni_blob.Repository.BinaryFiles.{Files}
use omni_blob.Repository.VirtualTree.{Entry, entry_at}

-- What follows the text `p` in another one that begins with it.
abbrev pub after : Text → Text → Option Text
after [] s = some s
after (c ∷ p) [] = none
after (c ∷ p) (d ∷ s) = if d == c then after p s else none

abbrev pub not_blank : Option Text → Option Text
not_blank none = none
not_blank (some []) = none
not_blank (some (c ∷ s)) = some (c ∷ s)

-- What of a path is below a directory: the part after the directory's path, where there is one. Below
-- the root, whose path is empty, it is the path without its leading slashes.
abbrev pub part_below : Text → Text → Option Text
part_below [] [] = none
part_below [] (c ∷ path) = some (drop_while (λ c. c == slash) (c ∷ path))
part_below (c ∷ p) path = not_blank (after (c ∷ p) path)

-- The path goes further down than the name: the name and a slash come first.
abbrev pub goes_deeper : Text → Text → Bool
goes_deeper n part = has_prefix part (n ++ slash ∷ [])

-- The first component of the path is the name.
abbrev pub is_at : Text → Text → Bool
is_at n part = text_eq part n || goes_deeper n part

abbrev pub part_is : (Text → Bool) → Option Text → Bool
part_is q none = false
part_is q (some part) = q part

-- The records whose path continues the directory's path with the name.
abbrev pub members : Text → Text → Files → Files
members p n t = keep_if (λ f. part_is (is_at n) (part_below p f.path)) t

abbrev pub total_size : Files → ℕ
total_size [] = 0
total_size (f ∷ fs) = f.size + total_size fs

abbrev pub latest : Files → ℕ
latest [] = 0
latest (f ∷ fs) = if leb f.create_date (latest fs) then latest fs else f.create_date

abbrev pub node_for : Text → Text → Files → Option VirtualNode
node_for p n [] = none
node_for p n (f ∷ fs) = some record {
  name = n;
  path = p ++ n;
  is_directory = any_of (λ g. part_is (goes_deeper n) (part_below p g.path)) (f ∷ fs);
  size = total_size (f ∷ fs);
  modified_time = latest (f ∷ fs);
}

-- The node for a name below a directory: it is a directory if a record goes further down, its size is
-- the sum of the sizes, and its time the latest date; `none` where no record has the name.
abbrev pub node_at : Text → Text → Files → Option VirtualNode
node_at p n t = node_for p n (members p n t)

abbrev pub row_for : Text → Text → Files → Option Entry
row_for p n [] = none
row_for p n (f ∷ fs) = some record {
  name = n;
  is_directory = any_of (λ g. part_is (goes_deeper n) (part_below p g.path)) (f ∷ fs);
  size = total_size (f ∷ fs);
  modified = latest (f ∷ fs);
}

abbrev pub with_part : Option Text → BinaryFile → List Entry → List Entry
with_part none f es = es
with_part (some part) f es = entry_at part f ∷ es

-- The records below a directory, each with its component of the path there.
abbrev pub records_below : Text → Files → List Entry
records_below p [] = []
records_below p (f ∷ fs) = with_part (part_below p f.path) f (records_below p fs)

-- The nodes that there are for a name.
abbrev pub node_list : Option VirtualNode → List VirtualNode
node_list none = []
node_list (some v) = v ∷ []
