-- ===== src/Repository/VirtualTree.antt =====
-- internal/repository/binary_file_virtual.go: directories made of the paths of the records, as the
-- query to PostgreSQL groups them. Here a text is its list of characters; the collation by which the
-- database orders names is a parameter, and every row has its date.
pub mod Like
pub mod Groups
pub mod Members
pub mod Ordering
pub mod Summaries
pub mod Selection
pub mod Listing
use omni_blob.Base.{
  ℕ, zero, suc, ◌+◌, ◌-◌, ◌*◌, ◌/◌, ◌%◌, ◌^◌, ◌≤◌, ◌<◌, String, ◌≡◌, refl, sym, ap, ◌∙◌, fun_ext,
  ◌≢◌, ◌↔◌, ◌⊎◌, inl, inr, Bool, true, false, ◌&&◌, ◌||◌, not, Option, none, some, List, [], ◌∷◌,
  ◌++◌, map, reverse, arith, ltb, leb, ◌==◌, if◌then◌else◌, ltb→lt, lt→ltb, leb→le, ==_iff, tests,
  Bool-cases, Option-cases, length, length-append, take, keep_if, any_of, all_of, head_of, All, Any,
  length-keep_if-le, keep_if-append, All-append, Text, codes, text_eq, text_eq_iff, text_eq_refl,
  text_eq-common, is_empty, or_else, has_prefix, has_prefix-append, has_prefix-common,
  has_prefix_self, has_prefix-map, trim_prefix, has_byte, contains, has_byte-append, drop_while,
  trim_if, is_space, trim_space, lower_byte, to_lower, cons_head, split_on, first_piece, cons_cut,
  cut, digits_fuel, decimal, decimal-digits, decimal-given, contains_text, Assoc, lookup, insert,
  delete, lookup-insert, lookup-delete, delete-insert, is_digit, digits_value, digits_value-decimal,
  ℤ, negate, is_positive, magnitude, signed_within, atoi, pos, negsuc,
}
use omni_blob.FilePath.{slash}
use omni_blob.Entity.{BinaryFile, VirtualNode}
use omni_blob.Repository.BinaryFiles.{Files}

pub record Collation : Type 0 where
  pub le : Text → Text → Bool
  pub le_total : (a b : Text) → le a b ≡ false → le b a ≡ true
  pub le_trans : (a b c : Text) → le a b ≡ true → le b c ≡ true → le a c ≡ true

-- A directory's path ends with a slash and does not begin with one.
unfoldable pub clean_prefix : Text → Text
clean_prefix prefix =
    let p = trim_prefix prefix (slash ∷ []) in
    if not (is_empty p) && not (has_prefix (reverse p) (slash ∷ [])) then p ++ slash ∷ [] else p

-- A pattern of LIKE: `_` is one character, `%` any run, and a backslash takes the next one literally.
pub data Token : Type 0 where
  one_char any_run : Token
  literal : ℕ → Token

abbrev pub token : ℕ → Token
token c = if c == b'_' then one_char else if c == b'%' then any_run else literal c

unfoldable pub tokens : Bool → Text → List Token
tokens escaped [] = []
tokens true (c ∷ s) = literal c ∷ tokens false s
tokens false (c ∷ s) =
    let rest = tokens true s in
    let next = token c ∷ tokens false s in if c == b'\\' then rest else next

abbrev pub suffixes : Text → List Text
suffixes [] = [] ∷ []
suffixes (c ∷ s) = (c ∷ s) ∷ suffixes s

unfoldable pub matches : List Token → Text → Bool
matches [] s = is_empty s
matches (one_char ∷ ts) [] = false
matches (one_char ∷ ts) (c ∷ s) = matches ts s
matches (literal d ∷ ts) [] = false
matches (literal d ∷ ts) (c ∷ s) = (c == d) && matches ts s
matches (any_run ∷ ts) s = any_of (matches ts) (suffixes s)

unfoldable pub like : Text → Text → Bool
unfolding tokens matches
like s pattern_text = matches (tokens false pattern_text) s

-- substring(path from length(prefix) + 1)
abbrev pub drop : ℕ → Text → Text
drop zero s = s
drop (suc n) [] = []
drop (suc n) (c ∷ s) = drop n s

-- A row of the query, before or after the grouping.
pub record Entry : Type 0 where
  pub name : Text
  pub is_directory : Bool
  pub size : ℕ
  pub modified : ℕ

-- split_part(rest, '/', 1), and whether there is a slash.
unfoldable pub entry_at : Text → BinaryFile → Entry
entry_at rest f = record {
  name = first_piece (split_on slash rest);
  is_directory = has_byte slash rest;
  size = f.size;
  modified = f.create_date;
}

-- The rows that the conditions select.
unfoldable pub select_root : Files → List Entry
unfolding entry_at
select_root [] = []
select_root (f ∷ fs) =
    let rest = select_root fs in
    if is_empty f.path then rest else entry_at (drop_while (λ c. c == slash) f.path) f ∷ rest

unfoldable pub select_below : Text → Files → List Entry
unfolding entry_at like
select_below p [] = []
select_below p (f ∷ fs) =
    let rest = select_below p fs in
    if like f.path (p ++ b'%' ∷ []) && ltb (length p) (length f.path)
    then entry_at (drop (length p) f.path) f ∷ rest
    else rest

abbrev pub max_of : ℕ → ℕ → ℕ
max_of a b = if ltb a b then b else a

-- BOOL_OR, SUM and MAX of two rows of one group.
abbrev pub merge : Entry → Entry → Entry
merge g e = record {
  name = g.name;
  is_directory = g.is_directory || e.is_directory;
  size = g.size + e.size;
  modified = max_of g.modified e.modified;
}

-- GROUP BY node_name
unfoldable pub add_entry : Entry → List Entry → List Entry
add_entry e [] = e ∷ []
add_entry e (g ∷ gs) = if text_eq g.name e.name then merge g e ∷ gs else g ∷ add_entry e gs

unfoldable pub group_entries : List Entry → List Entry
unfolding add_entry
group_entries [] = []
group_entries (e ∷ es) = add_entry e (group_entries es)

-- ORDER BY is_directory DESC, node_name ASC
abbrev pub before : Collation → Entry → Entry → Bool
before c a b =
    if a.is_directory
    then (if b.is_directory then c.le a.name b.name else true)
    else (if b.is_directory then false else c.le a.name b.name)

unfoldable pub insert_ordered : Collation → Entry → List Entry → List Entry
insert_ordered c e [] = e ∷ []
insert_ordered c e (g ∷ gs) = if before c e g then e ∷ g ∷ gs else g ∷ insert_ordered c e gs

unfoldable pub order_entries : Collation → List Entry → List Entry
unfolding insert_ordered
order_entries c [] = []
order_entries c (e ∷ es) = insert_ordered c e (order_entries c es)

abbrev pub node_limit : ℕ
node_limit = 5000

abbrev pub node_of : Text → Entry → VirtualNode
node_of p e = record {
  name = e.name;
  path = p ++ e.name;
  is_directory = e.is_directory;
  size = e.size;
  modified_time = e.modified;
}

abbrev pub selected : Text → Files → List Entry
selected [] t = select_root t
selected (c ∷ p) t = select_below (c ∷ p) t

-- GetVirtualDirectory; rows without a name are passed over after the limit.
unfoldable pub get_virtual_directory : Collation → Bool → Text → Files → Option (List VirtualNode)
unfolding clean_prefix select_root select_below group_entries order_entries
get_virtual_directory c up prefix t =
    let p = clean_prefix prefix in
    if up
    then some (
        map (node_of p) (
          keep_if (λ e. not (is_empty e.name))
            (take node_limit (order_entries c (group_entries (selected p t))))))
    else none
