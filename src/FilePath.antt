-- ===== src/FilePath.antt =====
-- The functions of Go's path/filepath that the program calls, for Unix: paths are texts with
-- slashes, and ToSlash and FromSlash change nothing.
pub mod Inside
use omni_blob.Base.{
  ℕ, zero, suc, ◌+◌, ◌-◌, ◌*◌, ◌/◌, ◌%◌, ◌^◌, ◌≤◌, ◌<◌, String, ◌≡◌, refl, sym, ap, ◌∙◌, fun_ext,
  ◌≢◌, ◌↔◌, ◌⊎◌, inl, inr, Bool, true, false, ◌&&◌, ◌||◌, not, Option, none, some, List, [], ◌∷◌,
  ◌++◌, map, reverse, arith, ltb, leb, ◌==◌, if◌then◌else◌, ltb→lt, lt→ltb, leb→le, ==_iff, tests,
  Bool-cases, Option-cases, length, length-append, take, keep_if, any_of, all_of, head_of, All, Any,
  length-keep_if-le, keep_if-append, All-append, Text, codes, text_eq, text_eq_iff, text_eq_refl,
  is_empty, or_else, has_prefix, has_prefix-append, trim_prefix, has_byte, contains, drop_while,
  trim_if, is_space, trim_space, lower_byte, to_lower, cons_head, split_on, first_piece, decimal,
  contains_text, Assoc, lookup, insert, delete, lookup-insert, lookup-delete,
}

abbrev pub slash : ℕ
slash = b'/'

abbrev pub dot : Text
dot = codes "."

abbrev pub dot_dot : Text
dot_dot = codes ".."

unfoldable pub is_abs : Text → Bool
is_abs [] = false
is_abs (c ∷ s) = c == slash

-- strings.Join(ws, "/")
unfoldable pub join_with : List Text → Text
join_with [] = []
join_with (w ∷ []) = w
join_with (w ∷ v ∷ ws) = w ++ (slash ∷ join_with (v ∷ ws))

-- One element of a path, on the stack of the elements before it, the last one first.
unfoldable pub go_up : Bool → List Text → List Text
go_up rooted [] = if rooted then [] else dot_dot ∷ []
go_up rooted (t ∷ st) = if text_eq t dot_dot then dot_dot ∷ t ∷ st else st

unfoldable pub push_element : Bool → List Text → Text → List Text
unfolding go_up
push_element rooted st e =
    if is_empty e || text_eq e dot
    then st
    else if text_eq e dot_dot
    then go_up rooted st
    else e ∷ st

unfoldable pub resolve : Bool → List Text → List Text → List Text
unfolding push_element
resolve rooted st [] = st
resolve rooted st (e ∷ es) = resolve rooted (push_element rooted st e) es

unfoldable pub finish : Bool → List Text → Text
unfolding join_with
finish true ws = slash ∷ join_with ws
finish false [] = dot
finish false (w ∷ ws) = join_with (w ∷ ws)

-- The elements that are left of a path.
unfoldable pub elements : Text → List Text
unfolding resolve is_abs
elements path = reverse (resolve (is_abs path) [] (split_on slash path))

-- filepath.Clean
unfoldable pub clean : Text → Text
unfolding elements finish
clean [] = dot
clean (c ∷ s) = finish (is_abs (c ∷ s)) (elements (c ∷ s))

-- filepath.Join: Clean of the parts from the first that is not empty.
unfoldable pub join : List Text → Text
unfolding clean
join [] = []
join ([] ∷ ps) = join ps
join ((c ∷ s) ∷ ps) = clean (join_with ((c ∷ s) ∷ ps))

-- filepath.Base
last_element : List Text → Text → Text
last_element [] d = d
last_element (w ∷ ws) d = last_element ws (if is_empty w then d else w)

unfoldable pub base_name : Text → Text
unfolding last_element
base_name [] = dot
base_name (c ∷ s) = last_element (split_on slash (c ∷ s)) (slash ∷ [])

-- The text up to the last slash, that included.
up_to_slash : Text → Text
up_to_slash s = reverse (drop_while (λ c. not (c == slash)) (reverse s))

-- filepath.Dir
unfoldable pub dir_name : Text → Text
unfolding up_to_slash clean
dir_name s = clean (up_to_slash s)

-- filepath.Ext: from the last dot of the last element on.
ext_from : Text → Text → Text
ext_from [] acc = []
ext_from (c ∷ s) acc =
    let more = ext_from s (c ∷ acc) in
    if c == slash then [] else if c == b'.' then c ∷ acc else more

unfoldable pub ext : Text → Text
unfolding ext_from
ext s = ext_from (reverse s) []

clean_example : clean (codes "/a/./b//../c/../../d/..") ≡ codes "/"
unfolding clean text_eq split_on
clean_example = refl

join_example : join (codes "/srv" ∷ codes "../etc" ∷ []) ≡ codes "/etc"
unfolding join text_eq split_on
join_example = refl

ext_example : ext (codes "a.b/report.tar.gz") ≡ codes ".gz"
unfolding ext
ext_example = refl

dir_example : dir_name (codes "a/b/c.txt") ≡ codes "a/b"
unfolding dir_name text_eq split_on drop_while
dir_example = refl

base_example : base_name (codes "a/b/") ≡ codes "b"
unfolding base_name split_on
base_example = refl
