-- ===== src/Api/Explorer.antt =====
-- internal/api/explorer_handler.go: listing a directory of the legacy tree or of the stored files.
-- The operating system's directory reads and the repository are parameters.
pub mod Traversal
use omni_blob.Base.{
  ℕ, zero, suc, ◌+◌, ◌-◌, ◌*◌, ◌/◌, ◌%◌, ◌^◌, ◌≤◌, ◌<◌, String, ◌≡◌, refl, sym, ap, ◌∙◌, fun_ext,
  ◌≢◌, ◌↔◌, ◌⊎◌, inl, inr, Bool, true, false, ◌&&◌, ◌||◌, not, Option, none, some, List, [], ◌∷◌,
  ◌++◌, map, reverse, arith, ltb, leb, ◌==◌, if◌then◌else◌, ltb→lt, lt→ltb, leb→le, ==_iff, tests,
  Bool-cases, Option-cases, length, length-append, take, keep_if, any_of, all_of, head_of, All, Any,
  length-keep_if-le, keep_if-append, All-append, Text, codes, text_eq, text_eq_iff, text_eq_refl,
  is_empty, or_else, has_prefix, has_prefix-append, has_prefix-common, has_prefix_self,
  has_prefix-map, trim_prefix, has_byte, contains, drop_while, trim_if, is_space, trim_space,
  lower_byte, to_lower, cons_head, split_on, first_piece, decimal, contains_text, Assoc, lookup,
  insert, delete, lookup-insert, lookup-delete,
}
use omni_blob.Config.{StorageConfig}
use omni_blob.FilePath.{slash, clean, join, is_abs}

pub record FileNode : Type 0 where
  pub name : Text
  pub path : Text
  pub is_directory : Bool
  pub size : ℕ
  pub modified_time : ℕ

-- What os.ReadDir gives for one entry: size and time, where they can be read, and the sizes of the
-- files below a directory that a walk can read.
pub record DirEntry : Type 0 where
  pub name : Text
  pub is_dir : Bool
  pub info : Option (ℕ × ℕ)
  pub below : List ℕ

pub data ReadDir : Type 0 where
  entries : List DirEntry → ReadDir
  not_exist : ReadDir
  failed : ReadDir

-- An HTTP error, or the listing.
pub data Listing : Type 0 where
  http_error : ℕ → Listing
  listing : List FileNode → Listing

-- filepath.Abs, with the working directory where it can be told.
unfoldable pub abs_path : Option Text → Text → Option Text
abs_path cwd p =
    if is_abs p
    then some (clean p)
    else elim cwd [ none ↦ none | some wd ↦ some (join (wd ∷ p ∷ [])) ]

unfoldable pub base_path : StorageConfig → Text → Option Text
base_path cfg target =
    if text_eq target (codes "legacy")
    then (if is_empty cfg.legacy_path then none else some cfg.legacy_path)
    else if text_eq target (codes "omniblob")
    then (if is_empty cfg.root_path then none else some cfg.root_path)
    else none

sum_sizes : List ℕ → ℕ
sum_sizes [] = 0
sum_sizes (n ∷ ns) = n + sum_sizes ns

node_path : Text → Text → Text
node_path clean_req name =
    if text_eq clean_req (slash ∷ []) then slash ∷ name else join (clean_req ∷ name ∷ [])

unfoldable pub entry_nodes : Text → List DirEntry → List FileNode
unfolding sum_sizes node_path
entry_nodes clean_req [] = []
entry_nodes clean_req (e ∷ es) =
    let rest = entry_nodes clean_req es in
    elim e.info [
      | none ↦ rest
      | some (size, time) ↦
          (record {
            name = e.name;
            path = node_path clean_req e.name;
            is_directory = e.is_dir;
            size = if e.is_dir then sum_sizes e.below else size;
            modified_time = time;
          })
          ∷ rest
    ]

unfoldable pub legacy_listing : Text → ReadDir → Listing
unfolding entry_nodes
legacy_listing clean_req (entries es) = listing (entry_nodes clean_req es)
legacy_listing clean_req not_exist = listing []
legacy_listing clean_req failed = http_error 500

-- Paths begin with a slash.
unfoldable pub rooted_node : FileNode → FileNode
rooted_node v = record v {
  path = if has_prefix v.path (slash ∷ []) then v.path else slash ∷ v.path;
}

abbrev pub objects_node : ℕ → FileNode
objects_node now = record {
  name = codes "objects";
  path = codes "/objects";
  is_directory = true;
  size = 0;
  modified_time = now;
}

unfoldable pub virtual_listing : Text → ℕ → Option (List FileNode) → Listing
unfolding rooted_node
virtual_listing req now none = http_error 500
virtual_listing req now (some vs) =
    listing (map rooted_node vs ++ (if text_eq req (slash ∷ []) then objects_node now ∷ [] else []))

unfoldable pub list_inside :
    (Text → ReadDir)
    → (Text → Option (List FileNode))
    → ℕ
    → Text
    → Text
    → Text
    → Text
    → Text
    → Listing
unfolding legacy_listing virtual_listing
list_inside read_dir virtual now target req clean_req abs_base abs_full =
    if not (has_prefix (to_lower abs_full) (to_lower abs_base))
    then http_error 403
    else if text_eq target (codes "omniblob")
    then virtual_listing req now (virtual req)
    else legacy_listing clean_req (read_dir abs_full)

unfoldable pub list_directory :
    StorageConfig
    → Option Text
    → (Text → ReadDir)
    → (Text → Option (List FileNode))
    → ℕ
    → Text
    → Text
    → Listing
list_directory cfg cwd read_dir virtual now target path =
    let req = or_else path (slash ∷ []) in
    let clean_req = clean (slash ∷ req) in
    elim (base_path cfg target) [
      | none ↦ http_error 400
      | some base ↦ elim (abs_path cwd base) [
        | none ↦ http_error 500
        | some abs_base ↦ elim (abs_path cwd (join (base ∷ clean_req ∷ []))) [
          | none ↦ http_error 500
          | some abs_full ↦ list_inside read_dir virtual now target req clean_req abs_base abs_full
        ]
      ]
    ]
