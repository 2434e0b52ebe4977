-- ===== src/FileSystem.antt =====
-- The files that the operating system keeps, by their cleaned paths, and the calls of Go's package
-- os and of pkg/fileutil that the program makes. Which calls fail is the environment's choice.
use omni_blob.Base.{
  ℕ, Bool, true, false, ◌&&◌, not, Option, none, some, List, [], ◌∷◌, ◌++◌, if◌then◌else◌, Text,
  text_eq, has_prefix, ◌||◌, ◌≡◌, ap,
}
use omni_blob.FilePath.{slash}

-- A file has its bytes and the time of its last change.
pub data Node : Type 0 where
  file : List ℕ → ℕ → Node
  dir : Node

abbrev pub FileSystem : Type 0
FileSystem = Text → Option Node

abbrev pub is_some {ℓ} : {A : Type ℓ} → Option A → Bool
is_some none = false
is_some (some a) = true

-- fileutil.Exists, where `stat_fails` says that os.Stat fails for another reason than a missing file:
-- such a path counts as existing.
abbrev pub exists : Bool → FileSystem → Text → Bool
exists stat_fails fs p = stat_fails || is_some (fs p)

abbrev pub put : Text → Node → FileSystem → FileSystem
put p n fs q = if text_eq p q then some n else fs q

abbrev pub remove : Text → FileSystem → FileSystem
remove p fs q = if text_eq p q then none else fs q

-- os.Rename replaces a file at the new path.
abbrev pub rename : Text → Text → FileSystem → FileSystem
rename src dst fs = elim (fs src) [ none ↦ fs | some n ↦ put dst n (remove src fs) ]

-- fileutil.EnsureDir(filepath.Dir(p)): the directories above `p`.
abbrev pub ensure_parents : Text → FileSystem → FileSystem
ensure_parents p fs q =
    if not (is_some (fs q)) && has_prefix p (q ++ (slash ∷ [])) then some dir else fs q

abbrev pub is_dir : Option Node → Bool
is_dir (some dir) = true
is_dir (some (file bs t)) = false
is_dir none = false

-- What io.Copy reads: the bytes, and whether reading or writing breaks off behind them.
pub record Stream : Type 0 where
  pub bytes : List ℕ
  pub breaks : Bool

-- The calls that fail. The errors of the last four are dropped by the program: a first and a second
-- os.Stat that fail for another reason than a missing file, os.Remove, and the Close of a written
-- file, after which the bytes of `lost` are what is on the disk.
pub record Faults : Type 0 where
  pub mkdir_fails : Bool
  pub create_fails : Bool
  pub rename_fails : Bool
  pub stat_fails : Bool
  pub restat_fails : Bool
  pub remove_fails : Bool
  pub lost : Option (List ℕ)

abbrev pub no_faults : Faults
no_faults = record {
  mkdir_fails = false;
  create_fails = false;
  rename_fails = false;
  stat_fails = false;
  restat_fails = false;
  remove_fails = false;
  lost = none;
}

-- What is on the disk once a file that the bytes were written to is closed.
unfoldable pub written : Option (List ℕ) → List ℕ → List ℕ
written none bs = bs
written (some left) bs = left

pub written_all : (lost : Option (List ℕ)) (bs : List ℕ) → lost ≡ none → written lost bs ≡ bs
unfolding written
written_all lost bs e = ap (λ o. written o bs) e

-- os.Remove of a file, whose error is dropped.
unfoldable pub discard : Bool → Text → FileSystem → FileSystem
discard remove_fails p fs = if remove_fails then fs else remove p fs
