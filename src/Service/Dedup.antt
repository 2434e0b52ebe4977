-- ===== src/Service/Dedup.antt =====
-- internal/service/dedup_service.go: files below the storage root that no record names are moved to
-- quarantine. What filepath.Walk visits, in its order, is given.
pub mod Guardrails
pub mod Unnamed
use omni_blob.Base.{
  ℕ, zero, suc, ◌+◌, ◌-◌, ◌*◌, ◌/◌, ◌%◌, ◌^◌, ◌≤◌, ◌<◌, String, ◌≡◌, refl, sym, ap, ◌∙◌, fun_ext,
  ◌≢◌, ◌↔◌, ◌⊎◌, inl, inr, Bool, true, false, ◌&&◌, ◌||◌, not, Option, none, some, List, [], ◌∷◌,
  ◌++◌, map, reverse, arith, ltb, leb, ◌==◌, if◌then◌else◌, ltb→lt, lt→ltb, leb→le, ==_iff, tests,
  Bool-cases, Option-cases, length, length-append, take, keep_if, any_of, all_of, head_of, All, Any,
  length-keep_if-le, keep_if-append, All-append, Text, codes, text_eq, text_eq_iff, text_eq_refl,
  text_eq-common, is_empty, or_else, has_prefix, has_prefix-append, has_prefix-common,
  has_prefix_self, has_prefix-map, trim_prefix, has_byte, contains, has_byte-append, drop_while,
  trim_if, is_space, trim_space, lower_byte, to_lower, cons_head, split_on, first_piece,
  digits_fuel, decimal, decimal-digits, decimal-given, contains_text, Assoc, lookup, insert, delete,
  lookup-insert, lookup-delete, is_digit, digits_value, digits_value-decimal,
}
use omni_blob.FilePath.{slash, clean, join}
use omni_blob.FileSystem.{FileSystem, Node, rename, ensure_parents, is_some}
use omni_blob.Storage.Files.{size_at}
use omni_blob.Entity.{OrphanFileLog}
use omni_blob.Repository.BinaryFiles.{Files, exists_by_path}
use omni_blob.Repository.Tables.{insert_orphan}

pub record DedupConfig : Type 0 where
  pub storage_root : Text
  pub quarantine_root : Text
  pub dry_run : Bool
  pub grace_period_days : ℕ
  pub max_move_limit : ℕ

-- NewDedupService
unfoldable pub new_dedup_config : DedupConfig → DedupConfig
new_dedup_config cfg = record {
  storage_root = cfg.storage_root;
  quarantine_root =
      if is_empty cfg.quarantine_root
      then join (cfg.storage_root ∷ codes "_quarantine" ∷ [])
      else cfg.quarantine_root;
  dry_run = cfg.dry_run;
  grace_period_days = if leb cfg.grace_period_days 0 then 1 else cfg.grace_period_days;
  max_move_limit = if leb cfg.max_move_limit 0 then 100 else cfg.max_move_limit;
}

-- A call of Walk's function: an error, a directory, or a file with the time of its last change.
pub data Visit : Type 0 where
  unreadable : Text → Visit
  directory : Text → Visit
  regular : Text → ℕ → Visit

-- filepath.Rel for what Walk visits below the root.
abbrev pub root_prefix : Text → Text
root_prefix root =
    if text_eq (clean root) (slash ∷ []) then slash ∷ [] else clean root ++ (slash ∷ [])

abbrev pub rel_below : DedupConfig → Text → Text
rel_below cfg p = trim_prefix p (root_prefix cfg.storage_root)

abbrev pub unknown : Option Bool → Bool
unknown none = false
unknown (some there) = not there

-- Whether a visited file counts as an orphan: old enough, and the database says that no record has
-- its path.
unfoldable pub is_orphan : DedupConfig → ℕ → (Text → Option Bool) → Text → ℕ → Bool
is_orphan cfg cutoff exists_path p mod_time =
    not (ltb cutoff mod_time) && unknown (exists_path (rel_below cfg p))

abbrev pub path_of : Visit → Text
path_of (unreadable p) = p
path_of (directory p) = p
path_of (regular p t) = p

abbrev pub below_skipped : Option Text → Text → Bool
below_skipped none p = false
below_skipped (some d) p = has_prefix p (d ++ (slash ∷ []))

-- The directory that is skipped after a visit (filepath.SkipDir).
abbrev pub skip_after : DedupConfig → Option Text → Visit → Option Text
skip_after cfg skip (unreadable p) = skip
skip_after cfg skip (directory p) = if has_prefix p cfg.quarantine_root then some p else skip
skip_after cfg skip (regular p t) = skip

abbrev pub collect : DedupConfig → ℕ → (Text → Option Bool) → Visit → List Text → List Text
collect cfg cutoff exists_path (unreadable p) rest = rest
collect cfg cutoff exists_path (directory p) rest = rest
collect cfg cutoff exists_path (regular p t) rest =
    if is_orphan cfg cutoff exists_path p t then p ∷ rest else rest

-- The scan, where `skip` is the directory whose entries Walk passes over.
unfoldable pub scan : DedupConfig → ℕ → (Text → Option Bool) → Option Text → List Visit → List Text
scan cfg cutoff exists_path skip [] = []
scan cfg cutoff exists_path skip (v ∷ vs) =
    let passed = scan cfg cutoff exists_path skip vs in
    let rest = scan cfg cutoff exists_path (skip_after cfg skip v) vs in
    if below_skipped skip (path_of v) then passed else collect cfg cutoff exists_path v rest

pub record Job : Type 0 where
  pub disk : FileSystem
  pub logs : List OrphanFileLog

abbrev pub target_path : DedupConfig → Text → Text
target_path cfg p = join (cfg.quarantine_root ∷ rel_below cfg p ∷ [])

abbrev or_zero : Option ℕ → ℕ
or_zero none = 0
or_zero (some n) = n

-- Which calls succeed for an orphan: asking for its size, making its directory, renaming it, and
-- writing the log; and the sizes of directories.
pub record MoveLuck : Type 0 where
  pub stats : Text → Bool
  pub dir_size : Text → ℕ
  pub makes : Text → Bool
  pub moves : Text → Bool
  pub log_up : Bool

unfoldable pub log_entry : DedupConfig → MoveLuck → FileSystem → Text → Text → OrphanFileLog
log_entry cfg luck disk action p = record {
  original_path = rel_below cfg p;
  quarantine_path = join (codes "_quarantine" ∷ rel_below cfg p ∷ []);
  size = if luck.stats p then or_zero (size_at luck.dir_size disk p) else 0;
  action = action;
  reason = codes "Orphan File - Not in DB";
}

unfoldable pub quarantine_one : DedupConfig → MoveLuck → Text → Job → Job
quarantine_one cfg luck p job =
    if cfg.dry_run
    then record job {
      logs = insert_orphan luck.log_up (log_entry cfg luck job.disk (codes "DRY_RUN") p) job.logs;
    }
    else if not (luck.makes p)
    then job
    else let ready = ensure_parents (target_path cfg p) job.disk in
      if not (luck.moves p && is_some (ready p)) then record job { disk = ready } else record {
        disk = rename p (target_path cfg p) ready;
        logs =
            insert_orphan luck.log_up (log_entry cfg luck job.disk (codes "QUARANTINED") p)
              job.logs;
      }

unfoldable pub quarantine_all : DedupConfig → MoveLuck → List Text → Job → Job
unfolding quarantine_one
quarantine_all cfg luck [] job = job
quarantine_all cfg luck (p ∷ ps) job = quarantine_all cfg luck ps (quarantine_one cfg luck p job)

-- time.Now().AddDate(0, 0, -days) in a zone of fixed offset, in nanoseconds.
abbrev pub cutoff_of : DedupConfig → ℕ → ℕ
cutoff_of cfg now = now - cfg.grace_period_days * (86400 * 1000000000)

-- The quarantine's directory and those above it, which a dry run does not make.
abbrev pub make_root : DedupConfig → Job → Job
make_root cfg job =
    if cfg.dry_run
    then job
    else record job { disk = ensure_parents (clean cfg.quarantine_root ++ (slash ∷ [])) job.disk }

-- FindAndQuarantineOrphans. `root_made` says whether the quarantine's directory can be made; `true`
-- beside the result where no error is returned.
unfoldable pub find_and_quarantine_orphans :
    DedupConfig → Bool → MoveLuck → ℕ → Bool → Files → List Visit → Job → Job × Bool
unfolding scan quarantine_all
find_and_quarantine_orphans cfg root_made luck now up files visits job =
    if not cfg.dry_run && not root_made
    then (job, false)
    else let orphans = scan cfg (cutoff_of cfg now) (λ p. exists_by_path up p files) none visits in
      if ltb cfg.max_move_limit (length orphans)
      then (make_root cfg job, false)
      else (quarantine_all cfg luck orphans (make_root cfg job), true)
