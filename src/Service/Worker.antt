-- ===== src/Service/Worker.antt =====
-- internal/service/sync_service.go and internal/service/reconciliation_service.go: the loops of the
-- background jobs. What the loop's select receives is a sequence of events.
pub mod Intervals
pub mod Drains
pub mod Shutdown
use omni_blob.Base.{
  ℕ, zero, suc, ◌+◌, ◌-◌, ◌*◌, ◌/◌, ◌%◌, ◌^◌, ◌≤◌, ◌<◌, String, ◌≡◌, refl, sym, ap, ◌∙◌, fun_ext,
  ◌≢◌, ◌↔◌, ◌⊎◌, inl, inr, Bool, true, false, ◌&&◌, ◌||◌, not, Option, none, some, List, [], ◌∷◌,
  ◌++◌, map, reverse, arith, ltb, leb, ◌==◌, if◌then◌else◌, ltb→lt, lt→ltb, leb→le, ==_iff, tests,
  Bool-cases, Option-cases, length, length-append, take, keep_if, any_of, all_of, head_of, All, Any,
  length-keep_if-le, keep_if-append, All-append, Text, codes, text_eq, text_eq_iff, text_eq_refl,
  text_eq-common, is_empty, or_else, has_prefix, has_prefix-append, has_prefix-common,
  has_prefix_self, has_prefix-map, trim_prefix, has_byte, contains, has_byte-append, drop_while,
  trim_if, is_space, trim_space, lower_byte, to_lower, cons_head, split_on, first_piece, cons_cut,
  cut, digits_fuel, decimal, decimal-digits, decimal-given, contains_text, Assoc, lookup, insert,
  delete, lookup-insert, lookup-delete, delete-insert, is_digit, digits_value, digits_value-decimal,
  ℤ, negate, is_positive, magnitude, signed_within, atoi, pos, negsuc,
}
use omni_blob.Config.{MigrationConfig, ReconciliationConfig}
use omni_blob.Entity.{BinaryFile}
use omni_blob.Api.Server.{nanoseconds, int64_product}
use omni_blob.Repository.BinaryFiles.{Files}
use omni_blob.Service.Migration.{MigrationEnv, FileLuck, Store, run_migration_batch}

-- The context's end, the channel that Stop closes, and the ticker's tick, with what is around the
-- batch that it starts.
pub data Event {ℓ} (A : Type ℓ) : Type ℓ where
  cancelled stopped : Event A
  ticked : A → Event A

-- A duration below the first bound becomes the second one.
abbrev pub at_least : ℕ → ℕ → ℤ → ℕ
at_least low d (pos n) = if ltb n low then d else n
at_least low d (negsuc n) = d

-- The ticker's interval, in nanoseconds.
unfoldable pub migration_interval : MigrationConfig → ℕ
unfolding int64_product
migration_interval cfg =
    at_least (2 * nanoseconds) (10 * nanoseconds) (int64_product cfg.interval_sec nanoseconds)

unfoldable pub reconciliation_interval : ReconciliationConfig → ℕ
unfolding int64_product
reconciliation_interval cfg =
    at_least (60 * nanoseconds) (60 * nanoseconds) (int64_product cfg.interval_sec nanoseconds)

-- The loop, up to the first event that ends it.
unfoldable pub work {ℓ κ} : {A : Type ℓ} {S : Type κ} → (A → S → S) → List (Event A) → S → S
work batch [] s = s
work batch (cancelled ∷ es) s = s
work batch (stopped ∷ es) s = s
work batch (ticked a ∷ es) s = work batch es (batch a s)

-- The job: nothing if it is switched off, else a first batch and the loop.
unfoldable pub start_background {ℓ κ} :
    {A : Type ℓ} {S : Type κ} → Bool → (A → S → S) → A → List (Event A) → S → S
unfolding work
start_background enabled batch first es s = if enabled then work batch es (batch first s) else s

-- What is around one batch: what its calls and queries answer, and the order of its workers.
pub record Around : Type 0 where
  pub env : MigrationEnv
  pub luck : BinaryFile → FileLuck
  pub order : Files → Files
  pub last_up : Bool
  pub page_up : Bool
  pub log_up : Bool

abbrev pub size_of : ℤ → ℕ
size_of (pos n) = n
size_of (negsuc n) = 0

abbrev pub run_batch : MigrationConfig → Around → Store → Store
run_batch cfg a s =
    run_migration_batch a.env a.luck a.order a.last_up a.page_up a.log_up (size_of cfg.batch_size) s

unfoldable pub start_background_migration :
    MigrationConfig → Around → List (Event Around) → Store → Store
unfolding start_background
start_background_migration cfg first es s = start_background cfg.enabled (run_batch cfg) first es s

-- The batch of the reconciliation only writes a log line.
abbrev pub run_reconciliation_batch {ℓ} : {S : Type ℓ} → S → S
run_reconciliation_batch s = s

-- The first number is the time at the start, and a tick carries its time.
unfoldable pub start_background_reconciliation {ℓ} :
    {S : Type ℓ} → ReconciliationConfig → ℕ → List (Event ℕ) → S → S
unfolding start_background
start_background_reconciliation cfg now es s =
    start_background cfg.enabled (λ time. run_reconciliation_batch) now es s
