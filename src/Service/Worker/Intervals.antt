-- ===== src/Service/Worker/Intervals.antt =====
-- internal/service/sync_service.go and internal/service/reconciliation_service.go: the intervals.
use omni_blob.Base.{ℕ, ◌*◌, ◌≤◌, ◌<◌, ◌≡◌, ap, ◌∙◌, arith, ℤ, pos, negsuc}
use omni_blob.Config.{MigrationConfig, ReconciliationConfig}
use omni_blob.Api.Server.{nanoseconds, int64_product}
use omni_blob.Api.Server.Settings.{wrap-small}
use omni_blob.Service.Worker.{at_least, migration_interval, reconciliation_interval}

at_least-le : (low d : ℕ) (z : ℤ) → low ≤ d → low ≤ at_least low d z
at_least-le low d (pos n) h = ground arith
at_least-le low d (negsuc n) h = h

at_least_kept : (low d n : ℕ) → low ≤ n → at_least low d (pos n) ≡ n
at_least_kept low d n h = ground arith

-- A number of seconds from `k` on whose nanoseconds fit into the word is kept.
seconds_kept :
    (k d n : ℕ)
    → k ≤ n
    → n < 9223372036
    → at_least (k * nanoseconds) d (int64_product (pos n) nanoseconds) ≡ n * nanoseconds
unfolding int64_product
seconds_kept k d n h b =
    ap (at_least (k * nanoseconds) d) (wrap-small (n * nanoseconds) (omega arith))
    ∙ at_least_kept (k * nanoseconds) d (n * nanoseconds) (omega arith)

-- Whatever is configured, also where the product with a second overflows, the migration waits 2
-- seconds or more between two batches and the reconciliation 60 or more, so that NewTicker gets no
-- interval it would panic on; the configured number of seconds is taken from there on as long as its
-- nanoseconds fit into 64 bits.
pub intervals_lem :
    (m : MigrationConfig) (r : ReconciliationConfig)
    → (2 * nanoseconds ≤ migration_interval m)
      × (60 * nanoseconds ≤ reconciliation_interval r)
      × ((n : ℕ)
          → m.interval_sec ≡ pos n
          → 2 ≤ n
          → n < 9223372036
          → migration_interval m ≡ n * nanoseconds)
      × ((n : ℕ)
          → r.interval_sec ≡ pos n
          → 60 ≤ n
          → n < 9223372036
          → reconciliation_interval r ≡ n * nanoseconds)
unfolding migration_interval reconciliation_interval
intervals_lem m r = (
  at_least-le (2 * nanoseconds) (10 * nanoseconds) (int64_product m.interval_sec nanoseconds)
      (omega arith),
  at_least-le (60 * nanoseconds) (60 * nanoseconds) (int64_product r.interval_sec nanoseconds)
      (omega arith),
  (λ n e h b. rw e (seconds_kept 2 (10 * nanoseconds) n h b)),
  λ n e h b. rw e (seconds_kept 60 (60 * nanoseconds) n h b),
)
