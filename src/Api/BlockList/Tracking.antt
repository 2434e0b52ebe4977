-- ===== src/Api/BlockList/Tracking.antt =====
-- internal/api/blocklist.go: what checks and failures do to the tracker of an address.
use omni_blob.Base.{
  ℕ, ◌+◌, ◌-◌, ◌≡◌, refl, inl, inr, Bool, false, Option, none, some, List, [], ◌∷◌, arith, ltb, leb,
  if◌then◌else◌, Option-cases, Text, text_eq, text_eq_refl, lookup, lookup-insert, lookup-delete,
}
use omni_blob.Api.BlockList.{
  FailedAttempt, BlockList, max_failures, track_duration, is_ip_blocked, record_failed_attempt,
  first_attempt, next_attempt,
}
use omni_blob.Api.BlockList.Bans.{Event, checks, fails}

-- The failures of one address at `from` or later among those of a history.
unfoldable pub failures_since : Text → ℕ → List Event → ℕ
failures_since who from [] = 0
failures_since who from (checks ip now ∷ es) = failures_since who from es
failures_since who from (fails ip reason has_db now ∷ es) =
    (if text_eq ip who then (if leb from now then 1 else 0) else 0) + failures_since who from es

-- What a failure makes of the tracker's entry, and whether it bans.
unfoldable pub next_tracked : ℕ → Option FailedAttempt → Option FailedAttempt
next_tracked now none = some (first_attempt now)
next_tracked now (some a) =
    if ltb track_duration (now - a.first_fail)
    then some (first_attempt now)
    else if leb max_failures (a.count + 1)
    then none
    else some (next_attempt now a)

unfoldable pub bans : ℕ → Option FailedAttempt → Bool
bans now none = false
bans now (some a) =
    if ltb track_duration (now - a.first_fail) then false else leb max_failures (a.count + 1)

module _ (ip reason : Text) (has_db : Bool) (now : ℕ) (s : BlockList) where
  pub tracked_self :
      (lookup ip (record_failed_attempt ip reason has_db now s).0.failed_tracker
        ≡ next_tracked now (lookup ip s.failed_tracker))
      × ((record_failed_attempt ip reason has_db now s).1 ≡ bans now (lookup ip s.failed_tracker))
  unfolding record_failed_attempt next_tracked bans
  tracked_self = elim (Option-cases (lookup ip s.failed_tracker)) [
    | inl e ↦
        rw (e, record_failed_attempt)
          (
            ground
                (arith, text_eq_refl ip, lookup-insert ip ip (first_attempt now) s.failed_tracker),
            refl,
          )
    | inr (a, e) ↦
        rw (e, record_failed_attempt)
          (
            ground (
              arith,
              text_eq_refl ip,
              lookup-insert ip ip (first_attempt now) s.failed_tracker,
              lookup-insert ip ip (next_attempt now a) s.failed_tracker,
              lookup-delete ip ip s.failed_tracker,
            ),
            ground arith,
          )
  ]

  pub tracked_other :
      (who : Text)
      → text_eq ip who ≡ false
      → lookup who (record_failed_attempt ip reason has_db now s).0.failed_tracker
        ≡ lookup who s.failed_tracker
  unfolding record_failed_attempt
  tracked_other who d = elim (Option-cases (lookup ip s.failed_tracker)) [
    | inl e ↦
        rw (e, record_failed_attempt)
          (ground (arith, lookup-insert ip who (first_attempt now) s.failed_tracker))
    | inr (a, e) ↦
        rw (e, record_failed_attempt)
          (ground (
            arith,
            lookup-insert ip who (first_attempt now) s.failed_tracker,
            lookup-insert ip who (next_attempt now a) s.failed_tracker,
            lookup-delete ip who s.failed_tracker,
          ))
  ]

pub check_tracker :
    (ip : Text) (now : ℕ) (s : BlockList)
    → (is_ip_blocked ip now s).0.failed_tracker ≡ s.failed_tracker
unfolding is_ip_blocked
check_tracker ip now s = ground arith
