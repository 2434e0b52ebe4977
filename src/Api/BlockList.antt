-- ===== src/Api/BlockList.antt =====
-- internal/api/blocklist.go: addresses that failed too often are banned for a while.
pub mod Bans
pub mod Threshold
pub mod Tracking
use omni_blob.Base.{
  ℕ, suc, ◌+◌, ◌-◌, ◌*◌, ◌≤◌, ◌<◌, ◌≡◌, Bool, true, false, List, [], ◌∷◌, Option, none, some, Text,
  Assoc, lookup, insert, delete, ltb, leb, if◌then◌else◌,
}

pub record FailedAttempt : Type 0 where
  pub count : ℕ
  pub first_fail : ℕ
  pub last_fail : ℕ

-- A row that is sent to the table blocked_ip.
pub record BlockedRow : Type 0 where
  pub ip_address : Text
  pub reason : Text
  pub blocked_at : ℕ
  pub expires_at : ℕ

pub record BlockList : Type 0 where
  pub ban_list : Assoc ℕ
  pub failed_tracker : Assoc FailedAttempt
  pub rows : List BlockedRow

abbrev pub max_failures : ℕ
max_failures = 5

-- In nanoseconds: 30 minutes and 5 minutes.
abbrev pub ban_duration : ℕ
ban_duration = 1800 * 1000000000

abbrev pub track_duration : ℕ
track_duration = 300 * 1000000000

-- An expired ban is taken off the list.
unfoldable pub is_ip_blocked : Text → ℕ → BlockList → BlockList × Bool
is_ip_blocked ip now s = elim (lookup ip s.ban_list) [
  | none ↦ (s, false)
  | some expiry ↦
      if ltb now expiry then (s, true) else (record s { ban_list = delete ip s.ban_list }, false)
]

unfoldable pub track : Text → FailedAttempt → BlockList → BlockList
track ip a s = record s { failed_tracker = insert ip a s.failed_tracker }

unfoldable pub ban : Text → Text → ℕ → Bool → BlockList → BlockList
ban ip reason now has_db s = record {
  ban_list = insert ip (now + ban_duration) s.ban_list;
  failed_tracker = delete ip s.failed_tracker;
  rows =
      if has_db
      then record {
        ip_address = ip;
        reason = reason;
        blocked_at = now;
        expires_at = now + ban_duration;
      }
        ∷ s.rows
      else s.rows;
}

abbrev pub first_attempt : ℕ → FailedAttempt
first_attempt now = record { count = 1; first_fail = now; last_fail = now }

abbrev pub next_attempt : ℕ → FailedAttempt → FailedAttempt
next_attempt now a = record a { count = a.count + 1; last_fail = now }

-- `true` where the address has just been banned.
unfoldable pub record_failed_attempt : Text → Text → Bool → ℕ → BlockList → BlockList × Bool
unfolding track ban
record_failed_attempt ip reason has_db now s = elim (lookup ip s.failed_tracker) [
  | none ↦ (track ip (first_attempt now) s, false)
  | some a ↦
      if ltb track_duration (now - a.first_fail)
      then (track ip (first_attempt now) s, false)
      else if leb max_failures (a.count + 1)
      then (ban ip reason now has_db s, true)
      else (track ip (next_attempt now a) s, false)
]

abbrev pub empty_list : BlockList
empty_list = record { ban_list = []; failed_tracker = []; rows = [] }
