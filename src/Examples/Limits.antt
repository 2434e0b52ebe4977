-- ===== src/Examples/Limits.antt =====
-- Concrete runs of the rate limiter (internal/api/ratelimit.go) and the block list
-- (internal/api/blocklist.go).
use omni_blob.Base.{
  ℕ, ◌-◌, ◌≤◌, ◌≡◌, refl, ◌≢◌, true, false, none, List, [], ◌∷◌, reverse, arith, Text, codes,
  text_eq, text_eq_iff, split_on, lookup, insert,
}
use omni_blob.Http.{Request, client_ip, header}
use omni_blob.Api.RateLimit.{Limits, serve, admitted}
use omni_blob.Api.RateLimit.Burst.{window_bound}
use omni_blob.Api.BlockList.{
  BlockList, empty_list, track, record_failed_attempt, is_ip_blocked, track_duration,
}
use omni_blob.Api.BlockList.Bans.{Event, checks, fails, step, run, ban_lasts}
use omni_blob.Api.BlockList.Tracking.{failures_since}
use omni_blob.Api.BlockList.Threshold.{start, next, ban_needs_failures, fifth_failure_bans}

abbrev home : Text
home = codes "10.0.0.1"

abbrev office : Text
office = codes "10.0.0.2"

abbrev request : Request
request = record {
  method = codes "GET";
  url_path = codes "/api/v1/files/7";
  bucket = codes "files";
  headers = [];
  query = [];
  form = [];
  basic_auth = none;
  remote_addr = codes "10.0.0.1:5000";
}

abbrev three_visits : List (Text × ℕ)
three_visits = (home, 5) ∷ (office, 6) ∷ (home, 7) ∷ []

window_bound_example : admitted 1 home three_visits (serve 1 ((home, 2) ∷ []) []) ≤ 1
window_bound_example =
    window_bound 1 home 5 ((home, 2) ∷ []) three_visits (omega arith)
      ((omega arith, omega arith), ((omega arith, omega arith), ((omega arith, omega arith), tt)))

abbrev spent_table : Limits
spent_table = (home, record { tokens = 0; last = 100 }) ∷ []

office_not_home : office ≢ client_ip request
unfolding client_ip header lookup split_on text_eq
office_not_home e = absurd (ground (arith, (text_eq_iff office (client_ip request)).1 e))

abbrev reason : Text
reason = codes "Invalid API key"

-- Four failures of one address, which a fifth follows.
abbrev four_failures : List Event
four_failures =
    fails home reason false 1
    ∷ fails home reason false 2
    ∷ fails home reason false 3
    ∷ fails home reason false 4
    ∷ []

abbrev nearly_banned : BlockList
nearly_banned = record {
  ban_list = [];
  failed_tracker = (home, record { count = 4; first_fail = 1; last_fail = 4 }) ∷ [];
  rows = [];
}

fifth_bans : (record_failed_attempt home reason false 5 nearly_banned).1 ≡ true
unfolding record_failed_attempt lookup text_eq
fifth_bans = refl

ban_lasts_example :
    (is_ip_blocked home 9 (
      run
        (record_failed_attempt home reason false 5 nearly_banned).0
        (checks office 6 ∷ fails home reason false 8 ∷ []))).1
    ≡ true
ban_lasts_example =
    ban_lasts nearly_banned home reason false 5 9 (checks office 6 ∷ fails home reason false 8 ∷ [])
      fifth_bans ((omega arith, omega arith), ((omega arith, omega arith), tt)) (omega arith)

three_later :
    failures_since home 1 (
      fails home reason false 2
      ∷ checks office 3
      ∷ fails home reason true 4
      ∷ fails home reason true 5
      ∷ [])
    ≡ 3
unfolding failures_since text_eq
three_later = refl

fifth_failure_bans_example :
    (record_failed_attempt home reason false 6 (
      run (record_failed_attempt home reason false 1 empty_list).0 (
        fails home reason false 2
        ∷ checks office 3
        ∷ fails home reason true 4
        ∷ fails home reason true 5
        ∷ []))).1
    ≡ true
unfolding lookup
fifth_failure_bans_example =
    fifth_failure_bans empty_list home reason false 1 6
      (fails home reason false 2
        ∷ checks office 3
        ∷ fails home reason true 4
        ∷ fails home reason true 5
        ∷ [])
      refl
      (
        (omega arith, omega arith),
        (
          (omega arith, omega arith),
          ((omega arith, omega arith), ((omega arith, omega arith), tt)),
        ),
      )
      three_later (omega arith)

abbrev four_past : List Event
four_past = reverse four_failures

abbrev after_four : BlockList
after_four = run empty_list four_failures

ban_needs_failures_example : 4 ≤ failures_since home (5 - track_duration) four_past
unfolding run step record_failed_attempt track lookup insert text_eq
ban_needs_failures_example =
    ban_needs_failures home reason false 5
      (next (next (next (next start (omega arith)) (omega arith)) (omega arith)) (omega arith)) refl
