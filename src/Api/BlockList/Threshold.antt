-- ===== src/Api/BlockList/Threshold.antt =====
-- internal/api/blocklist.go: how many failures bring a ban about.
use omni_blob.Base.{
  ℕ, ◌+◌, ◌-◌, ◌≤◌, ◌<◌, ◌≡◌, refl, sym, ◌∙◌, inl, inr, Bool, true, false, Option, none, some, List,
  [], ◌∷◌, arith, Bool-cases, All, Text, text_eq, text_eq_iff, text_eq_refl, lookup,
}
use omni_blob.Api.BlockList.{
  FailedAttempt, BlockList, max_failures, track_duration, is_ip_blocked, record_failed_attempt,
  first_attempt, next_attempt, empty_list,
}
use omni_blob.Api.BlockList.Bans.{Event, checks, fails, time_of, step, run}
use omni_blob.Api.BlockList.Tracking.{
  failures_since, next_tracked, bans, tracked_self, tracked_other, check_tracker,
}

-- The lists that a history in the order of time leads to. The latest event stands first in `past`.
pub data Reached : List Event → ℕ → BlockList → Type 0 where
  start : Reached [] 0 empty_list
  next :
      {past : List Event} {clock : ℕ} {s : BlockList} {e : Event}
      → Reached past clock s
      → clock ≤ time_of e
      → Reached (e ∷ past) (time_of e) (step s e)

-- The entry counts no failure that did not happen.
abbrev IsTruthful : Text → List Event → ℕ → Option FailedAttempt → Type 0
IsTruthful ip past clock o =
    (a : FailedAttempt)
    → o ≡ some a
    → (a.count ≤ failures_since ip a.first_fail past) × (a.first_fail ≤ clock)

fail-IsTruthful :
    (ip reason : Text) (has_db : Bool) (now clock : ℕ) (past : List Event)
    (o : Option FailedAttempt)
    → clock ≤ now
    → IsTruthful ip past clock o
    → IsTruthful ip (fails ip reason has_db now ∷ past) now (next_tracked now o)
unfolding next_tracked failures_since
fail-IsTruthful ip reason has_db now clock past none k h a e =
    (ground (arith, text_eq_refl ip), ground arith)
fail-IsTruthful ip reason has_db now clock past (some b) k h a e =
    (ground (arith, text_eq_refl ip, h b refl), ground (arith, h b refl))

other-IsTruthful :
    (who ip reason : Text) (has_db : Bool) (now clock : ℕ) (past : List Event)
    (o : Option FailedAttempt)
    → clock ≤ now
    → IsTruthful ip past clock o
    → IsTruthful ip (fails who reason has_db now ∷ past) now o
unfolding failures_since
other-IsTruthful who ip reason has_db now clock past o k h a e =
    (omega (arith, (h a e).0), omega (arith, (h a e).1))

check-IsTruthful :
    (who ip : Text) (now clock : ℕ) (past : List Event) (o : Option FailedAttempt)
    → clock ≤ now
    → IsTruthful ip past clock o
    → IsTruthful ip (checks who now ∷ past) now o
unfolding failures_since
check-IsTruthful who ip now clock past o k h a e = ((h a e).0, omega (arith, (h a e).1))

reached-IsTruthful :
    {past : List Event} {clock : ℕ} {s : BlockList} (ip : Text)
    → Reached past clock s
    → IsTruthful ip past clock (lookup ip s.failed_tracker)
unfolding step lookup
reached-IsTruthful ip start = λ a e. cc
reached-IsTruthful ip (next {past} {clock} {s} {e = checks who now} r k) =
    rw (check_tracker who now s) (
      check-IsTruthful who ip now clock past (lookup ip s.failed_tracker) k
        (reached-IsTruthful ip r))
reached-IsTruthful ip (next {past} {clock} {s} {e = fails who reason has_db now} r k) =
    let h = reached-IsTruthful ip r in
    elim (Bool-cases (text_eq who ip)) [
      | inl same ↦
          rw ((text_eq_iff who ip).0 same, (tracked_self ip reason has_db now s).0)
            (fail-IsTruthful ip reason has_db now clock past (lookup ip s.failed_tracker) k h)
      | inr other ↦
          rw (tracked_other who reason has_db now s ip other)
            (other-IsTruthful who ip reason has_db now clock past (lookup ip s.failed_tracker) k h)
    ]

failures_since_anti :
    (who : Text) (from from' : ℕ) (es : List Event)
    → from ≤ from'
    → failures_since who from' es ≤ failures_since who from es
unfolding failures_since
failures_since_anti who from from' [] h = omega arith
failures_since_anti who from from' (checks ip now ∷ es) h = failures_since_anti who from from' es h
failures_since_anti who from from' (fails ip reason has_db now ∷ es) h =
    ground (arith, failures_since_anti who from from' es h)

bans_counted :
    (now clock : ℕ) (ip : Text) (past : List Event) (o : Option FailedAttempt)
    → bans now o ≡ true
    → IsTruthful ip past clock o
    → 4 ≤ failures_since ip (now - track_duration) past
unfolding bans
bans_counted now clock ip past none b h = cc
bans_counted now clock ip past (some a) b h = ground (
  arith,
  h a refl,
  failures_since_anti ip (now - track_duration) a.first_fail past (ground arith),
)

-- In a history from the empty lists an address is banned by a failure only if at least four other
-- failures of it happened in the five minutes before.
pub ban_needs_failures :
    {past : List Event} {clock : ℕ} {s : BlockList} (ip reason : Text) (has_db : Bool) (now : ℕ)
    → Reached past clock s
    → (record_failed_attempt ip reason has_db now s).1 ≡ true
    → 4 ≤ failures_since ip (now - track_duration) past
ban_needs_failures {past} {clock} {s} ip reason has_db now r b =
    bans_counted now clock ip past (lookup ip s.failed_tracker)
      (sym (tracked_self ip reason has_db now s).1 ∙ b) (reached-IsTruthful ip r)

-- The entry of an address while it is being counted.
abbrev IsCounting : Text → ℕ → ℕ → BlockList → Type 0
IsCounting ip t n s =
    (a : FailedAttempt) × (lookup ip s.failed_tracker ≡ some a) × (a.first_fail ≡ t) × (a.count ≡ n)

next_counts :
    (ip : Text) (t n now : ℕ) (o : Option FailedAttempt) (a : FailedAttempt)
    → o ≡ some a
    → a.first_fail ≡ t
    → a.count ≡ n
    → n + 1 < max_failures
    → now ≤ t + track_duration
    → next_tracked now o ≡ some (next_attempt now a)
unfolding next_tracked
next_counts ip t n now none a e f c h k = cc
next_counts ip t n now (some b) a e f c h k = ground arith

since_same :
    (who ip reason : Text) (has_db : Bool) (t now : ℕ) (es : List Event)
    → text_eq who ip ≡ true
    → t ≤ now
    → failures_since ip t (fails who reason has_db now ∷ es) ≡ 1 + failures_since ip t es
unfolding failures_since
since_same who ip reason has_db t now es s h = ground arith

since_other :
    (who ip reason : Text) (has_db : Bool) (t now : ℕ) (es : List Event)
    → text_eq who ip ≡ false
    → failures_since ip t (fails who reason has_db now ∷ es) ≡ failures_since ip t es
unfolding failures_since
since_other who ip reason has_db t now es s = ground arith

count_up :
    (es : List Event) (s : BlockList) (ip : Text) (t n : ℕ)
    → IsCounting ip t n s
    → n + failures_since ip t es < max_failures
    → All (λ e. (t ≤ time_of e) × (time_of e ≤ t + track_duration)) es
    → IsCounting ip t (n + failures_since ip t es) (run s es)
unfolding run step failures_since
count_up [] s ip t n (a, e, f, c) h w = (a, e, f, omega arith)
count_up (checks who now ∷ es) s ip t n (a, e, f, c) h w =
    count_up es (is_ip_blocked who now s).0 ip t n (a, rw (check_tracker who now s) e, f, c) h w.1
count_up (fails who reason has_db now ∷ es) s ip t n (a, e, f, c) h w =
    let s' : BlockList = (record_failed_attempt who reason has_db now s).0 in
    elim (Bool-cases (text_eq who ip)) [
      | inl same ↦
          let one = since_same who ip reason has_db t now es same w.0.0 in
          let e' : lookup ip s'.failed_tracker ≡ some (next_attempt now a) =
            rw ((text_eq_iff who ip).0 same, (tracked_self ip reason has_db now s).0)
              (next_counts ip t n now (lookup ip s.failed_tracker) a e f c (omega (arith, one))
                w.0.1) in
          let (b, eb, fb, cb) =
            count_up es s' ip t (n + 1) (next_attempt now a, e', f, omega arith)
              (omega (arith, one)) w.1 in
          (b, eb, fb, omega (arith, one))
      | inr other ↦
          let same_ = since_other who ip reason has_db t now es other in
          let (b, eb, fb, cb) =
            count_up es s' ip t n (a, tracked_other who reason has_db now s ip other ∙ e, f, c)
              (omega (arith, same_)) w.1 in
          (b, eb, fb, omega (arith, same_))
    ]

fail_first :
    (now : ℕ) (o : Option FailedAttempt) → o ≡ none → next_tracked now o ≡ some (first_attempt now)
unfolding next_tracked
fail_first now none e = refl
fail_first now (some a) e = cc

fifth_bans :
    (now : ℕ) (o : Option FailedAttempt) (a : FailedAttempt)
    → o ≡ some a
    → now ≤ a.first_fail + track_duration
    → max_failures ≤ a.count + 1
    → bans now o ≡ true
unfolding bans
fifth_bans now none a e h k = cc
fifth_bans now (some b) a e h k = ground arith

-- An address that is not being tracked fails at `t`. If three more failures of it follow, among any
-- other events, and then another, all within five minutes of the first, the last one bans it.
pub fifth_failure_bans :
    (s : BlockList) (ip reason : Text) (has_db : Bool) (t now : ℕ) (es : List Event)
    → lookup ip s.failed_tracker ≡ none
    → All (λ e. (t ≤ time_of e) × (time_of e ≤ t + track_duration)) es
    → failures_since ip t es ≡ 3
    → now ≤ t + track_duration
    → (record_failed_attempt ip reason has_db now
        (run (record_failed_attempt ip reason has_db t s).0 es)).1
      ≡ true
fifth_failure_bans s ip reason has_db t now es e w three k =
    let s' : BlockList = (record_failed_attempt ip reason has_db t s).0 in
    let e' : lookup ip s'.failed_tracker ≡ some (first_attempt t) =
      (tracked_self ip reason has_db t s).0 ∙ fail_first t (lookup ip s.failed_tracker) e in
    let (a, ea, fa, ca) =
      count_up es s' ip t 1 (first_attempt t, e', refl, refl) (omega (arith, three)) w in
    (tracked_self ip reason has_db now (run s' es)).1
    ∙ fifth_bans now (lookup ip (run s' es).failed_tracker) a ea (omega arith) (omega arith)
