-- ===== src/Api/BlockList/Bans.antt =====
-- internal/api/blocklist.go: histories of checks and failures, and how long a ban stands.
use omni_blob.Base.{
  ℕ, ◌+◌, ◌≤◌, ◌<◌, ◌≡◌, ◌∙◌, inl, inr, Bool, true, ◌&&◌, Option, some, List, [], ◌∷◌, arith,
  if◌then◌else◌, Bool-cases, All, Text, text_eq, text_eq_iff, text_eq_refl, lookup, lookup-insert,
  lookup-delete,
}
use omni_blob.Api.BlockList.{BlockList, ban_duration, is_ip_blocked, record_failed_attempt}

-- What happens to the list: a check of an address or a failure of one, at a time.
pub data Event : Type 0 where
  checks : Text → ℕ → Event
  fails : Text → Text → Bool → ℕ → Event

abbrev pub time_of : Event → ℕ
time_of (checks ip now) = now
time_of (fails ip reason has_db now) = now

unfoldable pub step : BlockList → Event → BlockList
step s (checks ip now) = (is_ip_blocked ip now s).0
step s (fails ip reason has_db now) = (record_failed_attempt ip reason has_db now s).0

unfoldable pub run : BlockList → List Event → BlockList
unfolding step
run s [] = s
run s (e ∷ es) = run (step s e) es

-- The address is banned until `until` at least.
abbrev pub IsBannedTo : Text → ℕ → BlockList → Type 0
IsBannedTo ip until s = (expiry : ℕ) × (lookup ip s.ban_list ≡ some expiry) × (until ≤ expiry)

abbrev ban_after_fail : Text → ℕ → BlockList → Bool → Option ℕ
ban_after_fail who now s b = if b then some (now + ban_duration) else lookup who s.ban_list

record_ban_list :
    (ip reason : Text) (has_db : Bool) (now : ℕ) (s : BlockList) (who : Text)
    → lookup who (record_failed_attempt ip reason has_db now s).0.ban_list ≡ (
        if (record_failed_attempt ip reason has_db now s).1 && text_eq ip who
        then some (now + ban_duration)
        else lookup who s.ban_list)
unfolding record_failed_attempt
record_ban_list ip reason has_db now s who =
    ground (arith, lookup-insert ip who (now + ban_duration) s.ban_list)

check_ban_list :
    (ip who : Text) (now expiry : ℕ) (s : BlockList)
    → lookup who s.ban_list ≡ some expiry
    → now < expiry
    → lookup who (is_ip_blocked ip now s).0.ban_list ≡ some expiry
unfolding is_ip_blocked
check_ban_list ip who now expiry s e h =
    ground (arith, text_eq_iff ip who, lookup-delete ip who s.ban_list)

pub step-IsBannedTo :
    (s : BlockList) (e : Event) (ip : Text) (t : ℕ)
    → IsBannedTo ip (t + ban_duration) s
    → t ≤ time_of e
    → time_of e < t + ban_duration
    → IsBannedTo ip (t + ban_duration) (step s e)
unfolding step
step-IsBannedTo s (checks who now) ip t (expiry, l, h) a b =
    (expiry, check_ban_list who ip now expiry s l (omega arith), h)
step-IsBannedTo s (fails who reason has_db now) ip t (expiry, l, h) a b =
    let r = record_ban_list who reason has_db now s ip in
    elim (Bool-cases ((record_failed_attempt who reason has_db now s).1 && text_eq who ip)) [
      | inl c ↦ (now + ban_duration, r ∙ rw c, omega arith)
      | inr c ↦ (expiry, r ∙ rw c l, h)
    ]

run-IsBannedTo :
    (es : List Event) (s : BlockList) (ip : Text) (t : ℕ)
    → IsBannedTo ip (t + ban_duration) s
    → All (λ e. (t ≤ time_of e) × (time_of e < t + ban_duration)) es
    → IsBannedTo ip (t + ban_duration) (run s es)
unfolding run
run-IsBannedTo [] s ip t h w = h
run-IsBannedTo (e ∷ es) s ip t h w =
    run-IsBannedTo es (step s e) ip t (step-IsBannedTo s e ip t h w.0.0 w.0.1) w.1

pub banned_blocked :
    (s : BlockList) (ip : Text) (t now : ℕ)
    → IsBannedTo ip t s
    → now < t
    → (is_ip_blocked ip now s).1 ≡ true
unfolding is_ip_blocked
banned_blocked s ip t now (expiry, l, h) b = ground arith

pub just_banned :
    (s : BlockList) (ip reason : Text) (has_db : Bool) (t : ℕ)
    → (record_failed_attempt ip reason has_db t s).1 ≡ true
    → IsBannedTo ip (t + ban_duration) (record_failed_attempt ip reason has_db t s).0
just_banned s ip reason has_db t h = (
  t + ban_duration,
  record_ban_list ip reason has_db t s ip ∙ rw (h, text_eq_refl ip),
  omega arith,
)

-- Once a failure at `t` has banned an address, every check of it in the next 30 minutes finds it
-- blocked, whatever checks and failures of any addresses come between in that time.
pub ban_lasts :
    (s : BlockList) (ip reason : Text) (has_db : Bool) (t now : ℕ) (es : List Event)
    → (record_failed_attempt ip reason has_db t s).1 ≡ true
    → All (λ e. (t ≤ time_of e) × (time_of e < t + ban_duration)) es
    → now < t + ban_duration
    → (is_ip_blocked ip now (run (record_failed_attempt ip reason has_db t s).0 es)).1 ≡ true
ban_lasts s ip reason has_db t now es h w b =
    banned_blocked (run (record_failed_attempt ip reason has_db t s).0 es) ip (t + ban_duration) now
      (run-IsBannedTo es (record_failed_attempt ip reason has_db t s).0 ip t
        (just_banned s ip reason has_db t h) w)
      b
