-- ===== src/Api/RateLimit.antt =====
-- internal/api/ratelimit.go: a bucket of tokens for each client address.
pub mod Burst
pub mod Replies
use omni_blob.Base.{
  ℕ, zero, suc, ◌+◌, ◌-◌, ◌*◌, ◌≤◌, ◌<◌, ◌≡◌, refl, Bool, true, false, List, [], ◌∷◌, Option, none,
  some, Text, Assoc, lookup, insert, text_eq, ltb, ◌==◌, if◌then◌else◌,
}
use omni_blob.Http.{Request, client_ip}

pub record ClientRater : Type 0 where
  pub tokens : ℕ
  pub last : ℕ

abbrev pub Limits : Type 0
Limits = Assoc ClientRater

-- In nanoseconds.
abbrev pub rate_window : ℕ
rate_window = 60 * 1000000000

abbrev pub default_rate_limit : ℕ
default_rate_limit = 100

-- `limit <= 0` gives the default; 0 stands for every such setting.
unfoldable pub effective_limit : ℕ → ℕ
effective_limit zero = default_rate_limit
effective_limit (suc n) = suc n

unfoldable pub replenish : ℕ → ℕ → ClientRater → ClientRater
replenish limit now r = if ltb rate_window (now - r.last) then record r { tokens = limit } else r

-- A token is taken, or the request is refused.
unfoldable pub spend : ℕ → ClientRater → ClientRater × Bool
spend now r =
    if ltb 0 r.tokens then (record { tokens = r.tokens - 1; last = now }, true) else (r, false)

unfoldable pub visit : ℕ → ℕ → Option ClientRater → ClientRater × Bool
unfolding replenish spend
visit limit now none = (record { tokens = limit - 1; last = now }, true)
visit limit now (some r) = spend now (replenish limit now r)

unfoldable pub admit : ℕ → Text → ℕ → Limits → Limits × Bool
admit limit ip now m = let (r, passed) = visit limit now (lookup ip m) in (insert ip r m, passed)

-- The middleware: `none` where the request goes on, or the status that is answered.
unfoldable pub rate_limit : ℕ → ℕ → Request → Limits → Limits × Option ℕ
rate_limit rpm now r m =
    let (m', passed) = admit (effective_limit rpm) (client_ip r) now m in
    (m', if passed then none else some 429)

-- Requests as they come: the address and the time of each.
unfoldable pub serve : ℕ → List (Text × ℕ) → Limits → Limits
serve limit [] m = m
serve limit ((ip, now) ∷ rest) m = serve limit rest (admit limit ip now m).0

abbrev pub one_if : Bool → ℕ
one_if true = 1
one_if false = 0

-- How many of the requests of one address are let through.
unfoldable pub admitted : ℕ → Text → List (Text × ℕ) → Limits → ℕ
admitted limit who [] m = 0
admitted limit who ((ip, now) ∷ rest) m =
    (if text_eq ip who then one_if (admit limit ip now m).1 else 0)
    + admitted limit who rest (admit limit ip now m).0
