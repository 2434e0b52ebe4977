-- ===== src/Api/RateLimit/Replies.antt =====
-- internal/api/ratelimit.go: the answers of the middleware, by client.
use omni_blob.Base.{
  ℕ, zero, suc, ◌-◌, ◌≤◌, ◌<◌, ◌≡◌, refl, ◌≢◌, ◌↔◌, false, Option, none, some, arith, Text,
  text_eq_iff, lookup, lookup-insert,
}
use omni_blob.Http.{Request, client_ip}
use omni_blob.Api.RateLimit.{
  ClientRater, Limits, rate_window, effective_limit, admit, visit, rate_limit,
}

effective_limit_pos : (rpm : ℕ) → 0 < effective_limit rpm
unfolding effective_limit
effective_limit_pos zero = omega arith
effective_limit_pos (suc n) = omega arith

abbrev IsSpent : ℕ → Option ClientRater → Type 0
IsSpent now o = (b : ClientRater) × (o ≡ some b) × (b.tokens ≡ 0) × (now - b.last ≤ rate_window)

visit_refuses :
    (limit now : ℕ) (o : Option ClientRater)
    → 0 < limit
    → (visit limit now o).1 ≡ false
    → IsSpent now o
unfolding visit
visit_refuses limit now none p h = cc
visit_refuses limit now (some b) p h = (b, refl, ground arith, ground arith)

spent_refused :
    (limit now : ℕ) (o : Option ClientRater) → IsSpent now o → (visit limit now o).1 ≡ false
unfolding visit
spent_refused limit now none (b, e, h, k) = cc
spent_refused limit now (some b) (c, e, h, k) = ground arith

-- A request is answered 429 exactly when the address has a bucket with no token left whose last
-- accepted request is at most a window ago; otherwise it goes on.
pub rate_limit-refuses_iff :
    (rpm now : ℕ) (r : Request) (m : Limits)
    → ((rate_limit rpm now r m).1 ≡ some 429) ↔ (
        (b : ClientRater) × (lookup (client_ip r) m ≡ some b)
        × (b.tokens ≡ 0)
        × (now - b.last ≤ rate_window))
unfolding rate_limit admit
rate_limit-refuses_iff rpm now r m = (
  λ h.
      visit_refuses (effective_limit rpm) now (lookup (client_ip r) m) (effective_limit_pos rpm)
        (ground arith),
  λ h. rw (spent_refused (effective_limit rpm) now (lookup (client_ip r) m) h),
)

-- A request changes the bucket of its own address only.
pub rate_limit_isolates :
    (rpm now : ℕ) (r : Request) (m : Limits) (who : Text)
    → who ≢ client_ip r
    → lookup who (rate_limit rpm now r m).0 ≡ lookup who m
unfolding rate_limit admit
rate_limit_isolates rpm now r m who h = ground (
  arith,
  text_eq_iff (client_ip r) who,
  lookup-insert (client_ip r) who (visit (effective_limit rpm) now (lookup (client_ip r) m)).0 m,
)
