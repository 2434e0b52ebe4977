-- ===== src/Api/RateLimit/Burst.antt =====
-- internal/api/ratelimit.go: how many requests of one address pass within a window.
use omni_blob.Base.{◌⊎◌}
use omni_blob.Base.{◌∙◌}
use omni_blob.Base.{
  ℕ, ◌+◌, ◌≤◌, ◌<◌, ◌≡◌, refl, true, false, List, [], ◌∷◌, Option, none, some, Text, lookup,
  text_eq, text_eq_iff, lookup-insert, All, arith, if◌then◌else◌, Bool-cases, inl, inr,
}
use omni_blob.Api.RateLimit.{
  ClientRater, Limits, rate_window, admit, serve, admitted, visit, one_if,
}

-- No bucket holds more tokens than the limit.
abbrev pub IsBounded : ℕ → Limits → Type 0
IsBounded limit m = (ip : Text) (r : ClientRater) → lookup ip m ≡ some r → r.tokens ≤ limit

-- The bucket of an address was used at `t` or later and has at most `n` tokens.
abbrev UsedSince : Text → ℕ → ℕ → Limits → Type 0
UsedSince who t n m = (r : ClientRater) × (lookup who m ≡ some r) × (t ≤ r.last) × (r.tokens ≤ n)

lookup-admit :
    (limit : ℕ) (ip who : Text) (now : ℕ) (m : Limits)
    → lookup who (admit limit ip now m).0
      ≡ (if text_eq ip who then some (visit limit now (lookup who m)).0 else lookup who m)
unfolding admit
lookup-admit limit ip who now m =
    ground (arith, text_eq_iff ip who, lookup-insert ip who (visit limit now (lookup ip m)).0 m)

visit-le :
    (limit now : ℕ) (o : Option ClientRater)
    → ((r : ClientRater) → o ≡ some r → r.tokens ≤ limit)
    → (visit limit now o).0.tokens ≤ limit
unfolding visit
visit-le limit now none h = omega arith
visit-le limit now (some r) h = ground (arith, h r refl)

admit-IsBounded :
    (limit : ℕ) (ip : Text) (now : ℕ) (m : Limits)
    → IsBounded limit m
    → IsBounded limit (admit limit ip now m).0
admit-IsBounded limit ip now m h who r e =
    ground
      (arith, lookup-admit limit ip who now m, visit-le limit now (lookup who m) (h who), h who r)

-- Whatever has been served, no bucket exceeds the limit.
pub serve-IsBounded :
    (limit : ℕ) (rs : List (Text × ℕ)) (m : Limits)
    → IsBounded limit m
    → IsBounded limit (serve limit rs m)
unfolding serve
serve-IsBounded limit [] m h = h
serve-IsBounded limit ((ip, now) ∷ rs) m h =
    serve-IsBounded limit rs (admit limit ip now m).0 (admit-IsBounded limit ip now m h)

-- The requests come within one window that starts at `t`.
abbrev pub Within : ℕ → ℕ → List (Text × ℕ) → Type 0
Within t w rs = All (λ q. (t ≤ q.1) × (q.1 ≤ t + w)) rs

-- Once a bucket has been used in the window it is not filled again there.
visit_spends :
    (limit now t : ℕ) (r : ClientRater)
    → t ≤ r.last
    → t ≤ now
    → now ≤ t + rate_window
    → ((visit limit now (some r)).0.tokens + one_if (visit limit now (some r)).1 ≡ r.tokens)
      × (t ≤ (visit limit now (some r)).0.last)
unfolding visit
visit_spends limit now t r h k w = (ground arith, ground arith)

passed-admit :
    (limit : ℕ) (ip who : Text) (now : ℕ) (m : Limits)
    → text_eq ip who ≡ true
    → (admit limit ip now m).1 ≡ (visit limit now (lookup who m)).1
unfolding admit
passed-admit limit ip who now m h = rw ((text_eq_iff ip who).0 h)

module _ (limit : ℕ) (who : Text) (t : ℕ) where
  admitted_used :
      (rs : List (Text × ℕ)) (m : Limits) (r : ClientRater)
      → lookup who m ≡ some r
      → t ≤ r.last
      → Within t rate_window rs
      → admitted limit who rs m ≤ r.tokens
  unfolding admitted
  admitted_used [] m r e u w = omega arith
  admitted_used ((ip, now) ∷ rs) m r e u w = elim (Bool-cases (text_eq ip who)) [
    | inl same ↦
        let r' : ClientRater = (visit limit now (some r)).0 in
        let e' : lookup who (admit limit ip now m).0 ≡ some r' =
          lookup-admit limit ip who now m ∙ rw (same, e) in
        let s = visit_spends limit now t r u w.0.0 w.0.1 in
        let rest = admitted_used rs (admit limit ip now m).0 r' e' s.1 w.1 in
        rw (same, passed-admit limit ip who now m same, e) (omega (arith, s.0, rest))
    | inr other ↦
        let e' : lookup who (admit limit ip now m).0 ≡ some r =
          lookup-admit limit ip who now m ∙ rw (other, e) in
        rw other (omega (arith, admitted_used rs (admit limit ip now m).0 r e' u w.1))
  ]

  -- A request that is let through in the window leaves at most `limit - 1` tokens; one that is not
  -- leaves none.
  visit_first :
      (now : ℕ) (o : Option ClientRater)
      → 0 < limit
      → ((r : ClientRater) → o ≡ some r → r.tokens ≤ limit)
      → t ≤ now
      → ((visit limit now o).1 ≡ true)
          × ((visit limit now o).0.tokens + 1 ≤ limit)
          × (t ≤ (visit limit now o).0.last)
        ⊎ ((visit limit now o).1 ≡ false)
  unfolding visit
  visit_first now none p h k = ground arith
  visit_first now (some r) p h k = ground (arith, h r refl)

  -- In any window an address gets at most `limit` requests through, whatever was served before and
  -- whatever other addresses do in between.
  pub admitted_burst :
      (rs : List (Text × ℕ)) (m : Limits)
      → 0 < limit
      → IsBounded limit m
      → Within t rate_window rs
      → admitted limit who rs m ≤ limit
  unfolding admitted
  admitted_burst [] m p b w = omega arith
  admitted_burst ((ip, now) ∷ rs) m p b w =
      let m' : Limits = (admit limit ip now m).0 in
      let later = admitted_burst rs m' p (admit-IsBounded limit ip now m b) w.1 in
      elim (Bool-cases (text_eq ip who)) [
        | inl same ↦ elim (visit_first now (lookup who m) p (b who) w.0.0) [
          | inl (yes_, left, used) ↦
              rw (same, passed-admit limit ip who now m same, yes_)
                (omega (
                  arith,
                  left,
                  admitted_used rs m' (visit limit now (lookup who m)).0
                      (lookup-admit limit ip who now m ∙ rw same) used w.1,
                ))
          | inr no_ ↦ rw (same, passed-admit limit ip who now m same, no_) (omega (arith, later))
        ]
        | inr other ↦ rw other (omega (arith, later))
      ]

-- After any history from the empty table, the requests of one address that come within one window
-- of 60 seconds get through at most `limit` times, for a positive limit.
pub window_bound :
    (limit : ℕ) (who : Text) (t : ℕ) (before rs : List (Text × ℕ))
    → 0 < limit
    → Within t rate_window rs
    → admitted limit who rs (serve limit before []) ≤ limit
unfolding lookup
window_bound limit who t before rs p w =
    admitted_burst limit who t rs (serve limit before []) p
      (serve-IsBounded limit before [] (λ ip r e. cc)) w
