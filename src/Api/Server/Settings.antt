-- ===== src/Api/Server/Settings.antt =====
-- internal/api/server.go: the bounds of the server's settings.
use omni_blob.Base.{
  ℕ, zero, suc, ◌-◌, ◌*◌, ◌%◌, ◌^◌, ◌<◌, ◌≡◌, refl, ap, ◌∙◌, inl, inr, true, arith, ltb, ltb→lt,
  Bool-cases, ℤ, negate, pos, negsuc,
}
use omni_blob.Config.{ServerConfig, SecurityConfig}
use omni_blob.Api.Server.{nanoseconds, wrap, positive_or, int64_product, read_timeout, new_server}

-- A positive number of a signed 64-bit word.
abbrev pub InWord : ℕ → Type 0
InWord n = (0 < n) × (n < 2 ^ 63)

positive_or-pos : (d n : ℕ) → InWord d → n < 2 ^ 63 → InWord (positive_or d (pos n))
positive_or-pos d zero w b = w
positive_or-pos d (suc n) w b = omega arith

positive_or-negate : (d n : ℕ) → InWord d → InWord (positive_or d (negate n))
positive_or-negate d zero w = w
positive_or-negate d (suc n) w = w

positive_or-wrap : (d n : ℕ) → InWord d → n < 2 ^ 64 → InWord (positive_or d (wrap n))
positive_or-wrap d n w b = elim (Bool-cases (ltb n (2 ^ 63))) [
  | inl e ↦ rw e (positive_or-pos d n w (ltb→lt n (2 ^ 63) e))
  | inr e ↦ rw e (positive_or-negate d (2 ^ 64 - n) w)
]

positive_or-product : (d k : ℕ) (z : ℤ) → InWord d → InWord (positive_or d (int64_product z k))
unfolding int64_product
positive_or-product d k (pos n) w = positive_or-wrap d (n * k % 2 ^ 64) w (omega arith)
positive_or-product d k (negsuc n) w =
    positive_or-wrap d ((2 ^ 64 - (suc n * k) % 2 ^ 64) % 2 ^ 64) w (omega arith)

positive_or-given : (d m : ℕ) → 0 < m → positive_or d (pos m) ≡ m
positive_or-given d zero p = absurd (omega arith)
positive_or-given d (suc m) p = refl

pub wrap-small : (m : ℕ) → m < 2 ^ 63 → wrap (m % 2 ^ 64) ≡ pos m
wrap-small m b =
    let e : m % 2 ^ 64 ≡ m = omega arith in
    let s : ltb m (2 ^ 63) ≡ true = ground arith in rw (e, s) refl

-- A number of seconds whose nanoseconds fit into the word is kept.
product_exact :
    (d n : ℕ)
    → n < 9223372036
    → positive_or d (int64_product (pos (suc n)) nanoseconds) ≡ suc n * nanoseconds
unfolding int64_product
product_exact d n b =
    ap (positive_or d) (wrap-small (suc n * nanoseconds) (omega arith))
    ∙ positive_or-given d (suc n * nanoseconds) (omega arith)

-- The read timeout of NewServer is a positive 64-bit duration whatever is configured, also where the
-- product with a second overflows, and is the configured number of seconds where that is positive
-- and its nanoseconds fit into 64 bits.
pub read_timeout_lem :
    (cfg : ServerConfig) (sec : SecurityConfig)
    → InWord (new_server cfg sec).read_timeout
      × ((n : ℕ)
          → cfg.read_timeout_sec ≡ pos (suc n)
          → n < 9223372036
          → (new_server cfg sec).read_timeout ≡ suc n * nanoseconds)
unfolding new_server read_timeout
read_timeout_lem cfg sec = (
  positive_or-product (30 * nanoseconds) nanoseconds cfg.read_timeout_sec (omega arith),
  λ n e b. rw e (product_exact (30 * nanoseconds) n b),
)
