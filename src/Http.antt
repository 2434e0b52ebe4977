-- ===== src/Http.antt =====
-- What the handlers read of an HTTP request (net/http), and the statuses that they answer.
use omni_blob.Base.{
  ℕ, ◌-◌, ◌≡◌, refl, Bool, true, ◌&&◌, [], ◌∷◌, Option, none, some, Text, Assoc, String, codes,
  lookup, leb, ◌==◌, if◌then◌else◌, lower_byte, split_on, first_piece, or_else,
}

pub record Request : Type 0 where
  pub method : Text
  pub url_path : Text
  pub bucket : Text
  pub headers : Assoc Text
  pub query : Assoc Text
  pub form : Assoc Text
  pub basic_auth : Option (Text × Text)
  pub remote_addr : Text

abbrev pub or_blank : Option Text → Text
or_blank none = []
or_blank (some t) = t

abbrev upper_byte : ℕ → ℕ
upper_byte c = if leb b'a' c && leb c b'z' then c - 32 else c

-- textproto.CanonicalMIMEHeaderKey: upper case at the start and after a dash. The headers of a
-- request are kept under such keys.
canonical_from : Bool → Text → Text
canonical_from up [] = []
canonical_from up (c ∷ s) =
    (if up then upper_byte c else lower_byte c) ∷ canonical_from (c == b'-') s

unfoldable pub canonical : Text → Text
unfolding canonical_from
canonical s = canonical_from true s

-- r.Header.Get, r.URL.Query().Get and r.FormValue: the empty text where nothing is given.
unfoldable pub header : Request → String → Text
header r name = or_blank (lookup (canonical (codes name)) r.headers)

unfoldable pub query_value : Request → String → Text
query_value r name = or_blank (lookup (codes name) r.query)

unfoldable pub form_value : Request → String → Text
form_value r name = or_blank (lookup (codes name) r.form)

-- The address that the rate limiter and the authentication take for the client's.
unfoldable pub client_ip : Request → Text
client_ip r =
    or_else (header r "X-Real-IP")
      (or_else (header r "X-Forwarded-For") (first_piece (split_on b':' r.remote_addr)))

canonical_key : canonical (codes "X-API-KEY") ≡ codes "X-Api-Key"
unfolding canonical
canonical_key = refl
