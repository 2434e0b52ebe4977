-- ===== src/Api/Server.antt =====
-- internal/api/server.go: the settings of the HTTP server, its certificate files, and its start. The
-- key generation, the PEM encoding and net/http's serving are outside; whether they succeed is given.
pub mod Settings
pub mod Certificates
use omni_blob.Base.{
  ℕ, zero, suc, ◌+◌, ◌-◌, ◌*◌, ◌/◌, ◌%◌, ◌^◌, ◌≤◌, ◌<◌, String, ◌≡◌, refl, sym, ap, ◌∙◌, fun_ext,
  ◌≢◌, ◌↔◌, ◌⊎◌, inl, inr, Bool, true, false, ◌&&◌, ◌||◌, not, Option, none, some, List, [], ◌∷◌,
  ◌++◌, map, reverse, arith, ltb, leb, ◌==◌, if◌then◌else◌, ltb→lt, lt→ltb, leb→le, ==_iff, tests,
  Bool-cases, Option-cases, length, length-append, take, keep_if, any_of, all_of, head_of, All, Any,
  length-keep_if-le, keep_if-append, All-append, Text, codes, text_eq, text_eq_iff, text_eq_refl,
  text_eq-common, is_empty, or_else, has_prefix, has_prefix-append, has_prefix-common,
  has_prefix_self, has_prefix-map, trim_prefix, has_byte, contains, has_byte-append, drop_while,
  trim_if, is_space, trim_space, lower_byte, to_lower, cons_head, split_on, first_piece, cons_cut,
  cut, digits_fuel, decimal, decimal-digits, decimal-given, contains_text, Assoc, lookup, insert,
  delete, lookup-insert, lookup-delete, delete-insert, is_digit, digits_value, digits_value-decimal,
  ℤ, negate, is_positive, magnitude, signed_within, atoi, pos, negsuc,
}
use omni_blob.Config.{ServerConfig, SecurityConfig}
use omni_blob.Storage.{Hash}
use omni_blob.Audit.{Json, AuditLogger}
use omni_blob.Api.Listener.{
  Incoming, Accepted, connection, accept_error, waiting, direct_socket, accept,
}

-- A product in 64 bits, as a signed number.
abbrev pub wrap : ℕ → ℤ
wrap n = if ltb n (2 ^ 63) then pos n else negate (2 ^ 64 - n)

unfoldable pub int64_product : ℤ → ℕ → ℤ
int64_product (pos n) k = wrap (n * k % 2 ^ 64)
int64_product (negsuc n) k = wrap ((2 ^ 64 - (suc n * k) % 2 ^ 64) % 2 ^ 64)

abbrev pub nanoseconds : ℕ
nanoseconds = 1000000000

-- A duration that is not positive becomes 30 seconds.
abbrev pub positive_or : ℕ → ℤ → ℕ
positive_or d (pos zero) = d
positive_or d (pos (suc n)) = suc n
positive_or d (negsuc n) = d

unfoldable pub read_timeout : ServerConfig → ℕ
unfolding int64_product
read_timeout cfg = positive_or (30 * nanoseconds) (int64_product cfg.read_timeout_sec nanoseconds)

unfoldable pub server_port : ServerConfig → ℕ
server_port cfg = positive_or 8443 cfg.port

unfoldable pub server_addr : ServerConfig → Text
unfolding server_port
server_addr cfg = or_else cfg.host (codes "0.0.0.0") ++ (b':' ∷ decimal (server_port cfg))

pub record Server : Type 0 where
  pub addr : Text
  pub read_timeout : ℕ
  pub write_timeout : ℕ
  pub idle_timeout : ℕ
  pub security : SecurityConfig
  pub tls_enabled : Bool

-- NewServer; times are in nanoseconds.
unfoldable pub new_server : ServerConfig → SecurityConfig → Server
unfolding read_timeout server_addr
new_server cfg sec = record {
  addr = server_addr cfg;
  read_timeout = read_timeout cfg;
  write_timeout = 0;
  idle_timeout = 120 * nanoseconds;
  security = sec;
  tls_enabled = cfg.tls_enabled;
}

-- server.crt or server.key in the working directory: absent, created and not completely written, or
-- whole.
pub data PemFile : Type 0 where
  absent partial whole : PemFile

pub record CertFiles : Type 0 where
  pub cert : PemFile
  pub key : PemFile

-- Which of the steps succeed.
pub record CertLuck : Type 0 where
  pub key_made : Bool
  pub cert_made : Bool
  pub cert_created : Bool
  pub cert_encoded : Bool
  pub key_created : Bool
  pub key_marshalled : Bool
  pub key_encoded : Bool

abbrev pub present : PemFile → Bool
present absent = false
present partial = true
present whole = true

abbrev file_of : Bool → PemFile
file_of true = whole
file_of false = partial

-- From the creation of server.key on: os.Create empties a file that is there.
unfoldable pub write_key : CertLuck → CertFiles → CertFiles × Bool
write_key l fs =
    if not l.key_created
    then (fs, false)
    else if not l.key_marshalled
    then (record fs { key = partial }, false)
    else (record fs { key = file_of l.key_encoded }, l.key_encoded)

unfoldable pub write_cert : CertLuck → CertFiles → CertFiles × Bool
unfolding write_key
write_cert l fs =
    if not l.cert_created
    then (fs, false)
    else if not l.cert_encoded
    then (record fs { cert = partial }, false)
    else write_key l (record fs { cert = whole })

-- generateSelfSignedCert; `false` for an error.
unfoldable pub generate_self_signed_cert : CertLuck → CertFiles → CertFiles × Bool
unfolding write_cert
generate_self_signed_cert l fs =
    if present fs.cert && present fs.key
    then (fs, true)
    else if not l.key_made || not l.cert_made
    then (fs, false)
    else write_cert l fs

-- How Start ends: an error of its own steps, an error of serving, or none, as after a shutdown.
pub data StartResult : Type 0 where
  listen_failed cert_failed serve_failed stopped : StartResult

-- `served` is true where Serve ends with http.ErrServerClosed.
unfoldable pub start : Server → Bool → CertLuck → Bool → CertFiles → CertFiles × StartResult
unfolding generate_self_signed_cert
start s listens l served fs =
    let (fs', made) = generate_self_signed_cert l fs in
    if not listens
    then (fs, listen_failed)
    else if not s.tls_enabled
    then (fs, if served then stopped else serve_failed)
    else if made
    then (fs', if served then stopped else serve_failed)
    else (fs', cert_failed)

-- The listener that Start serves: the connections that net/http gets.
unfoldable pub next_connection :
    Hash
    → Json
    → (Text → ℕ → Bool)
    → Server
    → List Incoming
    → AuditLogger
    → AuditLogger × Accepted × List Incoming
next_connection sha json cidr6 s pending a =
    if s.security.enabled && text_eq s.security.mode direct_socket
    then accept sha json cidr6 s.security pending a
    else elim pending [
      | [] ↦ (a, waiting, [])
      | i ∷ is ↦ (a, elim i.remote [ none ↦ accept_error | some r ↦ connection r ], is)
    ]
