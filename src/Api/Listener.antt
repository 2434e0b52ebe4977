-- ===== src/Api/Listener.antt =====
-- internal/api/listener.go: the listener that drops connections from addresses that are not listed.
-- Networks in IPv6 notation are a parameter.
pub mod Denials
use omni_blob.Base.{
  ℕ, zero, suc, ◌+◌, ◌-◌, ◌*◌, ◌/◌, ◌%◌, ◌^◌, ◌≤◌, ◌<◌, String, ◌≡◌, refl, sym, ap, ◌∙◌, fun_ext,
  ◌≢◌, ◌↔◌, ◌⊎◌, inl, inr, Bool, true, false, ◌&&◌, ◌||◌, not, Option, none, some, List, [], ◌∷◌,
  ◌++◌, map, reverse, arith, ltb, leb, ◌==◌, if◌then◌else◌, ltb→lt, lt→ltb, leb→le, ==_iff, tests,
  Bool-cases, Option-cases, length, length-append, take, keep_if, any_of, all_of, head_of, All, Any,
  length-keep_if-le, keep_if-append, All-append, Text, codes, text_eq, text_eq_iff, text_eq_refl,
  text_eq-common, is_empty, or_else, has_prefix, has_prefix-append, has_prefix-common,
  has_prefix_self, has_prefix-map, trim_prefix, has_byte, contains, has_byte-append, drop_while,
  trim_if, is_space, trim_space, lower_byte, to_lower, cons_head, split_on, first_piece, cons_cut,
  cut, digits_fuel, decimal, decimal-digits, decimal-given, contains_text, Assoc, lookup, insert,
  delete, lookup-insert, lookup-delete, delete-insert, is_digit, digits_value, digits_value-decimal,
}
use omni_blob.FilePath.{slash}
use omni_blob.Config.{SecurityConfig}
use omni_blob.Net.{parse_ip, cidr_contains}
use omni_blob.Storage.{Hash}
use omni_blob.Audit.{Json, AuditLogger, log_connection}

unfoldable pub rule_matches : (Text → ℕ → Bool) → Text → ℕ → Text → Bool
rule_matches cidr6 ip n rule =
    if has_byte slash rule then cidr_contains cidr6 rule n else text_eq ip rule

-- isIPAllowed
unfoldable pub is_ip_allowed : (Text → ℕ → Bool) → Text → List Text → Bool
unfolding rule_matches
is_ip_allowed cidr6 ip [] = true
is_ip_allowed cidr6 ip (r ∷ rs) = elim (parse_ip ip) [
  | none ↦ false
  | some n ↦ any_of (rule_matches cidr6 ip n) (r ∷ rs)
]

-- What the inner Accept gives: the remote address of a connection, or an error. `time` and `written`
-- are for the log: the time of the entry, and whether its line is written.
pub record Incoming : Type 0 where
  pub remote : Option Text
  pub time : Text
  pub written : Bool

-- What Accept gives; `waiting` where no further connection has come in.
pub data Accepted : Type 0 where
  connection : Text → Accepted
  accept_error : Accepted
  waiting : Accepted

abbrev pub direct_socket : Text
direct_socket = codes "direct_socket"

-- A connection that is dropped.
unfoldable pub is_denied : (Text → ℕ → Bool) → SecurityConfig → Text → Bool
unfolding is_ip_allowed
is_denied cidr6 cfg remote =
    text_eq cfg.mode direct_socket
    && not (is_ip_allowed cidr6 (first_piece (split_on b':' remote)) cfg.allowed_socket_ips)

module _ (sha : Hash) (json : Json) (cidr6 : Text → ℕ → Bool) (cfg : SecurityConfig) where
  unfoldable pub log_denied : Incoming → Text → AuditLogger → AuditLogger
  log_denied i remote a =
      (log_connection sha json i.written i.time remote (codes "N/A (Dropped at TCP Layer)")
        (codes "DENIED") (codes "denied: direct socket access attempted from untrusted IP") a).0

  -- Accept, on the connections that come in: what it gives, those that are left, and the log.
  unfoldable pub accept : List Incoming → AuditLogger → AuditLogger × Accepted × List Incoming
  unfolding log_denied is_denied
  accept [] a = (a, waiting, [])
  accept (i ∷ is) a = elim i.remote [
    | none ↦ (a, accept_error, is)
    | some remote ↦ elim (is_denied cidr6 cfg remote) [
      | true ↦ accept is (log_denied i remote a)
      | false ↦ (a, connection remote, is)
    ]
  ]
