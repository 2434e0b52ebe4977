-- ===== src/Api/Listener/Denials.antt =====
-- internal/api/listener.go: which connections Accept drops and what it logs of them.
use omni_blob.Base.{
  ℕ, ◌+◌, ◌≡◌, refl, ap, ◌∙◌, ◌≢◌, inl, inr, Bool, true, false, none, some, List, [], ◌∷◌, ◌++◌,
  map, arith, Bool-cases, Option-cases, length, All, Text, codes, text_eq_iff, cons_head, split_on,
  first_piece, digits_value,
}
use omni_blob.Config.{SecurityConfig}
use omni_blob.Net.{parse_ip, octet, quad}
use omni_blob.Storage.{Hash}
use omni_blob.Audit.{Json, AuditLogger, log_connection}
use omni_blob.Audit.Chain.{IsChain, log_connection-IsChain}
use omni_blob.Api.Listener.{
  Incoming, Accepted, connection, accept_error, waiting, direct_socket, is_denied, is_ip_allowed,
  log_denied, accept,
}

abbrev one_if : Bool → ℕ
one_if true = 1
one_if false = 0

module _ (sha : Hash) (json : Json) (cidr6 : Text → ℕ → Bool) (cfg : SecurityConfig) where
  -- A connection that came in from an address that is denied.
  abbrev pub IsDropped : Incoming → Type 0
  IsDropped i = (r : Text) × (i.remote ≡ some r) × (is_denied cidr6 cfg r ≡ true)

  -- What is left when Accept stops: nothing, an error, or a connection that is not denied.
  abbrev pub Stops : List Incoming → Accepted → List Incoming → Type 0
  Stops tail waiting rest = (tail ≡ []) × (rest ≡ [])
  Stops tail accept_error rest = (i : Incoming) × (tail ≡ i ∷ rest) × (i.remote ≡ none)
  Stops tail (connection r) rest =
      (i : Incoming) × (tail ≡ i ∷ rest) × (i.remote ≡ some r) × (is_denied cidr6 cfg r ≡ false)

  abbrev pub written_of : List Incoming → ℕ
  written_of [] = 0
  written_of (i ∷ is) = one_if i.written + written_of is

  -- The connections that were dropped before, each with a line in the log where it is written.
  abbrev pub Outcome :
      List Incoming → AuditLogger → (AuditLogger × Accepted × List Incoming) → Type 0
  Outcome pending a (b, out, rest) =
      (dropped : List Incoming) × (tail : List Incoming) × (pending ≡ dropped ++ tail)
      × All IsDropped dropped
      × Stops tail out rest
      × (length b.lines ≡ length a.lines + written_of dropped)

  length-log_denied :
      (i : Incoming) (r : Text) (a : AuditLogger)
      → length (log_denied sha json cidr6 cfg i r a).lines ≡ length a.lines + one_if i.written
  unfolding log_denied log_connection
  length-log_denied i r a = ground arith

  step-Outcome :
      (i : Incoming) (r : Text) (is : List Incoming) (a : AuditLogger)
      (out : AuditLogger × Accepted × List Incoming)
      → i.remote ≡ some r
      → is_denied cidr6 cfg r ≡ true
      → Outcome is (log_denied sha json cidr6 cfg i r a) out
      → Outcome (i ∷ is) a out
  step-Outcome i r is a (b, out, rest) e d (dropped, tail, split, all, stops, count) = (
    i ∷ dropped,
    tail,
    ap (λ t. i ∷ t) split,
    ((r, e, d), all),
    stops,
    omega (arith, count, length-log_denied i r a),
  )

  accept-error :
      (i : Incoming) (is : List Incoming) (a : AuditLogger)
      → i.remote ≡ none
      → accept sha json cidr6 cfg (i ∷ is) a ≡ (a, accept_error, is)
  unfolding accept
  accept-error i is a e = ground (arith, e)

  accept-denied :
      (i : Incoming) (is : List Incoming) (a : AuditLogger) (r : Text)
      → i.remote ≡ some r
      → is_denied cidr6 cfg r ≡ true
      → accept sha json cidr6 cfg (i ∷ is) a
        ≡ accept sha json cidr6 cfg is (log_denied sha json cidr6 cfg i r a)
  unfolding accept
  accept-denied i is a r e d = ground (arith, e, d)

  accept-connection :
      (i : Incoming) (is : List Incoming) (a : AuditLogger) (r : Text)
      → i.remote ≡ some r
      → is_denied cidr6 cfg r ≡ false
      → accept sha json cidr6 cfg (i ∷ is) a ≡ (a, connection r, is)
  unfolding accept
  accept-connection i is a r e d = ground (arith, e, d)

  log_denied-IsChain :
      (i : Incoming) (r : Text) (a : AuditLogger)
      → i.written ≡ true
      → IsChain sha json a.lines a.last_hash
      → IsChain sha json
          (log_denied sha json cidr6 cfg i r a).lines
          (log_denied sha json cidr6 cfg i r a).last_hash
  unfolding log_denied
  log_denied-IsChain i r a e c = rw e (
      log_connection-IsChain sha json i.time r (codes "N/A (Dropped at TCP Layer)") (codes "DENIED")
        (codes "denied: direct socket access attempted from untrusted IP") a c)

  -- Accept drops exactly a run of connections from denied addresses, with a line in the log for each
  -- whose line is written, and then gives the first connection that is not denied, or the first
  -- error, or has taken all that came in; what comes after is left.
  pub accept-Outcome :
      (pending : List Incoming) (a : AuditLogger)
      → Outcome pending a (accept sha json cidr6 cfg pending a)
  unfolding accept
  accept-Outcome [] a = ([], [], refl, tt, (refl, refl), omega arith)
  accept-Outcome (i ∷ is) a = elim (Option-cases i.remote) [
    | inl e ↦ rw (accept-error i is a e) ([], i ∷ is, refl, tt, (i, refl, e), omega arith)
    | inr (r, e) ↦ elim (Bool-cases (is_denied cidr6 cfg r)) [
      | inl d ↦ rw (accept-denied i is a r e d) (
          step-Outcome i r is a (accept sha json cidr6 cfg is (log_denied sha json cidr6 cfg i r a))
            e d (accept-Outcome is (log_denied sha json cidr6 cfg i r a)))
      | inr d ↦
          rw (accept-connection i is a r e d) ([], i ∷ is, refl, tt, (i, refl, e, d), omega arith)
    ]
  ]

  -- The log's chain of hashes goes on over a call of Accept whose lines are all written.
  pub accept-IsChain :
      (pending : List Incoming) (a : AuditLogger)
      → All (λ i. i.written ≡ true) pending
      → IsChain sha json a.lines a.last_hash
      → IsChain sha json
          (accept sha json cidr6 cfg pending a).0.lines
          (accept sha json cidr6 cfg pending a).0.last_hash
  unfolding accept
  accept-IsChain [] a all c = c
  accept-IsChain (i ∷ is) a all c = elim (Option-cases i.remote) [
    | inl e ↦ rw (accept-error i is a e) c
    | inr (r, e) ↦ elim (Bool-cases (is_denied cidr6 cfg r)) [
      | inl d ↦ rw (accept-denied i is a r e d) (
          accept-IsChain is (log_denied sha json cidr6 cfg i r a) all.1
            (log_denied-IsChain i r a all.0 c))
      | inr d ↦ rw (accept-connection i is a r e d) c
    ]
  ]

bracket-octet : (s : Text) → octet (b'[' ∷ s) ≡ none
unfolding octet digits_value
bracket-octet s = refl

bracket-quad : (ws : List Text) → quad (map octet (cons_head b'[' ws)) ≡ none
unfolding octet digits_value
bracket-quad [] = refl
bracket-quad (w ∷ ws) = rw (bracket-octet w) refl

bracket-parse : (s : Text) → parse_ip (b'[' ∷ s) ≡ none
unfolding parse_ip split_on
bracket-parse s = bracket-quad (split_on b'.' s)

first_piece-cons_head : (c : ℕ) (ws : List Text) → first_piece (cons_head c ws) ≡ c ∷ first_piece ws
first_piece-cons_head c [] = refl
first_piece-cons_head c (w ∷ ws) = refl

before_colon : (s : Text) → (t : Text) × (first_piece (split_on b':' (b'[' ∷ s)) ≡ b'[' ∷ t)
unfolding split_on
before_colon s = (first_piece (split_on b':' s), first_piece-cons_head b'[' (split_on b':' s))

no_address :
    (cidr6 : Text → ℕ → Bool) (ip : Text) (l : List Text)
    → parse_ip ip ≡ none
    → length l ≢ 0
    → is_ip_allowed cidr6 ip l ≡ false
unfolding is_ip_allowed
no_address cidr6 ip [] e n = absurd (n refl)
no_address cidr6 ip (r ∷ rs) e n = rw (e, is_ip_allowed) refl

-- With a list of addresses in the mode direct_socket, every client of an IPv6 address is dropped,
-- also one whose address is listed: what stands before the first colon is no address.
pub ipv6_denied :
    (cidr6 : Text → ℕ → Bool) (cfg : SecurityConfig) (s : Text)
    → cfg.mode ≡ direct_socket
    → length cfg.allowed_socket_ips ≢ 0
    → is_denied cidr6 cfg (b'[' ∷ s) ≡ true
unfolding is_denied
ipv6_denied cidr6 cfg s m n =
    let (t, e) = before_colon s in
    let refused =
      no_address cidr6 (first_piece (split_on b':' (b'[' ∷ s))) cfg.allowed_socket_ips
        (ap parse_ip e ∙ bracket-parse t) n in
    ground (arith, refused, (text_eq_iff cfg.mode direct_socket).1 m)
