-- ===== src/Examples/Links.antt =====
-- Concrete runs of the audit log (internal/logger/audit.go) and of signed URLs
-- (internal/auth/presign.go).
use omni_blob.Base.{
  sym, ◌∙◌, ℕ, zero, suc, ◌≡◌, refl, ap, true, Option, some, [], ◌∷◌, ◌++◌, arith, length, Text,
  codes, decimal, lookup,
}
use omni_blob.Audit.{AuditEntry, Json, AuditLogger, genesis, log_connection}
use omni_blob.Presign.{UrlLibrary, Url, generate_presigned_url, validate_presigned_url}
use omni_blob.Presign.Valid.{generate-validate}
use omni_blob.Examples.Data.{hash}

abbrev pub no_log : AuditLogger
no_log = record { lines = []; last_hash = genesis }

-- Texts behind their lengths, as a stand-in for JSON.
put_text : Text → Text → Text
put_text t rest = length t ∷ (t ++ rest)

split_at : ℕ → Text → Text × Text
split_at zero s = ([], s)
split_at (suc n) [] = ([], [])
split_at (suc n) (c ∷ s) = let (t, rest) = split_at n s in (c ∷ t, rest)

get_text : Text → Text × Text
unfolding split_at
get_text [] = ([], [])
get_text (n ∷ s) = split_at n s

split_at-append : (t rest : Text) → split_at (length t) (t ++ rest) ≡ (t, rest)
unfolding split_at
split_at-append [] rest = refl
split_at-append (c ∷ t) rest = ap (λ p. (c ∷ p.0, p.1)) (split_at-append t rest)

get_text-put_text : (t rest : Text) → get_text (put_text t rest) ≡ (t, rest)
unfolding get_text put_text
get_text-put_text t rest = split_at-append t rest

pub write_entry : AuditEntry → Text
write_entry e = put_text e.timestamp (
    put_text e.remote_addr (
      put_text e.x_forwarded_for (
        put_text e.action
          (put_text e.reason (put_text e.previous_hash (put_text e.current_hash []))))))

pub read_entry : Text → Option AuditEntry
read_entry s =
    let (a, s1) = get_text s in
    let (b, s2) = get_text s1 in
    let (c, s3) = get_text s2 in
    let (d, s4) = get_text s3 in
    let (e, s5) = get_text s4 in
    let (f, s6) = get_text s5 in
    let (g, s7) = get_text s6 in
    some (record {
      timestamp = a;
      remote_addr = b;
      x_forwarded_for = c;
      action = d;
      reason = e;
      previous_hash = f;
      current_hash = g;
    })

pub read-write : (e : AuditEntry) → read_entry (write_entry e) ≡ some e
unfolding read_entry write_entry
read-write e =
    let g = put_text e.current_hash [] in
    let f = put_text e.previous_hash g in
    let r = put_text e.reason f in
    let d = put_text e.action r in
    let c = put_text e.x_forwarded_for d in
    let b = put_text e.remote_addr c in
    rw
      (
        get_text-put_text e.timestamp b,
        get_text-put_text e.remote_addr c,
        get_text-put_text e.x_forwarded_for d,
        get_text-put_text e.action r,
        get_text-put_text e.reason f,
        get_text-put_text e.previous_hash g,
        get_text-put_text e.current_hash [],
      )
      refl

write-one : (e e' : AuditEntry) → write_entry e ≡ write_entry e' → e ≡ e'
write-one e e' k =
    let both : some e ≡ some e' = sym (read-write e) ∙ ap read_entry k ∙ read-write e' in cc

pub write_sealed :
    (e e' : AuditEntry)
    → write_entry (record e { current_hash = [] }) ≡ write_entry (record e' { current_hash = [] })
    → e.current_hash ≡ e'.current_hash
    → write_entry e ≡ write_entry e'
write_sealed e e' k same =
    let blank = write-one (record e { current_hash = [] }) (record e' { current_hash = [] }) k in
    ap write_entry (
      ap {A = AuditEntry} (λ z. record z { current_hash = e.current_hash }) blank
      ∙ ap {B = AuditEntry} (λ c. record e' { current_hash = c }) same)

abbrev pub json : Json
json = record { marshal = write_entry; unmarshal = read_entry; marshal_sealed = write_sealed }

abbrev one_line : Text → AuditLogger
one_line reason =
    (log_connection hash json true (codes "t1") (codes "10.0.0.1:1") [] (codes "DENIED") reason
      no_log).0

-- Signatures that are the secret before the text, and a query that is signed by its values.
abbrev pub urls : UrlLibrary
urls = record {
  parse = λ t. some (codes "/api/v1/files/7", []);
  encode = λ q. [];
  hmac = λ k t. 1 ∷ (k ++ t);
  format_date = λ n. decimal n;
}

generate-validate_example :
    (url : Url) × (generate_presigned_url urls 100
        (codes "GET")
        (codes "http://h")
        (codes "/api/v1/files/7")
        (codes "ak")
        (codes "sk")
        3600
      ≡ some url)
    × (validate_presigned_url urls 200 (codes "sk") (codes "GET") url ≡ true)
unfolding lookup
generate-validate_example =
    generate-validate urls 100 200 3600 (codes "GET") (codes "http://h") (codes "/api/v1/files/7")
      (codes "ak") (codes "sk") (codes "/api/v1/files/7") [] refl refl (λ k t. refl) (omega arith)
      (omega arith)

abbrev unsigned_url : Url
unsigned_url = record { path = codes "/api/v1/files/7"; query = [] }
