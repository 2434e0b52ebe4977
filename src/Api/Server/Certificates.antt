-- ===== src/Api/Server/Certificates.antt =====
-- internal/api/server.go: what generateSelfSignedCert leaves, and what a later start makes of it.
use omni_blob.Base.{◌≡◌, true, false, ◌&&◌, arith}
use omni_blob.Api.Server.{
  absent, partial, whole, CertFiles, CertLuck, present, write_key, write_cert,
  generate_self_signed_cert,
}

-- Both files can be read as they are.
abbrev pub BothWhole : CertFiles → Type 0
BothWhole fs = (fs.cert ≡ whole) × (fs.key ≡ whole)

-- A call that has to make the files and succeeds leaves both completely written.
pub generate_self_signed_cert-whole :
    (l : CertLuck) (fs : CertFiles)
    → (present fs.cert && present fs.key) ≡ false
    → (generate_self_signed_cert l fs).1 ≡ true
    → BothWhole (generate_self_signed_cert l fs).0
unfolding generate_self_signed_cert write_cert write_key
generate_self_signed_cert-whole l fs e ok = ground (arith, e)

-- What the interrupted write of the key leaves is never repaired: from no files, when only the last
-- step fails the call is an error, and then every later call succeeds and keeps the broken key.
pub broken_key_stays :
    (l later : CertLuck)
    → l.key_made ≡ true
    → l.cert_made ≡ true
    → l.cert_created ≡ true
    → l.cert_encoded ≡ true
    → l.key_created ≡ true
    → l.key_marshalled ≡ true
    → l.key_encoded ≡ false
    → let first = generate_self_signed_cert l (record { cert = absent; key = absent }) in
      (first.1 ≡ false)
      × (generate_self_signed_cert later first.0 ≡ (record { cert = whole; key = partial }, true))
unfolding generate_self_signed_cert write_cert write_key
broken_key_stays l later a b c d e f g = ground (arith, a, b, c, d, e, f, g)
