-- ===== src/Audit/Chain.antt =====
-- internal/logger/audit.go: the chain of hashes that the log makes, and what it gives away.
use omni_blob.Base.{Any, ◌≡◌, refl, ◌≢◌, true, List, [], ◌∷◌, ◌++◌, Text}
use omni_blob.Storage.{Hash}
use omni_blob.Audit.{AuditEntry, Json, AuditLogger, genesis, seal, unsealed, log_connection}

module _ (sha : Hash) (json : Json) where
  -- Each line is an entry that is sealed and names the hash of the line before, back to the first.
  abbrev pub IsChain : List Text → Text → Type 0
  IsChain [] h = h ≡ genesis
  IsChain (l ∷ ls) h =
      (e : AuditEntry) × (l ≡ json.marshal e)
      × (e.current_hash ≡ h)
      × (e.current_hash ≡ seal sha json e)
      × IsChain ls e.previous_hash

  -- Logging a connection continues the chain when the line is written.
  pub log_connection-IsChain :
      (time remote forwarded action reason : Text) (a : AuditLogger)
      → IsChain a.lines a.last_hash
      → let b = (log_connection sha json true time remote forwarded action reason a).0 in
        IsChain b.lines b.last_hash
  unfolding log_connection seal
  log_connection-IsChain time remote forwarded action reason a c =
      let e = unsealed time remote forwarded action reason a.last_hash in
      (record e { current_hash = seal sha json e }, refl, refl, refl, c)

  -- What the hash of an entry is taken of.
  abbrev pub hashed : AuditEntry → Text
  hashed e = json.marshal (record e { current_hash = [] }) ++ e.previous_hash

  -- A line of each log whose entries have one hash, taken of two texts.
  abbrev pub CollisionIn : List Text → List Text → Type 0
  CollisionIn ls ls' =
      (e : AuditEntry) × (e' : AuditEntry) × Any (λ l. l ≡ json.marshal e) ls
      × Any (λ l. l ≡ json.marshal e') ls'
      × (hashed e ≢ hashed e')
      × (sha.sum (hashed e) ≡ sha.sum (hashed e'))
