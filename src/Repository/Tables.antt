-- ===== src/Repository/Tables.antt =====
-- internal/repository: physical_object_repo.go, log_file_repository.go and orphan_log_repository.go.
use omni_blob.Base.{
  ℕ, ◌≡◌, ap, Bool, true, ◌&&◌, Option, none, some, List, [], ◌∷◌, ltb, if◌then◌else◌, Text,
  text_eq, Assoc, lookup, insert,
}
use omni_blob.Entity.{PhysicalObject, LogFileRsync, OrphanFileLog}

-- `none` for an error; no row is `some none`.
unfoldable pub get_by_hash : Bool → Text → Assoc PhysicalObject → Option (Option PhysicalObject)
get_by_hash up hash t = if up then some (lookup hash t) else none

-- ON CONFLICT (content_hash) DO NOTHING. The time is written as it is given, also the zero time.
unfoldable pub insert_object : Bool → PhysicalObject → Assoc PhysicalObject → Assoc PhysicalObject
insert_object up o t =
    if up
    then elim (lookup o.content_hash t) [ none ↦ insert o.content_hash o t | some old ↦ t ]
    else t

max_checkpoint : Text → List LogFileRsync → ℕ
max_checkpoint server [] = 0
max_checkpoint server (l ∷ ls) =
    let m = max_checkpoint server ls in
    if text_eq l.server server && ltb m l.last_bin_id then l.last_bin_id else m

-- COALESCE(MAX(last_bin_id), 0) for the server.
unfoldable pub get_last_bin_id : Bool → Text → List LogFileRsync → Option ℕ
unfolding max_checkpoint
get_last_bin_id up server ls = if up then some (max_checkpoint server ls) else none

unfoldable pub insert_log : Bool → LogFileRsync → List LogFileRsync → List LogFileRsync
insert_log up l ls = if up then l ∷ ls else ls

unfoldable pub insert_orphan : Bool → OrphanFileLog → List OrphanFileLog → List OrphanFileLog
insert_orphan up l ls = if up then l ∷ ls else ls

-- Writing a checkpoint raises the last one of its server to it, unless a later one stands already,
-- and leaves the last checkpoint of any other server. It is assumed that the queries are answered.
pub get_last_bin_id-insert_log :
    (l : LogFileRsync) (server : Text) (ls : List LogFileRsync) (m : ℕ)
    → get_last_bin_id true server ls ≡ some m
    → get_last_bin_id true server (insert_log true l ls)
      ≡ some (if text_eq l.server server && ltb m l.last_bin_id then l.last_bin_id else m)
unfolding get_last_bin_id insert_log max_checkpoint
get_last_bin_id-insert_log l server ls m e =
    ap
      (λ o. elim o [
        | none ↦ none
        | some n ↦
            some (if text_eq l.server server && ltb n l.last_bin_id then l.last_bin_id else n)
      ])
      e
