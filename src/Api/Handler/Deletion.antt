-- ===== src/Api/Handler/Deletion.antt =====
-- internal/api/handler.go, DeleteFile, and what is served after it.
use omni_blob.Base.{
  ℕ, ◌^◌, ◌<◌, ◌≡◌, refl, sym, ap, ◌∙◌, inl, inr, true, false, Option, none, some, ◌==◌,
  if◌then◌else◌, Bool-cases, Text, has_byte, decimal,
}
use omni_blob.FilePath.{slash}
use omni_blob.Http.{Request}
use omni_blob.Entity.{BinaryFile}
use omni_blob.Repository.BinaryFiles.{Files, get_by_id, delete_row}
use omni_blob.Repository.BinaryFiles.Rows.{get_by_id-delete_row}
use omni_blob.Api.Handler.{World, Handler, Env, Luck, find_meta, in_bucket}
use omni_blob.Api.Handler.Serve.{
  ServeReply, failed, serve_record, serve_file_by_id, file_url, delete_file, open_record,
}
use omni_blob.Api.Handler.Urls.{bucket_and_id-file_url}
use omni_blob.Api.Handler.Served.{find_meta-number}

-- What DeleteFile does for the URL of an identifier: only a record of the bucket goes.
pub delete_file-by_url :
    (bucket : Text) (n : ℕ) (w : World) (f : BinaryFile)
    → has_byte slash bucket ≡ false
    → n < 2 ^ 63
    → get_by_id true n w.files ≡ some f
    → f.bin_id ≡ n
    → in_bucket bucket f ≡ true
    → delete_file true true (file_url bucket n) w
      ≡ (record w { files = (delete_row true n w.files).0 }, 200)
unfolding delete_file
delete_file-by_url bucket n w f h l e i b =
    rw (bucket_and_id-file_url bucket n h, delete_file, find_meta-number n w.files l, e, b, i) refl

answer_for : Handler → Env → Luck → Request → Text → World → Option BinaryFile → ServeReply
answer_for h env luck r bucket w none = failed 404
answer_for h env luck r bucket w (some f) =
    if in_bucket bucket f then serve_record h env luck r f w else failed 404

serve_file_by_id-number :
    (h : Handler) (env : Env) (luck : Luck) (r : Request) (bucket : Text) (n : ℕ) (w : World)
    → has_byte slash bucket ≡ false
    → n < 2 ^ 63
    → luck.files_up ≡ true
    → serve_file_by_id h env luck r (file_url bucket n) w
      ≡ answer_for h env luck r bucket w (get_by_id true n w.files)
unfolding serve_file_by_id answer_for
serve_file_by_id-number h env luck r bucket n w hb l up =
    let e = ap (λ u. find_meta u (decimal n) w.files) up ∙ find_meta-number n w.files l in
    rw (bucket_and_id-file_url bucket n hb, serve_file_by_id, e)
      (by_cases (get_by_id true n w.files))
  where
    by_cases :
        (o : Option BinaryFile)
        → (elim o [
          | none ↦ failed 404
          | some f ↦ if in_bucket bucket f then serve_record h env luck r f w else failed 404
        ])
          ≡ answer_for h env luck r bucket w o
    by_cases none = refl
    by_cases (some f) = refl

answer_for-files :
    (h : Handler) (env : Env) (luck : Luck) (r : Request) (bucket : Text) (w : World) (t : Files)
    (o : Option BinaryFile)
    → answer_for h env luck r bucket (record w { files = t }) o ≡ answer_for h env luck r bucket w o
unfolding answer_for serve_record open_record
answer_for-files h env luck r bucket w t none = refl
answer_for-files h env luck r bucket w t (some f) = refl

-- Deleting a record takes the record from its URL, in every bucket, and changes no other answer:
-- any other identifier is served as before, though it may share the stored bytes. It is assumed
-- that the record is there and in the bucket of the request, that the database answers, that
-- buckets have no slash and that identifiers fit in 63 bits.
pub delete_file-serve :
    (h : Handler) (env : Env) (luck : Luck) (r : Request) (bucket other : Text) (n m : ℕ)
    (w : World) (f : BinaryFile)
    → has_byte slash bucket ≡ false
    → has_byte slash other ≡ false
    → n < 2 ^ 63
    → m < 2 ^ 63
    → luck.files_up ≡ true
    → get_by_id true n w.files ≡ some f
    → f.bin_id ≡ n
    → in_bucket bucket f ≡ true
    → serve_file_by_id h env luck r
        (file_url other m)
        (delete_file true true (file_url bucket n) w).0
      ≡ (if m == n then failed 404 else serve_file_by_id h env luck r (file_url other m) w)
unfolding answer_for
delete_file-serve h env luck r bucket other n m w f hb ho ln lm up e i b =
    let t : Files = (delete_row true n w.files).0 in
    ap (λ x. serve_file_by_id h env luck r (file_url other m) x.0)
      (delete_file-by_url bucket n w f hb ln e i b)
    ∙ serve_file_by_id-number h env luck r other m (record w { files = t }) ho lm up
    ∙ answer_for-files h env luck r other w t (get_by_id true m t)
    ∙ ap (answer_for h env luck r other w) (get_by_id-delete_row m n w.files)
    ∙ (elim (Bool-cases (m == n)) [
      | inl same ↦ rw same refl
      | inr apart ↦ rw apart (sym (serve_file_by_id-number h env luck r other m w ho lm up))
    ])
