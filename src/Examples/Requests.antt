-- ===== src/Examples/Requests.antt =====
-- Concrete runs of the handlers (internal/api/handler.go).
use omni_blob.Base.{
  ◌≡◌, refl, true, none, some, [], ◌∷◌, arith, ◌==◌, if◌then◌else◌, codes, text_eq, trim_prefix,
  has_byte, contains, trim_space, to_lower, split_on, decimal, lookup,
}
use omni_blob.FilePath.{ext, join}
use omni_blob.FileSystem.{no_faults}
use omni_blob.Http.{Request, form_value}
use omni_blob.Storage.{save_cas, commit_cas}
use omni_blob.Entity.{BinaryFile}
use omni_blob.Repository.BinaryFiles.{get_by_id, insert_file}
use omni_blob.Api.Handler.{World, Handler, Env, Luck, in_bucket}
use omni_blob.Api.Handler.Upload.{Part, with_file, created, upload, store_part, index_upload}
use omni_blob.Api.Handler.Serve.{
  failed, streamed, serve_headers, serve_file_by_id, file_url, delete_file,
}
use omni_blob.Api.Handler.RoundTrip.{IsSound, Uploads, upload_safe}
use omni_blob.Storage.Files.{Opened}
use omni_blob.Storage.Layout.{generate_storage_path, clean_file_name}
use omni_blob.Api.Handler.Served.{upload-serve}
use omni_blob.Api.Handler.Deletion.{delete_file-serve}
use omni_blob.Api.Handler.Bulk.{parsed_form, bulk_upload}
use omni_blob.Api.Handler.Unchecked.{bulk_upload-unchecked}
use omni_blob.Examples.Data.{digit_sum, service, hash, calendar, no_disk, hello, row}

abbrev pub handler : Handler
handler = record { storage = service; allowed_extensions = codes ".txt" ∷ codes ".pdf" ∷ [] }

abbrev pub env : Env
env = record {
  sha = hash;
  cal = calendar;
  detect_content_type = λ bs. codes "text/plain";
  type_by_extension = λ e. codes "text/plain";
  save_metadata_sidecar = λ p f fs. fs;
  readable = λ p. true;
}

abbrev pub luck : Luck
luck = record {
  faults = no_faults;
  others = λ fs. fs;
  nano = 8;
  now = 9;
  objects_up = true;
  next_up = true;
  files_up = true;
}

abbrev pub empty_world : World
empty_world = record { disk = no_disk; objects = []; files = [] }

abbrev pub part : Part
part = record {
  file_name = codes "note.txt";
  content_type = codes "text/plain";
  content = hello;
  rewinds = true;
}

abbrev pub post : Request
post = record {
  method = codes "POST";
  url_path = codes "/api/v1/paspor/upload";
  bucket = codes "paspor";
  headers = [];
  query = [];
  form = [];
  basic_auth = none;
  remote_addr = codes "10.0.0.1:5000";
}

empty-IsSound : IsSound handler env luck (codes "srv") refl empty_world
unfolding lookup
empty-IsSound = (λ bs n e. absurd (ground arith), λ h o e. absurd (ground arith), refl)

upload_safe_example :
    Uploads handler env luck
      (codes "srv")
      refl
      (codes "hello")
      (upload handler env luck post none (with_file part) empty_world)
upload_safe_example =
    upload_safe handler env luck (codes "srv") refl (λ fs c. c) (λ fs. refl) (λ p f fs bs. refl)
      (λ p f fs. refl) refl (refl, refl, refl, refl) post none part empty_world empty-IsSound

abbrev two_rows : World
two_rows = record { disk = no_disk; objects = []; files = row 7 ∷ row 3 ∷ [] }

row_found : get_by_id true 7 two_rows.files ≡ some (row 7)
unfolding get_by_id
row_found = refl

in_paspor : in_bucket (codes "paspor") (row 7) ≡ true
unfolding text_eq
in_paspor = refl

delete_file-serve_example :
    serve_file_by_id handler env luck post
      (file_url (codes "files") 3)
      (delete_file true true (file_url (codes "paspor") 7) two_rows).0
    ≡ (if 3 == 7
        then failed 404
        else serve_file_by_id handler env luck post (file_url (codes "files") 3) two_rows)
unfolding has_byte
delete_file-serve_example =
    delete_file-serve handler env luck post (codes "paspor") (codes "files") 7 3 two_rows (row 7)
      refl refl (omega arith) (omega arith) refl row_found refl in_paspor

abbrev uploaded : BinaryFile
uploaded = record (row 1) {
  referensi_id = [];
  path = codes "anonymous/paspor/note.txt";
  create_date = 9;
  app_name = codes "anonymous";
}

uploaded_answer :
    (upload handler env luck post none (with_file part) empty_world).1 ≡ created uploaded
unfolding upload text_eq to_lower ext lookup contains store_part save_cas join split_on decimal
    commit_cas digit_sum index_upload insert_file trim_space trim_prefix form_value
    generate_storage_path clean_file_name
uploaded_answer = refl

upload-serve_example :
    (o : Opened) × (serve_file_by_id handler env luck post
        (file_url (codes "paspor") 1)
        (upload handler env luck post none (with_file part) empty_world).0
      ≡ streamed (serve_headers env post uploaded) o)
    × (hash.sum o.bytes ≡ hash.sum (codes "hello"))
unfolding has_byte text_eq
upload-serve_example =
    upload-serve handler env luck (codes "srv") refl (λ fs c. c) (λ fs. refl) (λ p f fs bs. refl)
      (λ p f fs. refl) refl (refl, refl, refl, refl) post none part empty_world uploaded luck post
      (codes "paspor") empty-IsSound uploaded_answer refl refl (λ p. refl) (omega arith) refl refl

bulk_upload-unchecked_example :
    bulk_upload
      (record handler { allowed_extensions = [] })
      env
      post
      none
      (parsed_form (record { part = part; luck = luck; opens = true } ∷ []) [])
      empty_world
    ≡ bulk_upload handler env post none
        (parsed_form (record { part = part; luck = luck; opens = true } ∷ []) [])
        empty_world
bulk_upload-unchecked_example =
    bulk_upload-unchecked handler [] env post none
      (parsed_form (record { part = part; luck = luck; opens = true } ∷ []) []) empty_world
