-- ===== src/Api/Handler/Bulk.antt =====
-- internal/api/handler.go, BulkUpload.
use omni_blob.Base.{
  ℕ, Bool, not, Option, none, some, List, [], ◌∷◌, if◌then◌else◌, Text, codes, text_eq, or_else,
  trim_space,
}
use omni_blob.Http.{Request, form_value}
use omni_blob.Storage.{Saved}
use omni_blob.Storage.Layout.{generate_storage_path, generate_sharded_path}
use omni_blob.Entity.{BinaryFile}
use omni_blob.Api.Handler.{World, Handler, Env, Luck, module_or}
use omni_blob.Api.Handler.Upload.{
  Part, UploadReply, refused, created, app_name_of, octet_stream, store_part,
}

-- A file of the form with what happens around it, and whether it can be opened.
pub record BulkPart : Type 0 where
  pub part : Part
  pub luck : Luck
  pub opens : Bool

-- What parsing gives: an error, or the files under "files" and under "file".
pub data BulkForm : Type 0 where
  malformed_form : BulkForm
  parsed_form : List BulkPart → List BulkPart → BulkForm

abbrev pub bulk_parts : List BulkPart → List BulkPart → List BulkPart
bulk_parts [] fallback = fallback
bulk_parts (p ∷ ps) fallback = p ∷ ps

-- One result for each file: the record, or `none` for an error.
pub data BulkReply : Type 0 where
  bulk_refused : ℕ → BulkReply
  processed : List (Option BinaryFile) → BulkReply

unfoldable pub bulk_path : Env → Luck → Text → Text → Text → Text → Text → Text
bulk_path env luck app m directory ref name =
    if text_eq directory (codes "date")
    then generate_sharded_path env.cal luck.now app m directory 0 name luck.now
    else generate_storage_path app m directory ref name

unfoldable pub bulk_row : Env → Request → Option Text → BulkPart → Saved → BinaryFile
unfolding bulk_path
bulk_row env r client p result =
    let m = module_or r.bucket (trim_space (form_value r "module")) in
    let ref = trim_space (form_value r "referensi_id") in
    let directory = trim_space (form_value r "directory") in
    let app = app_name_of client in
    record {
      bin_id = 0;
      referensi_id = ref;
      module_name = m;
      directory = directory;
      file_name = p.part.file_name;
      path = bulk_path env p.luck app m directory ref p.part.file_name;
      size = result.size;
      mime_type = or_else p.part.content_type octet_stream;
      checksum = result.checksum;
      flag = or_else (trim_space (form_value r "flag")) (codes "1");
      create_date = p.luck.now;
      app_name = app;
    }

abbrev pub bulk_result : UploadReply → Option BinaryFile
bulk_result (refused n) = none
bulk_result (created f) = some f

unfoldable pub bulk_one :
    Handler → Env → Request → Option Text → BulkPart → World → World × Option BinaryFile
unfolding bulk_row
bulk_one h env r client p w =
    let stored = store_part h env p.luck (bulk_row env r client p) p.part w in
    if p.opens then (stored.0, bulk_result stored.1) else (w, none)

unfoldable pub bulk_all :
    Handler → Env → Request → Option Text → List BulkPart → World → World × List (Option BinaryFile)
unfolding bulk_one
bulk_all h env r client [] w = (w, [])
bulk_all h env r client (p ∷ ps) w =
    let first = bulk_one h env r client p w in
    let rest = bulk_all h env r client ps first.0 in (rest.0, first.1 ∷ rest.1)

abbrev pub process :
    Handler → Env → Request → Option Text → List BulkPart → World → World × BulkReply
process h env r client [] w = (w, bulk_refused 400)
process h env r client (p ∷ ps) w =
    let all = bulk_all h env r client (p ∷ ps) w in (all.0, processed all.1)

unfoldable pub bulk_upload :
    Handler → Env → Request → Option Text → BulkForm → World → World × BulkReply
unfolding bulk_all
bulk_upload h env r client form w =
    if not (text_eq r.method (codes "POST")) then (w, bulk_refused 405) else elim form [
      | malformed_form ↦ (w, bulk_refused 400)
      | parsed_form files fallback ↦ process h env r client (bulk_parts files fallback) w
    ]
