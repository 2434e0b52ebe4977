-- ===== src/Api/Handler/Upload.antt =====
-- internal/api/handler.go, Upload.
use omni_blob.Base.{
  ℕ, String, Bool, false, ◌&&◌, ◌||◌, not, Option, none, some, List, [], ◌∷◌, leb, if◌then◌else◌,
  length, take, Text, codes, text_eq, is_empty, or_else, has_prefix, trim_prefix, contains,
  trim_space, to_lower, contains_text, Assoc, lookup,
}
use omni_blob.FilePath.{slash, ext, join}
use omni_blob.FileSystem.{FileSystem, Stream}
use omni_blob.Http.{Request, form_value}
use omni_blob.Storage.{Saved, saved, error, save_cas}
use omni_blob.Storage.Layout.{generate_storage_path, generate_sharded_path}
use omni_blob.Entity.{BinaryFile, PhysicalObject}
use omni_blob.Repository.BinaryFiles.{Files, insert_file}
use omni_blob.Repository.Tables.{insert_object}
use omni_blob.Api.Handler.{World, Handler, Env, Luck, module_or}

-- A file of a multipart form: the name and content type that its header gives, and its content.
pub record Part : Type 0 where
  pub file_name : Text
  pub content_type : Text
  pub content : Stream
  pub rewinds : Bool

-- What parsing the form gives: an error, also for one above the limit, no field of the name, or it.
pub data Form : Type 0 where
  malformed no_file : Form
  with_file : Part → Form

abbrev pub expected_mime_prefix : Assoc Text
expected_mime_prefix =
    (codes ".pdf", codes "application/pdf")
    ∷ (codes ".png", codes "image/png")
    ∷ (codes ".jpg", codes "image/jpeg")
    ∷ (codes ".jpeg", codes "image/jpeg")
    ∷ (codes ".gif", codes "image/gif")
    ∷ (codes ".mp4", codes "video/mp4")
    ∷ (codes ".html", codes "text/html")
    ∷ (codes ".exe", codes "application/x-executable")
    ∷ []

abbrev pub mismatch : Option Text → Text → Bool
mismatch none found = false
mismatch (some expected) found = not (has_prefix expected found)

-- The checks of the content, made only where extensions are restricted: the status of a refusal.
unfoldable pub check_content : Env → Text → Part → Option ℕ
check_content env extension part =
    let found = env.detect_content_type (take 512 part.content.bytes) in
    if not part.rewinds
    then some 500
    else if mismatch (lookup extension expected_mime_prefix) found
    then some 415
    else if not (text_eq extension (codes ".html")) && contains found (codes "text/html")
    then some 415
    else none

abbrev pub extension_of : Part → Text
extension_of part = to_lower (ext part.file_name)

unfoldable pub check_part : Handler → Env → Part → Option ℕ
unfolding check_content
check_part h env part =
    if leb (length h.allowed_extensions) 0
    then none
    else if not (contains_text h.allowed_extensions (extension_of part))
    then some 415
    else check_content env (extension_of part) part

-- The texts that Upload reads from the form, each with its older names.
unfoldable pub form_field : Request → List String → Text
form_field r [] = []
form_field r (name ∷ names) = or_else (trim_space (form_value r name)) (form_field r names)

abbrev pub app_name_of : Option Text → Text
app_name_of none = codes "anonymous"
app_name_of (some name) = name

abbrev pub octet_stream : Text
octet_stream = codes "application/octet-stream"

unfoldable pub mime_type_of : Env → Text → Text → Text
mime_type_of env given name =
    if is_empty given || text_eq given octet_stream
    then or_else (env.type_by_extension (ext name)) octet_stream
    else given

-- The path that the record keeps.
unfoldable pub logical_path : Env → Luck → Text → Text → Text → Text → Text → Text → Text
logical_path env luck app custom module_name directory ref name =
    if not (is_empty custom)
    then trim_prefix custom (slash ∷ [])
    else if text_eq directory (codes "date")
    then generate_sharded_path env.cal luck.now app module_name directory 0 name luck.now
    else generate_storage_path app module_name directory ref name

-- The record that Upload writes, with the identifier left to Insert.
unfoldable pub upload_row : Env → Luck → Request → Option Text → Part → Saved → BinaryFile
unfolding form_field mime_type_of logical_path
upload_row env luck r client part result =
    let m = module_or r.bucket (form_field r ("module" ∷ "modul" ∷ [])) in
    let ref = form_field r ("referensi_id" ∷ "uuid" ∷ []) in
    let directory = form_field r ("directory" ∷ "folder" ∷ "subfolder" ∷ []) in
    let name = or_else (form_field r ("file_name" ∷ [])) part.file_name in
    let app = app_name_of client in
    record {
      bin_id = 0;
      referensi_id = ref;
      module_name = m;
      directory = directory;
      file_name = name;
      path = logical_path env luck app (form_field r ("path" ∷ [])) m directory ref name;
      size = result.size;
      mime_type = mime_type_of env part.content_type name;
      checksum = result.checksum;
      flag = or_else (form_field r ("flag" ∷ [])) (codes "1");
      create_date = luck.now;
      app_name = app;
    }

-- The answer: a status with an error, or 201 with the record.
pub data UploadReply : Type 0 where
  refused : ℕ → UploadReply
  created : BinaryFile → UploadReply

-- The zero time of the object is written as it is.
abbrev pub object_of : Saved → PhysicalObject
object_of result = record {
  content_hash = result.checksum;
  size = result.size;
  storage_path = result.rel_path;
  first_stored_at = 0;
}

abbrev pub add_sidecar :
    Env → Handler → Saved → FileSystem → (Files × Option BinaryFile) → FileSystem
add_sidecar env h result disk (t, none) = disk
add_sidecar env h result disk (t, some f) =
    env.save_metadata_sidecar (join (h.storage.root_path ∷ result.rel_path ∷ [])) f disk

abbrev pub inserted_reply : Option BinaryFile → UploadReply
inserted_reply none = refused 500
inserted_reply (some f) = created f

-- From the stored stream on: the object's row, whose error is only logged, the file's row, and the
-- sidecar.
unfoldable pub index_upload :
    Handler → Env → Luck → BinaryFile → Saved → World → World × UploadReply
index_upload h env luck row result w =
    let inserted = insert_file luck.next_up luck.files_up luck.now row w.files in
    (
      record {
        disk = add_sidecar env h result w.disk inserted;
        objects = insert_object luck.objects_up (object_of result) w.objects;
        files = inserted.0;
      },
      inserted_reply inserted.1,
    )

-- SaveCAS and what follows it.
unfoldable pub store_part :
    Handler → Env → Luck → (Saved → BinaryFile) → Part → World → World × UploadReply
store_part h env luck row part w =
    let (disk, out) =
      save_cas env.sha h.storage luck.faults luck.others luck.nano luck.now part.content w.disk in
    elim out [
      | error e ↦ (record w { disk = disk }, refused 500)
      | saved result ↦ index_upload h env luck (row result) result (record w { disk = disk })
    ]

-- `client` is the name of the client that the request was authenticated for.
unfoldable pub upload :
    Handler → Env → Luck → Request → Option Text → Form → World → World × UploadReply
unfolding check_part upload_row
upload h env luck r client form w =
    if not (text_eq r.method (codes "POST")) then (w, refused 405) else elim form [
      | malformed ↦ (w, refused 400)
      | no_file ↦ (w, refused 400)
      | with_file part ↦ elim (check_part h env part) [
        | some status ↦ (w, refused status)
        | none ↦ store_part h env luck (upload_row env luck r client part) part w
      ]
    ]
