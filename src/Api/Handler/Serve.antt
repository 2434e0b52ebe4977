-- ===== src/Api/Handler/Serve.antt =====
-- internal/api/handler.go, ServeFileByID, ServeFileByRef and DeleteFile. What http.ServeContent
-- makes of the open file, such as ranges, is Go's.
use omni_blob.Base.{
  ℕ, Bool, ◌||◌, Option, none, some, [], ◌∷◌, ◌++◌, if◌then◌else◌, Text, codes, text_eq, is_empty,
  or_else, trim_space, decimal, Assoc,
}
use omni_blob.FilePath.{slash, ext, join}
use omni_blob.Http.{Request, query_value}
use omni_blob.Storage.Files.{Opened, open_file, or_try}
use omni_blob.Entity.{BinaryFile, PhysicalObject}
use omni_blob.Repository.BinaryFiles.{Files, get_by_referensi_id, delete_row}
use omni_blob.Repository.Tables.{get_by_hash}
use omni_blob.Api.Handler.{
  World, Handler, Env, Luck, bucket_and_id, find_meta, in_bucket, module_or,
}

pub record Headers : Type 0 where
  pub content_type : Text
  pub etag : Option Text
  pub attachment : Bool
  pub file_name : Text

pub data ServeReply : Type 0 where
  failed : ℕ → ServeReply
  streamed : Headers → Opened → ServeReply

abbrev stored_path_of : Text → Option (Option PhysicalObject) → Text
stored_path_of path none = path
stored_path_of path (some none) = path
stored_path_of path (some (some o)) = o.storage_path

-- The object's path where the checksum has one, else the record's.
unfoldable pub physical_path : Luck → BinaryFile → Assoc PhysicalObject → Text
physical_path luck f objects =
    if is_empty f.checksum
    then f.path
    else stored_path_of f.path (get_by_hash luck.objects_up f.checksum objects)

unfoldable pub fallback_path : BinaryFile → Text
fallback_path f = join ((or_else f.directory f.module_name) ∷ f.file_name ∷ [])

unfoldable pub open_record : Handler → Env → Luck → BinaryFile → World → Option Opened
unfolding physical_path fallback_path
open_record h env luck f w =
    or_try (open_file h.storage env.readable w.disk (physical_path luck f w.objects))
      (open_file h.storage env.readable w.disk (fallback_path f))

abbrev serve_mime : Env → BinaryFile → Text
serve_mime env f =
    or_else f.mime_type
      (or_else (env.type_by_extension (ext f.file_name)) (codes "application/octet-stream"))

unfoldable pub serve_headers : Env → Request → BinaryFile → Headers
serve_headers env r f =
    let download = query_value r "download" in
    record {
      content_type = serve_mime env f;
      etag = if is_empty f.checksum then none else some f.checksum;
      attachment = text_eq download (codes "true") || text_eq download (codes "1");
      file_name = f.file_name;
    }

unfoldable pub serve_record : Handler → Env → Luck → Request → BinaryFile → World → ServeReply
unfolding serve_headers
serve_record h env luck r f w = elim (open_record h env luck f w) [
  | none ↦ failed 404
  | some o ↦ streamed (serve_headers env r f) o
]

-- The path is the request's, or the one that ServeFileByRef puts in its place.
unfoldable pub serve_file_by_id : Handler → Env → Luck → Request → Text → World → ServeReply
serve_file_by_id h env luck r path w = elim (bucket_and_id path) [
  | none ↦ failed 400
  | some (bucket, id) ↦ elim (find_meta luck.files_up id w.files) [
    | none ↦ failed 404
    | some f ↦ if in_bucket bucket f then serve_record h env luck r f w else failed 404
  ]
]

abbrev pub file_url : Text → ℕ → Text
file_url m n = codes "/api/v1/" ++ (m ++ (slash ∷ decimal n))

abbrev latest : Option Files → Option BinaryFile
latest none = none
latest (some []) = none
latest (some (f ∷ fs)) = some f

unfoldable pub serve_file_by_ref : Handler → Env → Luck → Request → World → ServeReply
serve_file_by_ref h env luck r w =
    let ref = trim_space (query_value r "ref_id") in
    let m = module_or r.bucket (trim_space (query_value r "module")) in
    if is_empty ref
    then failed 400
    else elim (latest (get_by_referensi_id luck.files_up ref m w.files)) [
      | none ↦ failed 404
      | some f ↦ serve_file_by_id h env luck r (file_url m f.bin_id) w
    ]

-- The status of the answer. Only the row goes: other records may share the object. `up` says whether
-- the row's lookup is answered and `delete_up` whether the deletion is.
unfoldable pub delete_file : Bool → Bool → Text → World → World × ℕ
delete_file up delete_up path w = elim (bucket_and_id path) [
  | none ↦ (w, 400)
  | some (bucket, id) ↦ elim (find_meta up id w.files) [
    | none ↦ (w, 404)
    | some f ↦
        if in_bucket bucket f
        then (
          record w { files = (delete_row delete_up f.bin_id w.files).0 },
          if delete_up then 200 else 500,
        )
        else (w, 404)
  ]
]
