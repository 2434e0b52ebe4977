-- ===== src/Api/Handler/SignedUrls.antt =====
-- internal/api/handler.go, GeneratePresignedURL.
use omni_blob.Base.{
  ℕ, zero, suc, ◌||◌, not, Option, none, some, [], ◌∷◌, ◌++◌, ltb, if◌then◌else◌, Text, codes,
  text_eq, is_empty, or_else, has_prefix, has_byte, ℤ, atoi, pos, negsuc,
}
use omni_blob.FilePath.{slash}
use omni_blob.Http.{Request, query_value}
use omni_blob.Presign.{UrlLibrary, Url, generate_presigned_url}

-- The path that is signed: the query's, or that of a file by its identifier, or by its reference.
unfoldable pub path_of_id : Text → Text
path_of_id id = codes "/api/v1/files/" ++ id

unfoldable pub path_of_ref : Text → Text → Text
path_of_ref m ref =
    codes "/api/v1/" ++ (or_else m (codes "general") ++ (codes "/view?ref_id=" ++ ref))

unfoldable pub requested_path : Request → Text
unfolding path_of_id path_of_ref
requested_path r =
    let path = query_value r "path" in
    let ref = query_value r "ref" in
    let id = query_value r "bin_id" in
    if not (is_empty path)
    then path
    else if not (is_empty id)
    then path_of_id id
    else if not (is_empty ref)
    then path_of_ref (query_value r "module") ref
    else []

unfoldable pub with_download : Request → Text → Text
with_download r path =
    let flag = query_value r "download" in
    if text_eq flag (codes "true") || text_eq flag (codes "1")
    then path ++ (if has_byte b'?' path then codes "&download=1" else codes "?download=1")
    else path

abbrev pub seconds_of : Option ℤ → ℕ
seconds_of none = 3600
seconds_of (some (pos zero)) = 3600
seconds_of (some (pos (suc n))) = suc n
seconds_of (some (negsuc n)) = 3600

-- One hour unless a positive number of seconds is given.
unfoldable pub expiry_of : Request → ℕ
expiry_of r = seconds_of (atoi (query_value r "expires_in"))

unfoldable pub with_slash : Text → Text
with_slash path = if has_prefix path (slash ∷ []) then path else slash ∷ path

-- The greatest number of seconds whose nanoseconds fit into 64 bits; what the code makes of a greater
-- one is not modelled.
abbrev pub max_expiry : ℕ
max_expiry = 9223372036

pub data PresignReply : Type 0 where
  bad_request failed beyond_range : PresignReply
  presigned : Url → PresignReply

abbrev url_reply : Option Url → PresignReply
url_reply none = failed
url_reply (some url) = presigned url

unfoldable pub presign_path : UrlLibrary → ℕ → Text → Text → Text → Request → Text → PresignReply
unfolding with_download expiry_of with_slash
presign_path lib now host access_key secret r path =
    if ltb max_expiry (expiry_of r)
    then beyond_range
    else url_reply (
        generate_presigned_url lib now (or_else (query_value r "method") (codes "GET"))
          (codes "http://" ++ host) (with_slash (with_download r path)) access_key secret
          (expiry_of r))

-- GeneratePresignedURL; `now` is in seconds and `host` is the request's.
unfoldable pub handle_presign : UrlLibrary → ℕ → Text → Text → Text → Request → PresignReply
unfolding requested_path presign_path
handle_presign lib now host access_key secret r =
    let path = requested_path r in
    let reply = presign_path lib now host access_key secret r path in
    if is_empty path then bad_request else reply
