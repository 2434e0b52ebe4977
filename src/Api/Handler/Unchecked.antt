-- ===== src/Api/Handler/Unchecked.antt =====
-- internal/api/handler.go, BulkUpload: what it does not look at.
use omni_blob.Base.{
  ◌≡◌, refl, ap, ◌∙◌, not, Option, List, [], ◌∷◌, if◌then◌else◌, Text, codes, text_eq,
}
use omni_blob.Http.{Request}
use omni_blob.Api.Handler.{World, Handler, Env}
use omni_blob.Api.Handler.Upload.{store_part, index_upload}
use omni_blob.Api.Handler.Bulk.{
  BulkPart, BulkForm, malformed_form, parsed_form, bulk_refused, processed, bulk_parts, bulk_one,
  bulk_all, process, bulk_upload,
}

bulk_one-unchecked :
    (h : Handler) (extensions : List Text) (env : Env) (r : Request) (client : Option Text)
    (p : BulkPart) (w : World)
    → bulk_one (record h { allowed_extensions = extensions }) env r client p w
      ≡ bulk_one h env r client p w
unfolding bulk_one store_part index_upload
bulk_one-unchecked h extensions env r client p w = refl

bulk_all-unchecked :
    (h : Handler) (extensions : List Text) (env : Env) (r : Request) (client : Option Text)
    (ps : List BulkPart) (w : World)
    → bulk_all (record h { allowed_extensions = extensions }) env r client ps w
      ≡ bulk_all h env r client ps w
unfolding bulk_all
bulk_all-unchecked h extensions env r client [] w = refl
bulk_all-unchecked h extensions env r client (p ∷ ps) w =
    let first = bulk_one h env r client p w in
    ap
      (λ x.
        let rest = bulk_all (record h { allowed_extensions = extensions }) env r client ps x.0 in
        (rest.0, x.1 ∷ rest.1))
      (bulk_one-unchecked h extensions env r client p w)
    ∙ ap (λ x. (x.0, first.1 ∷ x.1)) (bulk_all-unchecked h extensions env r client ps first.0)

process-unchecked :
    (h : Handler) (extensions : List Text) (env : Env) (r : Request) (client : Option Text)
    (ps : List BulkPart) (w : World)
    → process (record h { allowed_extensions = extensions }) env r client ps w
      ≡ process h env r client ps w
process-unchecked h extensions env r client [] w = refl
process-unchecked h extensions env r client (p ∷ ps) w =
    ap (λ x. (x.0, processed x.1)) (bulk_all-unchecked h extensions env r client (p ∷ ps) w)

-- BulkUpload stores the same files and gives the same answer whatever extensions are allowed: it
-- makes none of the checks that Upload makes.
pub bulk_upload-unchecked :
    (h : Handler) (extensions : List Text) (env : Env) (r : Request) (client : Option Text)
    (form : BulkForm) (w : World)
    → bulk_upload (record h { allowed_extensions = extensions }) env r client form w
      ≡ bulk_upload h env r client form w
unfolding bulk_upload
bulk_upload-unchecked h extensions env r client malformed_form w = refl
bulk_upload-unchecked h extensions env r client (parsed_form files fallback) w =
    ap (λ x. if not (text_eq r.method (codes "POST")) then (w, bulk_refused 405) else x)
      (process-unchecked h extensions env r client (bulk_parts files fallback) w)
