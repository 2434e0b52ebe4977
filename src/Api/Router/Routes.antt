-- ===== src/Api/Router/Routes.antt =====
-- internal/api/router.go: the routes of NewRouter, as Go's http.ServeMux matches them. A path is the
-- one of the URL without escapes.
use omni_blob.Base.{
  ◌≡◌, refl, ◌&&◌, ◌||◌, not, List, [], ◌∷◌, ◌++◌, reverse, if◌then◌else◌, Text, codes, text_eq,
  is_empty, has_prefix, split_on,
}
use omni_blob.FilePath.{slash, clean}

-- Where a request goes; the text is the bucket.
pub data Route : Type 0 where
  static_page not_found moved health summary analytics quality explorer presign : Route
  upload bulk_upload view other : Text → Route

abbrev keep_slash : Text → Text → Text
keep_slash p cleaned =
    if has_prefix (reverse p) (slash ∷ []) && not (has_prefix (reverse cleaned) (slash ∷ []))
    then cleaned ++ slash ∷ []
    else cleaned

-- The mux redirects a path that is not clean; a slash at the end may stay.
unfoldable pub mux_path : Text → Text
mux_path p = keep_slash p (clean (slash ∷ p))

-- The pattern "/".
abbrev pub fallback : Text → Route
fallback p =
    if has_prefix p (codes "/api/") || text_eq p (codes "/health") then not_found else static_page

-- The parts below /api/v1/. A bucket alone is redirected to the bucket with a slash.
unfoldable pub api_route : Text → List Text → Route
api_route p [] = fallback p
api_route p (b ∷ []) =
    if text_eq b (codes "presign") then presign else if is_empty b then fallback p else moved
api_route p (b ∷ x ∷ []) =
    if text_eq b (codes "dashboard") && text_eq x (codes "summary")
    then summary
    else if text_eq b (codes "dashboard") && text_eq x (codes "analytics")
    then analytics
    else if text_eq b (codes "dashboard") && text_eq x (codes "quality")
    then quality
    else if text_eq b (codes "explorer") && text_eq x (codes "list")
    then explorer
    else if text_eq x (codes "upload")
    then upload b
    else if text_eq x (codes "bulk-upload")
    then bulk_upload b
    else if text_eq x (codes "view")
    then view b
    else other b
api_route p (b ∷ x ∷ y ∷ rest) = other b

abbrev below_api : Text → List Text → Route
below_api p (root ∷ api ∷ v1 ∷ parts) =
    if is_empty root && text_eq api (codes "api") && text_eq v1 (codes "v1")
    then api_route p parts
    else fallback p
below_api p _ = fallback p

unfoldable pub route_of : Text → Route
unfolding mux_path api_route
route_of p =
    if not (text_eq (mux_path p) p)
    then moved
    else if text_eq p (codes "/health")
    then health
    else below_api p (split_on slash p)

view_route : route_of (codes "/api/v1/paspor/view") ≡ view (codes "paspor")
unfolding route_of clean split_on text_eq has_prefix
view_route = refl

list_route : route_of (codes "/api/v1/explorer/list") ≡ explorer
unfolding route_of clean split_on text_eq has_prefix
list_route = refl

id_route : route_of (codes "/api/v1/paspor/7") ≡ other (codes "paspor")
unfolding route_of clean split_on text_eq has_prefix
id_route = refl
