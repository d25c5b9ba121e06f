-- ===== src/Middleware/Http/ContentType.antt =====
-- The default content type of go/middleware/http.go.
use dense_cloud.Prelude.{
  str_eq, if◌then◌else◌, String, ◌<>◌, ◌≡◌, Bool, true, ◌&&◌, ◌||◌, List, [], ◌∷◌, arith,
}
use dense_cloud.Golang.Strings.{has_prefix, trim_suffix_slash, trim_space}
use dense_cloud.Golang.NetHttp.{
  Headers, header_get, WriterCall, set_header, header_after, Request, HttpMiddleware, calls_then,
  header_get-set,
}

abbrev pub with_leading_slash : String → String
with_leading_slash prefix = if has_prefix prefix "/" then prefix else "/" <> prefix

unfoldable pub normalize_content_type_prefix : String → String
normalize_content_type_prefix given =
    let prefix = trim_space given in
    if str_eq prefix "" then "/v1" else trim_suffix_slash (with_leading_slash prefix)

unfoldable pub path_has_prefix : String → String → Bool
path_has_prefix path prefix =
    if str_eq prefix "" || str_eq prefix "/"
    then true
    else str_eq path prefix || has_prefix path (prefix <> "/")

-- The call of the writer, if any, for a request.
unfoldable pub content_type_calls : String → String → Request → Headers → List WriterCall
content_type_calls prefix content_type r headers =
    if path_has_prefix r.path (normalize_content_type_prefix prefix)
      && str_eq (header_get "Content-Type" headers) ""
    then set_header "Content-Type" content_type ∷ []
    else []

module _ {S : Type 0} where
  unfoldable pub content_type_for_prefix : String → String → HttpMiddleware S
  content_type_for_prefix prefix content_type next r headers s =
      calls_then (content_type_calls prefix content_type r headers) next r headers s

  -- ContentType
  unfoldable pub content_type_default : String → HttpMiddleware S
  content_type_default content_type = content_type_for_prefix "/v1" content_type

-- In front of the handler, a request below the prefix has the content type that was set before, or
-- the default where none was set; any other request has what was set before.
pub content_type_calls-header :
    (prefix content_type : String) (r : Request) (headers : Headers)
    → header_get "Content-Type"
        (header_after (content_type_calls prefix content_type r headers) headers)
      ≡ (if path_has_prefix r.path (normalize_content_type_prefix prefix)
            && str_eq (header_get "Content-Type" headers) ""
          then content_type
          else header_get "Content-Type" headers)
unfolding content_type_calls header_after
content_type_calls-header prefix content_type r headers =
    ground (arith, header_get-set "Content-Type" "Content-Type" content_type headers)
