-- ===== src/Middleware/Http/Cors.antt =====
-- CORS of go/middleware/http.go, and the Vary header that it keeps. `to_lower` is strings.ToLower.
use dense_cloud.Prelude.{
  str_eq, if◌then◌else◌, if_both, any, String, ◌≡◌, refl, ◌∙◌, Bool, true, false, not, ◌&&◌, List,
  [], ◌∷◌, ◌++◌, arith,
}
use dense_cloud.Golang.Strings.{trim_space, split_comma}
use dense_cloud.Golang.NetHttp.{
  Headers, header_values, header_get, header_add, WriterCall, set_header, add_header, write_header,
  header_after, Request, HttpMiddleware, calls_then, header_get-set, header_get-add,
  header_after-append,
}

abbrev pub has_token : String → List String → Bool
has_token key tokens = any (λ token. str_eq token key) tokens

abbrev pub is_wildcard : List String → Bool
is_wildcard [] = false
is_wildcard (origin ∷ []) = str_eq origin "*"
is_wildcard (origin ∷ next ∷ rest) = false

unfoldable pub is_allowed : List String → String → Bool
is_allowed allowed_origins origin =
    if is_wildcard allowed_origins
    then true
    else any (λ allowed. str_eq origin (trim_space allowed)) allowed_origins

abbrev pub is_options : Request → Bool
is_options r = str_eq r.method "OPTIONS"

abbrev pub origin_allowed : List String → Request → Bool
origin_allowed allowed_origins r =
    let origin = header_get "Origin" r.headers in
    not (str_eq origin "") && is_allowed allowed_origins origin

unfoldable pub is_preflight : Request → Bool
is_preflight r =
    is_options r
    && not (str_eq (header_get "Origin" r.headers) "")
    && not (str_eq (header_get "Access-Control-Request-Method" r.headers) "")

abbrev pub allow_calls : String → List WriterCall
allow_calls origin =
    set_header "Access-Control-Allow-Origin" origin
    ∷ set_header "Access-Control-Allow-Methods" "GET, POST, PUT, DELETE, OPTIONS"
    ∷ set_header "Access-Control-Allow-Headers" "Content-Type, Authorization, X-Request-ID"
    ∷ set_header "Access-Control-Expose-Headers" "X-Request-ID"
    ∷ set_header "Access-Control-Max-Age" "86400"
    ∷ []

allow_calls-header :
    (origin : String) (headers : Headers)
    → header_get "Access-Control-Allow-Origin" (header_after (allow_calls origin) headers) ≡ origin
unfolding header_after
allow_calls-header origin headers = simp (header_get-set)

module _ (to_lower : String → String) where
  -- The tokens of the parts of a value, and of several values.
  unfoldable pub tokens_of : List String → List String
  tokens_of [] = []
  tokens_of (part ∷ parts) =
      let rest = tokens_of parts in
      let token = trim_space part in if str_eq token "" then rest else to_lower token ∷ rest

  unfoldable pub vary_tokens : List String → List String
  vary_tokens [] = []
  vary_tokens (value ∷ values) = tokens_of (split_comma value) ++ vary_tokens values

  -- The loop over the fields; `existing` are the tokens that are there.
  unfoldable pub add_vary_fields : List String → List String → List WriterCall
  add_vary_fields existing [] = []
  add_vary_fields existing (field ∷ fields) =
      let token = trim_space field in
      let skip = add_vary_fields existing fields in
      let more = add_vary_fields (to_lower token ∷ existing) fields in
      if str_eq token ""
      then skip
      else if has_token (to_lower token) existing
      then skip
      else add_header "Vary" token ∷ more

  unfoldable pub add_vary_header : Headers → List String → List WriterCall
  add_vary_header headers fields =
      add_vary_fields (vary_tokens (header_values "Vary" headers)) fields

  -- The Vary fields of a request.
  unfoldable pub vary_calls : Request → Headers → List WriterCall
  vary_calls r headers =
      let first = add_vary_header headers ("Origin" ∷ []) in
      if is_options r
      then first
        ++ add_vary_header (header_after first headers)
            ("Access-Control-Request-Method" ∷ "Access-Control-Request-Headers" ∷ [])
      else first

  unfoldable pub cors_calls : List String → Request → Headers → List WriterCall
  cors_calls allowed_origins r headers =
      vary_calls r headers
      ++ (if origin_allowed allowed_origins r
          then allow_calls (header_get "Origin" r.headers)
          else [])

  module _ {S : Type 0} where
    unfoldable pub cors : List String → HttpMiddleware S
    cors allowed_origins next r headers s =
        let calls = cors_calls allowed_origins r headers in
        if is_preflight r && origin_allowed allowed_origins r
        then (s, calls ++ write_header 204 ∷ [], false)
        else calls_then calls next r headers s

  -- The Vary fields do not touch another key of the header map.
  add_vary_fields-header :
      (existing fields : List String) (key : String) (headers : Headers)
      → str_eq "Vary" key ≡ false
      → header_get key (header_after (add_vary_fields existing fields) headers)
        ≡ header_get key headers
  unfolding add_vary_fields header_after
  add_vary_fields-header existing [] key headers other = refl
  add_vary_fields-header existing (field ∷ fields) key headers other =
      let token = trim_space field in
      ground (
        arith,
        header_get-add "Vary" key token headers,
        add_vary_fields-header existing fields key headers other,
        add_vary_fields-header (to_lower token ∷ existing) fields key
            (header_add "Vary" token headers) other,
      )

  vary_calls-header :
      (r : Request) (key : String) (headers : Headers)
      → str_eq "Vary" key ≡ false
      → header_get key (header_after (vary_calls r headers) headers) ≡ header_get key headers
  unfolding vary_calls add_vary_header
  vary_calls-header r key headers other =
      let first = add_vary_header headers ("Origin" ∷ []) in
      let fields = "Access-Control-Request-Method" ∷ "Access-Control-Request-Headers" ∷ [] in
      let existing = vary_tokens (header_values "Vary" headers) in
      let later = vary_tokens (header_values "Vary" (header_after first headers)) in
      let at_first = add_vary_fields-header existing ("Origin" ∷ []) key headers other in
      if_both
        (λ (calls : List WriterCall).
          header_get key (header_after calls headers) ≡ header_get key headers)
        (is_options r) (first ++ add_vary_header (header_after first headers) fields) first
        (λ q.
          rw
            (header_after-append first (add_vary_header (header_after first headers) fields)
              headers)
            (add_vary_fields-header later fields key (header_after first headers) other ∙ at_first))
        (λ q. at_first)

  -- The header in terms of the tests of the code.
  pub cors_calls-allow_origin :
      (allowed_origins : List String) (r : Request) (headers : Headers)
      → header_get "Access-Control-Allow-Origin"
          (header_after (cors_calls allowed_origins r headers) headers)
        ≡ (if origin_allowed allowed_origins r
            then header_get "Origin" r.headers
            else header_get "Access-Control-Allow-Origin" headers)
  unfolding cors_calls header_after
  cors_calls-allow_origin allowed_origins r headers =
      let key : String = "Access-Control-Allow-Origin" in
      let origin = header_get "Origin" r.headers in
      let varied = header_after (vary_calls r headers) headers in
      let other : str_eq "Vary" key ≡ false = refl in
      if_both
        (λ (calls : List WriterCall).
          header_get key (header_after (vary_calls r headers ++ calls) headers)
          ≡ (if origin_allowed allowed_origins r then origin else header_get key headers))
        (origin_allowed allowed_origins r) (allow_calls origin) []
        (λ q.
          rw (header_after-append (vary_calls r headers) (allow_calls origin) headers)
            (ground (arith, q, allow_calls-header origin varied)))
        (λ q.
          rw (header_after-append (vary_calls r headers) [] headers)
            (ground (arith, q, vary_calls-header r key headers other)))
