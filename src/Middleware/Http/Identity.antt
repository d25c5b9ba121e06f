-- ===== src/Middleware/Http/Identity.antt =====
-- Request ids of go/middleware/http.go, and the keys of a client in go/middleware/ratelimit.go.
-- Outside are crypto/rand, which new ids come from, and net.SplitHostPort: `split` gives the host,
-- `none` for an error.
use dense_cloud.Golang.Contexts.{second}
use dense_cloud.Prelude.{
  str_eq, if◌then◌else◌, Bool-cases, String, ◌≡◌, refl, ◌≢◌, ◌⊎◌, inl, inr, Option, none, some, [],
  ◌∷◌, arith, eq_iff,
}
use dense_cloud.Golang.Strings.{trim_space, before_comma}
use dense_cloud.Golang.NetHttp.{
  Headers, header_get, set_header, header_after, Request, HttpHandler, HttpMiddleware, calls_then,
  header_get-set,
}

abbrev pub or_empty : Option String → String
or_empty none = ""
or_empty (some id) = id

-- GetRequestID, on the value of the context.
unfoldable pub get_request_id : Request → String
get_request_id r = or_empty r.request_id

-- The first text that is not empty, else the second.
abbrev pub text_or_else : String → String → String
text_or_else first second = if str_eq first "" then second else first

-- requestIDForLog; `headers` is the header map of the writer.
unfoldable pub request_id_for_log : Request → Headers → String
unfolding get_request_id
request_id_for_log r headers =
    text_or_else (get_request_id r)
      (text_or_else (header_get "X-Request-ID" r.headers) (header_get "X-Request-ID" headers))

module _ {S : Type 0} where
  -- The id of the request, or a new one.
  unfoldable pub choose_request_id : (S → S × String) → Request → S → S × String
  choose_request_id new_request_id r s =
      let given = header_get "X-Request-ID" r.headers in
      if str_eq given "" then new_request_id s else (s, given)

  unfoldable pub request_id : (S → S × String) → HttpMiddleware S
  request_id new_request_id next r headers s =
      let (s₁, id) = choose_request_id new_request_id r s in
      calls_then (set_header "X-Request-ID" id ∷ []) next (record r { request_id = some id })
        headers s₁

  -- If new ids are not empty, the handler behind RequestID runs once, with an id that is not empty;
  -- the response has the same id in X-Request-ID, and it is the request's own where it has one.
  pub request_id-shared :
      (new_request_id : S → S × String) (next : HttpHandler S) (r : Request) (headers : Headers)
      (s : S)
      → (new_request_id s).1 ≢ ""
      → (id : String) × (s₁ : S) × (id ≢ "")
        × ((header_get "X-Request-ID" r.headers ≡ "") ⊎ (id ≡ header_get "X-Request-ID" r.headers))
        × (header_get "X-Request-ID" (header_after (set_header "X-Request-ID" id ∷ []) headers)
            ≡ id)
        × (request_id new_request_id next r headers s
            ≡ calls_then
                (set_header "X-Request-ID" id ∷ [])
                next
                (record r { request_id = some id })
                headers
                s₁)
  unfolding request_id choose_request_id header_after
  request_id-shared new_request_id next r headers s h =
      let given = header_get "X-Request-ID" r.headers in
      let sent = λ (id : String). header_get-set "X-Request-ID" "X-Request-ID" id headers in
      elim (Bool-cases (str_eq given "")) [
        | inl e ↦
            let (s₁, id) = new_request_id s in
            (id, s₁, h, inl ((eq_iff given "").0 e), sent id, rw e refl)
        | inr e ↦ (
          given,
          s,
          (λ x. ground (arith, eq_iff given "", e, x)),
          inr refl,
          sent given,
          rw e refl,
        )
      ]

-- remoteAddrKey
unfoldable pub remote_addr_key : (String → Option String) → String → String
remote_addr_key split remote_addr =
    if str_eq remote_addr ""
    then ""
    else (let addr = trim_space remote_addr in
        elim (split addr) [ none ↦ addr | some host ↦ text_or_else host addr ])

-- forwardedIPKey
unfoldable pub forwarded_ip_key : String → String
forwarded_ip_key forwarded_for = trim_space (before_comma forwarded_for)

-- defaultHTTPRateLimitKey; `none` is a nil request.
unfoldable pub default_http_rate_limit_key : (String → Option String) → Option Request → String
default_http_rate_limit_key split none = "global"
default_http_rate_limit_key split (some r) =
    text_or_else (remote_addr_key split r.remote_addr) "global"
