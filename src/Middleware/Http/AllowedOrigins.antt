-- ===== src/Middleware/Http/AllowedOrigins.antt =====
-- Which requests CORS of go/middleware/http.go answers, and with which origin.
use dense_cloud.Prelude.{
  str_eq, Bool-cases, any, String, ◌≡◌, refl, ap, ◌≢◌, ◌⊎◌, inl, inr, true, false, not, List, [],
  ◌∷◌, ◌++◌, arith, eq_iff,
}
use dense_cloud.Middleware.Http.Cors.{
  is_wildcard, is_allowed, origin_allowed, is_preflight, cors_calls, cors, cors_calls-allow_origin,
}
use dense_cloud.Golang.Strings.{trim_space}
use dense_cloud.Golang.NetHttp.{
  Headers, header_get, write_header, header_after, Request, HttpHandler, calls_then,
}

-- One of the configured origins, without the white space around it.
abbrev pub IsListed : List String → String → Type 0
IsListed [] origin = ⊥
IsListed (allowed ∷ rest) origin = (origin ≡ trim_space allowed) ⊎ IsListed rest origin

-- A request from an origin that is configured, or from any where "*" alone is.
abbrev pub IsFromAllowed : List String → Request → Type 0
IsFromAllowed allowed_origins r =
    let origin = header_get "Origin" r.headers in
    (origin ≢ "") × ((allowed_origins ≡ "*" ∷ []) ⊎ IsListed allowed_origins origin)

abbrev pub IsPreflight : Request → Type 0
IsPreflight r =
    (r.method ≡ "OPTIONS")
    × (header_get "Origin" r.headers ≢ "")
    × (header_get "Access-Control-Request-Method" r.headers ≢ "")

str_eq-false : (s t : String) → str_eq s t ≡ false → s ≢ t
str_eq-false s t q e = ground (arith, eq_iff s t)

str_eq-not : (s t : String) → not (str_eq s t) ≡ true → s ≢ t
str_eq-not s t q e = ground (arith, eq_iff s t)

str_eq-other : (s t : String) → s ≢ t → not (str_eq s t) ≡ true
str_eq-other s t ne = ground (arith, eq_iff s t, ne)

any-IsListed :
    (allowed_origins : List String) (origin : String)
    → any (λ allowed. str_eq origin (trim_space allowed)) allowed_origins ≡ true
    → IsListed allowed_origins origin
any-IsListed [] origin q = absurd (ground (arith, q))
any-IsListed (allowed ∷ rest) origin q = elim (Bool-cases (str_eq origin (trim_space allowed))) [
  | inl same ↦ inl ((eq_iff origin (trim_space allowed)).0 same)
  | inr other ↦ inr (any-IsListed rest origin (ground (arith, q, other)))
]

IsListed-any :
    (allowed_origins : List String) (origin : String)
    → IsListed allowed_origins origin
    → any (λ allowed. str_eq origin (trim_space allowed)) allowed_origins ≡ true
IsListed-any [] origin h = absurd h
IsListed-any (allowed ∷ rest) origin (inl e) = ground (arith, e, eq_iff origin (trim_space allowed))
IsListed-any (allowed ∷ rest) origin (inr h) = ground (arith, IsListed-any rest origin h)

is_wildcard-alone : (origins : List String) → is_wildcard origins ≡ true → origins ≡ "*" ∷ []
is_wildcard-alone [] q = cc
is_wildcard-alone (origin ∷ []) q = ap (λ (s : String). s ∷ []) ((eq_iff origin "*").0 q)
is_wildcard-alone (origin ∷ next ∷ rest) q = cc

origin_allowed-IsFromAllowed :
    (allowed_origins : List String) (r : Request)
    → origin_allowed allowed_origins r ≡ true
    → IsFromAllowed allowed_origins r
unfolding is_allowed
origin_allowed-IsFromAllowed allowed_origins r q =
    let origin = header_get "Origin" r.headers in
    (
      str_eq-not origin "" (ground (arith, q)),
      elim (Bool-cases (is_wildcard allowed_origins)) [
        | inl wild ↦ inl (is_wildcard-alone allowed_origins wild)
        | inr named ↦ inr (any-IsListed allowed_origins origin (ground (arith, q, named)))
      ],
    )

IsFromAllowed-origin_allowed :
    (allowed_origins : List String) (r : Request)
    → IsFromAllowed allowed_origins r
    → origin_allowed allowed_origins r ≡ true
unfolding is_allowed
IsFromAllowed-origin_allowed allowed_origins r (named, inl wild) =
    let some_origin = str_eq-other (header_get "Origin" r.headers) "" named in
    rw (wild, some_origin) refl
IsFromAllowed-origin_allowed allowed_origins r (named, inr listed) =
    let origin = header_get "Origin" r.headers in
    ground (arith, str_eq-other origin "" named, IsListed-any allowed_origins origin listed)

is_preflight-IsPreflight : (r : Request) → is_preflight r ≡ true → IsPreflight r
unfolding is_preflight
is_preflight-IsPreflight r q = (
  (eq_iff r.method "OPTIONS").0 (ground (arith, q)),
  str_eq-not (header_get "Origin" r.headers) "" (ground (arith, q)),
  str_eq-not (header_get "Access-Control-Request-Method" r.headers) "" (ground (arith, q)),
)

IsPreflight-is_preflight : (r : Request) → IsPreflight r → is_preflight r ≡ true
unfolding is_preflight
IsPreflight-is_preflight r (options, named, asked) = ground (
  arith,
  (eq_iff r.method "OPTIONS").1 options,
  str_eq-other (header_get "Origin" r.headers) "" named,
  str_eq-other (header_get "Access-Control-Request-Method" r.headers) "" asked,
)

module _ {S : Type 0} (to_lower : String → String) where
  -- What CORS does with a request. From a configured origin, or any origin where "*" alone is
  -- configured, a preflight is answered with 204 in front of the handler, and any other request is
  -- passed on, with that origin as Allow-Origin. From another origin, or from none, every request is
  -- passed on, with the Allow-Origin that the header map had before.
  pub cors-answers :
      (allowed_origins : List String) (next : HttpHandler S) (r : Request) (headers : Headers)
      (s : S)
      → let calls = cors_calls to_lower allowed_origins r headers in
        let answered = cors to_lower allowed_origins next r headers s in
        let allow_origin = header_get "Access-Control-Allow-Origin" (header_after calls headers) in
        (IsFromAllowed allowed_origins r
          × IsPreflight r
          × (answered ≡ (s, calls ++ write_header 204 ∷ [], false))
          × (allow_origin ≡ header_get "Origin" r.headers))
        ⊎ ((IsFromAllowed allowed_origins r
              × (¬ IsPreflight r)
              × (answered ≡ calls_then calls next r headers s)
              × (allow_origin ≡ header_get "Origin" r.headers))
            ⊎ ((¬ IsFromAllowed allowed_origins r)
                × (answered ≡ calls_then calls next r headers s)
                × (allow_origin ≡ header_get "Access-Control-Allow-Origin" headers)))
  unfolding cors
  cors-answers allowed_origins next r headers s =
      let header = cors_calls-allow_origin to_lower allowed_origins r headers in
      elim (Bool-cases (origin_allowed allowed_origins r)) [
        | inl allowed ↦
            let from = origin_allowed-IsFromAllowed allowed_origins r allowed in
            elim (Bool-cases (is_preflight r)) [
              | inl asked ↦ inl (
                from,
                is_preflight-IsPreflight r asked,
                rw (asked, allowed) refl,
                rw allowed at header,
              )
              | inr plain ↦ inr (
                  inl (
                    from,
                    (λ h. ground (arith, plain, IsPreflight-is_preflight r h)),
                    rw plain refl,
                    rw allowed at header,
                  ))
            ]
        | inr refused ↦ inr (
            inr (
              (λ h. ground (arith, refused, IsFromAllowed-origin_allowed allowed_origins r h)),
              ground (arith, refused),
              rw refused at header,
            ))
      ]
