-- ===== src/Middleware/Tests/HeaderRuns.antt =====
-- Runs of the header middleware of go/middleware/http.go, and its theorems at them.
use dense_cloud.Prelude.{
  pos, get_or, ℕ, suc, String, ◌≡◌, refl, ◌⊎◌, false, Option, none, List, [], ◌∷◌, ◌++◌,
}
use dense_cloud.Golang.Contexts.{background}
use dense_cloud.Golang.Strings.{trim_space, split_comma}
use dense_cloud.Golang.NetHttp.{
  header_values, header_get, add_header, write_header, write, header_after, is_informational, serve,
  unsent, sent_status, Request, HttpHandler, calls_then,
}
use dense_cloud.Middleware.Http.Cors.{
  tokens_of, vary_tokens, add_vary_fields, add_vary_header, vary_calls, cors_calls, cors,
}
use dense_cloud.Middleware.Http.Logging.{LogEntry, HasLevel, logging, logging-status}
use dense_cloud.Middleware.Http.AllowedOrigins.{IsFromAllowed, IsPreflight, cors-answers}

abbrev ask_items : Request
ask_items = record {
  method = "OPTIONS";
  path = "/v1/items";
  headers =
      ("Origin", "https://a.example" ∷ []) ∷ ("Access-Control-Request-Method", "PUT" ∷ []) ∷ [];
  remote_addr = "10.0.0.1:4711";
  content_length = pos 0;
  body_limit = none;
  ctx = background;
  request_id = none;
}

abbrev unchanged : String → String
unchanged s = s

-- The list is read up to spaces around its entries.
abbrev origins : List String
origins = " https://a.example " ∷ "https://b.example" ∷ []

vary_twice_example :
    vary_calls unchanged ask_items (("Vary", "Accept, Origin" ∷ []) ∷ [])
    ≡ add_header "Vary" "Access-Control-Request-Method"
      ∷ add_header "Vary" "Access-Control-Request-Headers"
      ∷ []
unfolding vary_calls add_vary_header add_vary_fields vary_tokens tokens_of header_values trim_space
    get_or split_comma header_after
vary_twice_example = refl

abbrev items_handler : HttpHandler ℕ
items_handler r headers n = (n, write_header 404 ∷ write "gone" ∷ [], false)

-- The state counts the ids that were made.
abbrev make_id : ℕ → ℕ × String
make_id n = (suc n, "c4")

abbrev no_split : String → Option String
no_split addr = none

abbrev one_each : String → ℕ
one_each bytes = 1

abbrev keep_status : LogEntry → ℕ → ℕ
keep_status entry n = entry.status_code

logging-status_example :
    let (s₁, calls, panicked) = items_handler ask_items [] 0 in
    let (s₂, passed, panics) = logging one_each no_split keep_status items_handler ask_items [] 0 in
    (entry : LogEntry) × (s₂ ≡ keep_status entry s₁)
    × (entry.status_code ≡ sent_status (serve unsent calls))
    × HasLevel (sent_status (serve unsent calls)) entry.level
    × (serve unsent passed ≡ serve unsent calls)
unfolding is_informational
logging-status_example =
    logging-status one_each no_split keep_status items_handler ask_items [] 0 refl (refl, tt)

cors-answers_example :
    let calls = cors_calls unchanged origins ask_items [] in
    let answered = cors unchanged origins items_handler ask_items [] 0 in
    let allow_origin = header_get "Access-Control-Allow-Origin" (header_after calls []) in
    (IsFromAllowed origins ask_items
      × IsPreflight ask_items
      × (answered ≡ (0, calls ++ write_header 204 ∷ [], false))
      × (allow_origin ≡ header_get "Origin" ask_items.headers))
    ⊎ ((IsFromAllowed origins ask_items
          × (¬ IsPreflight ask_items)
          × (answered ≡ calls_then calls items_handler ask_items [] 0)
          × (allow_origin ≡ header_get "Origin" ask_items.headers))
        ⊎ ((¬ IsFromAllowed origins ask_items)
            × (answered ≡ calls_then calls items_handler ask_items [] 0)
            × (allow_origin ≡ header_get "Access-Control-Allow-Origin" [])))
cors-answers_example = cors-answers unchanged origins items_handler ask_items [] 0
