-- ===== src/Golang/NetHttp.antt =====
-- net/http as the code uses it: header maps, requests, what a handler does to its ResponseWriter, and
-- what the server sends for it. Header names are written in their canonical form.
use dense_cloud.Prelude.{
  leb, ◌==◌, str_eq, if◌then◌else◌, is_some, ℤ, string_eq, get_or, alter, get_or-alter, ℕ, String,
  ◌≡◌, refl, Bool, false, not, ◌&&◌, Option, none, some, List, [], ◌∷◌, ◌++◌, arith,
}
use dense_cloud.Golang.Contexts.{Context}

abbrev pub Headers : Type 0
Headers = List (String × List String)

abbrev pub first_of : List String → String
first_of [] = ""
first_of (value ∷ values) = value

-- Values, Get, Set and Add of http.Header
unfoldable pub header_values : String → Headers → List String
header_values key headers = get_or ⦃e = string_eq⦄ [] key headers

unfoldable pub header_get : String → Headers → String
unfolding header_values
header_get key headers = first_of (header_values key headers)

unfoldable pub header_set : String → String → Headers → Headers
header_set key value headers = alter ⦃e = string_eq⦄ [] (λ old. value ∷ []) key headers

unfoldable pub header_add : String → String → Headers → Headers
header_add key value headers = alter ⦃e = string_eq⦄ [] (λ old. old ++ value ∷ []) key headers

-- The calls of a handler on the ResponseWriter; `read_from` is ReadFrom, by which io.Copy writes.
pub data WriterCall : Type 0 where
  set_header : String → String → WriterCall
  add_header : String → String → WriterCall
  write_header : ℕ → WriterCall
  write : String → WriterCall
  read_from : String → WriterCall

-- The header map behind the calls.
unfoldable pub header_after : List WriterCall → Headers → Headers
header_after [] headers = headers
header_after (set_header key value ∷ calls) headers =
    header_after calls (header_set key value headers)
header_after (add_header key value ∷ calls) headers =
    header_after calls (header_add key value headers)
header_after (write_header code ∷ calls) headers = header_after calls headers
header_after (write bytes ∷ calls) headers = header_after calls headers
header_after (read_from bytes ∷ calls) headers = header_after calls headers

-- The header map, and what the server has sent: the first final status, or 200 if a body comes first, with
-- the headers of that moment.
pub record Response : Type 0 where
  pub headers : Headers
  pub status : Option ℕ
  pub sent_headers : Headers
  pub body : List String

-- An informational status, which net/http sends at once and which leaves the response open: 1xx
-- without 101. These extra answers are left out of the response.
unfoldable pub is_informational : ℕ → Bool
is_informational code = leb 100 code && leb code 199 && not (code == 101)

unfoldable pub send_status : ℕ → Response → Response
unfolding is_informational
send_status code response =
    if is_informational code
    then response
    else if is_some response.status
    then response
    else record response { status = some code; sent_headers = response.headers }

abbrev pub send_body : String → Response → Response
send_body bytes response = record response { body = response.body ++ bytes ∷ [] }

unfoldable pub serve_call : Response → WriterCall → Response
unfolding send_status header_set header_add
serve_call response (set_header key value) = record response {
  headers = header_set key value response.headers;
}
serve_call response (add_header key value) = record response {
  headers = header_add key value response.headers;
}
serve_call response (write_header code) = send_status code response
serve_call response (write bytes) = send_body bytes (send_status 200 response)
serve_call response (read_from bytes) = send_body bytes (send_status 200 response)

unfoldable pub serve : Response → List WriterCall → Response
unfolding serve_call
serve response [] = response
serve response (call ∷ calls) = serve (serve_call response call) calls

-- No informational status.
abbrev pub LacksInformational : List WriterCall → Type 0
LacksInformational [] = Unit
LacksInformational (write_header code ∷ calls) =
    (is_informational code ≡ false) × LacksInformational calls
LacksInformational (set_header key value ∷ calls) = LacksInformational calls
LacksInformational (add_header key value ∷ calls) = LacksInformational calls
LacksInformational (write bytes ∷ calls) = LacksInformational calls
LacksInformational (read_from bytes ∷ calls) = LacksInformational calls

abbrev pub unsent : Response
unsent = record { headers = []; status = none; sent_headers = []; body = [] }

-- The status that net/http sends in the end, 200 when the handler wrote nothing.
abbrev pub sent_status : Response → ℕ
sent_status response = elim response.status [ none ↦ 200 | some code ↦ code ]

-- What the code reads of a request: `request_id` is the value of the context under requestIDKey, and
-- `body_limit` the limit of http.MaxBytesReader on the body.
pub record Request : Type 0 where
  pub method : String
  pub path : String
  pub headers : Headers
  pub remote_addr : String
  pub content_length : ℤ
  pub body_limit : Option ℤ
  pub ctx : Context
  pub request_id : Option String

-- A handler gets the request and the header map of its writer, acts on the state `S` of the process,
-- calls the writer, and may panic behind that.
abbrev pub HttpHandler : Type 0 → Type 0
HttpHandler S = Request → Headers → S → S × List WriterCall × Bool

abbrev pub HttpMiddleware : Type 0 → Type 0
HttpMiddleware S = HttpHandler S → HttpHandler S

module _ {S : Type 0} where
  -- Calls of the writer, and then a handler.
  unfoldable pub calls_then : List WriterCall → HttpMiddleware S
  calls_then calls next r headers s =
      let (s₁, rest, panicked) = next r (header_after calls headers) s in
      (s₁, calls ++ rest, panicked)

pub LacksInformational-append :
    (xs ys : List WriterCall)
    → LacksInformational xs
    → LacksInformational ys
    → LacksInformational (xs ++ ys)
LacksInformational-append [] ys h k = k
LacksInformational-append (set_header key value ∷ xs) ys h k = LacksInformational-append xs ys h k
LacksInformational-append (add_header key value ∷ xs) ys h k = LacksInformational-append xs ys h k
LacksInformational-append (write_header code ∷ xs) ys h k =
    (h.0, LacksInformational-append xs ys h.1 k)
LacksInformational-append (write bytes ∷ xs) ys h k = LacksInformational-append xs ys h k
LacksInformational-append (read_from bytes ∷ xs) ys h k = LacksInformational-append xs ys h k

pub LacksInformational-split :
    (call : WriterCall) (calls : List WriterCall)
    → LacksInformational (call ∷ calls)
    → LacksInformational (call ∷ []) × LacksInformational calls
LacksInformational-split (set_header key value) calls l = (tt, l)
LacksInformational-split (add_header key value) calls l = (tt, l)
LacksInformational-split (write_header code) calls l = ((l.0, tt), l.1)
LacksInformational-split (write bytes) calls l = (tt, l)
LacksInformational-split (read_from bytes) calls l = (tt, l)

pub serve-append :
    (xs ys : List WriterCall) (response : Response)
    → serve response (xs ++ ys) ≡ serve (serve response xs) ys
unfolding serve
serve-append [] ys response = refl
serve-append (x ∷ xs) ys response = serve-append xs ys (serve_call response x)

pub header_get-set :
    (key other value : String) (headers : Headers)
    → header_get other (header_set key value headers)
      ≡ (if str_eq key other then value else header_get other headers)
unfolding header_get header_values header_set
header_get-set key other value headers =
    ground
      (arith, get_or-alter ⦃e = string_eq⦄ [] (λ (old : List String). value ∷ []) key other headers)

pub header_values-set :
    (key other value : String) (headers : Headers)
    → header_values other (header_set key value headers)
      ≡ (if str_eq key other then value ∷ [] else header_values other headers)
unfolding header_values header_set
header_values-set key other value headers =
    get_or-alter ⦃e = string_eq⦄ [] (λ (old : List String). value ∷ []) key other headers

pub header_values-add :
    (key other value : String) (headers : Headers)
    → header_values other (header_add key value headers) ≡ (
        if str_eq key other
        then header_values other headers ++ value ∷ []
        else header_values other headers)
unfolding header_values header_add
header_values-add key other value headers =
    get_or-alter ⦃e = string_eq⦄ [] (λ (old : List String). old ++ value ∷ []) key other headers

-- Add leaves the other keys as they are.
pub header_get-add :
    (key other value : String) (headers : Headers)
    → str_eq key other ≡ false
    → header_get other (header_add key value headers) ≡ header_get other headers
unfolding header_get
header_get-add key other value headers different =
    ground (arith, header_values-add key other value headers)

pub header_after-append :
    (xs ys : List WriterCall) (headers : Headers)
    → header_after (xs ++ ys) headers ≡ header_after ys (header_after xs headers)
unfolding header_after
header_after-append [] ys headers = refl
header_after-append (set_header key value ∷ xs) ys headers =
    header_after-append xs ys (header_set key value headers)
header_after-append (add_header key value ∷ xs) ys headers =
    header_after-append xs ys (header_add key value headers)
header_after-append (write_header code ∷ xs) ys headers = header_after-append xs ys headers
header_after-append (write bytes ∷ xs) ys headers = header_after-append xs ys headers
header_after-append (read_from bytes ∷ xs) ys headers = header_after-append xs ys headers
