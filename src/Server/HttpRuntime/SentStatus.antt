-- ===== src/Server/HttpRuntime/SentStatus.antt =====
-- Which status net/http sends for the calls of a handler, apart from the headers and the body.
use dense_cloud.Prelude.{
  if◌then◌else◌, Option-cases, ℕ, String, ◌≡◌, refl, ap, ◌∙◌, inl, inr, Option, none, some, List,
  [], ◌∷◌, ◌++◌, arith,
}
use dense_cloud.Golang.NetHttp.{
  WriterCall, set_header, add_header, write_header, write, read_from, Response, is_informational,
  send_status, serve_call, serve, LacksInformational,
}
use dense_cloud.Middleware.Http.Responses.{first_status}
use dense_cloud.Middleware.Http.Tracing.{set_if_some}

-- The status that is sent behind a WriteHeader.
abbrev pub status_on : Option ℕ → ℕ → Option ℕ
status_on sent code = if is_informational code then sent else first_status sent code

-- The status that is sent behind the calls, where `sent` is the one before them.
abbrev pub status_after : Option ℕ → List WriterCall → Option ℕ
status_after sent [] = sent
status_after sent (set_header key value ∷ calls) = status_after sent calls
status_after sent (add_header key value ∷ calls) = status_after sent calls
status_after sent (write_header code ∷ calls) = status_after (status_on sent code) calls
status_after sent (write bytes ∷ calls) = status_after (first_status sent 200) calls
status_after sent (read_from bytes ∷ calls) = status_after (first_status sent 200) calls

-- Calls that leave the status open.
abbrev pub AreHeaders : List WriterCall → Type 0
AreHeaders [] = Unit
AreHeaders (set_header key value ∷ calls) = AreHeaders calls
AreHeaders (add_header key value ∷ calls) = AreHeaders calls
AreHeaders (call ∷ calls) = ⊥

send_status-first :
    (code : ℕ) (response : Response)
    → (send_status code response).status ≡ status_on response.status code
unfolding send_status
send_status-first code response = elim (Option-cases response.status) [
  | inl q ↦ ground (arith, q)
  | inr (sent, q) ↦ ground (arith, q)
]

pub serve-status :
    (calls : List WriterCall) (response : Response)
    → (serve response calls).status ≡ status_after response.status calls
unfolding serve serve_call is_informational
serve-status [] response = refl
serve-status (set_header key value ∷ calls) response = serve-status calls _
serve-status (add_header key value ∷ calls) response = serve-status calls _
serve-status (write_header code ∷ calls) response =
    serve-status calls (send_status code response)
    ∙ ap (λ (sent : Option ℕ). status_after sent calls) (send_status-first code response)
serve-status (write bytes ∷ calls) response =
    serve-status calls _
    ∙ ap (λ (sent : Option ℕ). status_after sent calls) (send_status-first 200 response)
serve-status (read_from bytes ∷ calls) response =
    serve-status calls _
    ∙ ap (λ (sent : Option ℕ). status_after sent calls) (send_status-first 200 response)

pub status_after-headers :
    (headers calls : List WriterCall) (sent : Option ℕ)
    → AreHeaders headers
    → status_after sent (headers ++ calls) ≡ status_after sent calls
status_after-headers [] calls sent h = refl
status_after-headers (set_header key value ∷ headers) calls sent h =
    status_after-headers headers calls sent h
status_after-headers (add_header key value ∷ headers) calls sent h =
    status_after-headers headers calls sent h
status_after-headers (write_header code ∷ headers) calls sent h = absurd h
status_after-headers (write bytes ∷ headers) calls sent h = absurd h
status_after-headers (read_from bytes ∷ headers) calls sent h = absurd h

pub AreHeaders-append :
    (xs ys : List WriterCall) → AreHeaders xs → AreHeaders ys → AreHeaders (xs ++ ys)
AreHeaders-append [] ys h k = k
AreHeaders-append (set_header key value ∷ xs) ys h k = AreHeaders-append xs ys h k
AreHeaders-append (add_header key value ∷ xs) ys h k = AreHeaders-append xs ys h k
AreHeaders-append (write_header code ∷ xs) ys h k = absurd h
AreHeaders-append (write bytes ∷ xs) ys h k = absurd h
AreHeaders-append (read_from bytes ∷ xs) ys h k = absurd h

pub set_if_some-AreHeaders : (key : String) (id : Option String) → AreHeaders (set_if_some key id)
set_if_some-AreHeaders key none = tt
set_if_some-AreHeaders key (some id) = tt

pub AreHeaders-LacksInformational :
    (headers : List WriterCall) → AreHeaders headers → LacksInformational headers
AreHeaders-LacksInformational [] h = tt
AreHeaders-LacksInformational (set_header key value ∷ headers) h =
    AreHeaders-LacksInformational headers h
AreHeaders-LacksInformational (add_header key value ∷ headers) h =
    AreHeaders-LacksInformational headers h
AreHeaders-LacksInformational (write_header code ∷ headers) h = absurd h
AreHeaders-LacksInformational (write bytes ∷ headers) h = absurd h
AreHeaders-LacksInformational (read_from bytes ∷ headers) h = absurd h
