-- ===== src/Middleware/Http/Informational.antt =====
-- What the response writer of go/middleware/http.go makes of an informational status.
use dense_cloud.Prelude.{
  Option-cases, ℕ, String, ◌≡◌, refl, inl, inr, true, Option, none, some, List, [], ◌∷◌,
}
use dense_cloud.Middleware.Http.Writer.{
  ResponseWriter, new_response_writer, wrapper_write_header, wrapper_call, wrapper_calls,
}
use dense_cloud.Golang.NetHttp.{
  WriterCall, set_header, add_header, write_header, write, read_from, Response, is_informational,
  send_status, serve_call, serve, unsent, sent_status, serve-append,
}

-- The client has got no other status than 200.
abbrev IsOpenOrOk : Option ℕ → Type 0
IsOpenOrOk none = Unit
IsOpenOrOk (some code) = code ≡ 200

-- The wrapper has taken a status for the final one, and the client has got none.
wrapper_call-late :
    (size : String → ℕ) (call : WriterCall) (code : ℕ) (writer : ResponseWriter)
    (response : Response)
    → writer.wrote ≡ true
    → writer.status_code ≡ code
    → IsOpenOrOk response.status
    → let (writer₁, passed) = wrapper_call size call writer in
      (writer₁.wrote ≡ true)
      × (writer₁.status_code ≡ code)
      × IsOpenOrOk (serve response passed).status
unfolding wrapper_call wrapper_write_header serve serve_call send_status is_informational
wrapper_call-late size (set_header key value) code writer response h k o = (h, k, o)
wrapper_call-late size (add_header key value) code writer response h k o = (h, k, o)
wrapper_call-late size (write_header late) code writer response h k o = rw h (refl, k, o)
wrapper_call-late size (write bytes) code writer response h k o =
    elim (Option-cases response.status) [
      | inl q ↦ rw (h, q) (refl, k, refl)
      | inr (sent, q) ↦ rw (h, q) (refl, k, rw q at o)
    ]
wrapper_call-late size (read_from bytes) code writer response h k o =
    elim (Option-cases response.status) [
      | inl q ↦ rw q (h, k, refl)
      | inr (sent, q) ↦ rw q (h, k, rw q at o)
    ]

wrapper_calls-late :
    (size : String → ℕ) (calls : List WriterCall) (code : ℕ) (writer : ResponseWriter)
    (response : Response)
    → writer.wrote ≡ true
    → writer.status_code ≡ code
    → IsOpenOrOk response.status
    → let (writer₁, passed) = wrapper_calls size calls writer in
      (writer₁.status_code ≡ code) × IsOpenOrOk (serve response passed).status
unfolding wrapper_calls serve
wrapper_calls-late size [] code writer response h k o = (k, o)
wrapper_calls-late size (call ∷ calls) code writer response h k o =
    let (writer₁, first) = wrapper_call size call writer in
    let (h₁, k₁, o₁) = wrapper_call-late size call code writer response h k o in
    let (k₂, o₂) = wrapper_calls-late size calls code writer₁ (serve response first) h₁ k₁ o₁ in
    (k₂, rw (serve-append first (wrapper_calls size calls writer₁).1 response) o₂)

open_or_ok : (response : Response) → IsOpenOrOk response.status → sent_status response ≡ 200
open_or_ok response o = elim (Option-cases response.status) [
  | inl q ↦ rw q refl
  | inr (sent, q) ↦ rw q (rw q at o)
]

-- A handler that sends an informational status first, such as 103, cannot send another status
-- through the wrapper: whatever it calls afterwards, a WriteHeader with 404 or 500 included, the
-- client gets 200, and the wrapper records the informational status.
pub wrapper_calls-informational :
    (size : String → ℕ) (code : ℕ) (calls : List WriterCall)
    → is_informational code ≡ true
    → let (writer, passed) = wrapper_calls size (write_header code ∷ calls) new_response_writer in
      (writer.status_code ≡ code) × (sent_status (serve unsent passed) ≡ 200)
unfolding wrapper_calls wrapper_call wrapper_write_header serve serve_call send_status
wrapper_calls-informational size code calls early =
    let writer : ResponseWriter = record { status_code = code; written = 0; wrote = true } in
    let (recorded, left) = wrapper_calls-late size calls code writer unsent refl refl tt in
    rw early (recorded, open_or_ok (serve unsent (wrapper_calls size calls writer).1) left)
