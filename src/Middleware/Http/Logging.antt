-- ===== src/Middleware/Http/Logging.antt =====
-- The access log of go/middleware/http.go. An entry goes to `log`, an effect on the state; the latency
-- and the user agent are left out of it. A panic unwinds past the log.
use dense_cloud.Prelude.{
  leb, str_eq, if◌then◌else◌, ℕ, ◌≤◌, ◌<◌, String, ◌≡◌, refl, subst, ◌⊎◌, false, Option, none, some,
  arith,
}
use dense_cloud.Golang.NetHttp.{
  Headers, header_get, serve, unsent, sent_status, Request, HttpHandler, HttpMiddleware,
}
use dense_cloud.Middleware.Http.Writer.{ResponseWriter, new_response_writer, wrapper_calls}
use dense_cloud.Middleware.Http.Identity.{get_request_id, remote_addr_key, forwarded_ip_key}
use dense_cloud.Middleware.Http.Responses.{IsPlain, wrapper_calls-status}

pub data Level : Type 0 where
  error_level warn_level info_level : Level

pub record LogEntry : Type 0 where
  pub level : Level
  pub request_id : String
  pub method : String
  pub path : String
  pub status_code : ℕ
  pub peer_ip : String
  pub bytes_written : ℕ
  pub forwarded_for : Option String

unfoldable pub level_of_status : ℕ → Level
level_of_status status =
    if leb 500 status then error_level else if leb 400 status then warn_level else info_level

-- `if forwardedFor != ""`
abbrev pub unless_empty : String → Option String
unless_empty s = if str_eq s "" then none else some s

-- What the level is to be: an error from 500 on, a warning from 400 on, and information below.
abbrev pub HasLevel : ℕ → Level → Type 0
HasLevel status level =
    ((500 ≤ status) × (level ≡ error_level))
    ⊎ (((400 ≤ status) × (status < 500) × (level ≡ warn_level))
        ⊎ ((status < 400) × (level ≡ info_level)))

level_of_status-HasLevel : (status : ℕ) → HasLevel status (level_of_status status)
unfolding level_of_status
level_of_status-HasLevel status = ground arith

unfoldable pub log_entry : (String → Option String) → Request → ResponseWriter → LogEntry
log_entry split r writer = record {
  level = level_of_status writer.status_code;
  request_id = get_request_id r;
  method = r.method;
  path = r.path;
  status_code = writer.status_code;
  peer_ip = remote_addr_key split r.remote_addr;
  bytes_written = writer.written;
  forwarded_for = unless_empty (forwarded_ip_key (header_get "X-Forwarded-For" r.headers));
}

module _ {S : Type 0} where
  unfoldable pub logging :
      (String → ℕ) → (String → Option String) → (LogEntry → S → S) → HttpMiddleware S
  logging size split log next r headers s =
      let (s₁, calls, panicked) = next r headers s in
      let (writer, passed) = wrapper_calls size calls new_response_writer in
      (if panicked then s₁ else log (log_entry split r writer) s₁, passed, panicked)

  -- A handler that does not panic, without an informational status and ReadFrom, leaves one entry: with
  -- the status that the client gets, as an error from 500 on, as a warning from 400 on, and as information below; and the
  -- client gets the handler's response.
  pub logging-status :
      (size : String → ℕ) (split : String → Option String) (log : LogEntry → S → S)
      (next : HttpHandler S) (r : Request) (headers : Headers) (s : S)
      → (next r headers s).2 ≡ false
      → IsPlain (next r headers s).1
      → let (s₁, calls, panicked) = next r headers s in
        let (s₂, passed, panics) = logging size split log next r headers s in
        (entry : LogEntry) × (s₂ ≡ log entry s₁)
        × (entry.status_code ≡ sent_status (serve unsent calls))
        × HasLevel (sent_status (serve unsent calls)) entry.level
        × (serve unsent passed ≡ serve unsent calls)
  unfolding logging log_entry
  logging-status size split log next r headers s q l =
      let calls = (next r headers s).1 in
      let (same, status) = wrapper_calls-status size calls l in
      let writer = (wrapper_calls size calls new_response_writer).0 in
      (
        log_entry split r writer,
        rw q refl,
        status,
        subst (λ (code : ℕ). HasLevel code (level_of_status writer.status_code)) status
            (level_of_status-HasLevel writer.status_code),
        same,
      )
