-- ===== src/Middleware/Http/Writer.antt =====
-- The `responseWriter` of go/middleware/http.go, which Logging and CircuitBreaker wrap around the
-- writer of a request.
use dense_cloud.Prelude.{if◌then◌else◌, ℕ, ◌+◌, String, Bool, true, false, List, [], ◌∷◌, ◌++◌}
use dense_cloud.Golang.NetHttp.{WriterCall, set_header, add_header, write_header, write, read_from}

-- The wrapper, without the writer in it. `written` counts the bytes, by `size`, of the bodies.
pub record ResponseWriter : Type 0 where
  pub status_code : ℕ
  pub written : ℕ
  pub wrote : Bool

-- `&responseWriter{ResponseWriter: w, statusCode: http.StatusOK}`
abbrev pub new_response_writer : ResponseWriter
new_response_writer = record { status_code = 200; written = 0; wrote = false }

-- WriteHeader of the wrapper, and the call of the writer in it that follows, if any.
unfoldable pub wrapper_write_header : ℕ → ResponseWriter → ResponseWriter × List WriterCall
wrapper_write_header code writer =
    if writer.wrote
    then (writer, [])
    else (record writer { wrote = true; status_code = code }, write_header code ∷ [])

-- `rw.written += n`, of a call that is passed on.
abbrev pub add_written :
    ℕ → WriterCall → ResponseWriter × List WriterCall → ResponseWriter × List WriterCall
add_written n call (writer, calls) =
    (record writer { written = writer.written + n }, calls ++ call ∷ [])

unfoldable pub wrapper_call :
    (String → ℕ) → WriterCall → ResponseWriter → ResponseWriter × List WriterCall
unfolding wrapper_write_header
wrapper_call size (set_header key value) writer = (writer, set_header key value ∷ [])
wrapper_call size (add_header key value) writer = (writer, add_header key value ∷ [])
wrapper_call size (write_header code) writer = wrapper_write_header code writer
wrapper_call size (write bytes) writer =
    add_written (size bytes) (write bytes)
      (if writer.wrote then (writer, []) else wrapper_write_header 200 writer)
wrapper_call size (read_from bytes) writer = add_written (size bytes) (read_from bytes) (writer, [])

unfoldable pub wrapper_calls :
    (String → ℕ) → List WriterCall → ResponseWriter → ResponseWriter × List WriterCall
wrapper_calls size [] writer = (writer, [])
wrapper_calls size (call ∷ calls) writer =
    let (writer₁, first) = wrapper_call size call writer in
    let (writer₂, rest) = wrapper_calls size calls writer₁ in (writer₂, first ++ rest)
