-- ===== src/Golang.antt =====
-- What the code uses of the Go standard library: errors, contexts and durations, texts, and net/http.
pub mod Errors
pub mod Contexts
pub mod NetHttp
pub mod Strings
