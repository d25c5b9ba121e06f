-- ===== src/Middleware/Http/NewId.antt =====
-- newRequestID of go/middleware/http.go. What rand.Read answers is an argument, `none` for an error,
-- and so are the clock and fmt's decimal numbers.
use text.Mathlib.TextLemmas.{cons-append}
use dense_cloud.Prelude.{
  ℕ, zero, suc, ◌/◌, ◌%◌, String, ◌<>◌, ◌≡◌, refl, ◌⊎◌, inl, inr, false, Option, none, some, List,
  [], ◌∷◌,
}
use dense_cloud.Golang.Strings.{is_empty}

abbrev hex_digits : List String
hex_digits =
    "0" ∷ "1" ∷ "2" ∷ "3" ∷ "4" ∷ "5" ∷ "6" ∷ "7" ∷ "8" ∷ "9" ∷ "a" ∷ "b" ∷ "c" ∷ "d" ∷ "e" ∷ "f"
    ∷ []

-- The digit at a place, where there is one.
digit_at : List String → ℕ → String
digit_at [] n = "0"
digit_at (digit ∷ digits) zero = digit
digit_at (digit ∷ digits) (suc n) = digit_at digits n

-- hex.EncodeToString
hex_encode : List ℕ → String
unfolding digit_at
hex_encode [] = ""
hex_encode (byte ∷ bytes) =
    digit_at hex_digits (byte / 16) <> (digit_at hex_digits (byte % 16) <> hex_encode bytes)

pub new_request_id : (ℕ → String) → Option (List ℕ) → ℕ → String
unfolding hex_encode
new_request_id decimal none now = "req-" <> decimal now
new_request_id decimal (some bytes) now = hex_encode bytes

append-nonempty : (s t : String) → is_empty s ≡ false → is_empty (s <> t) ≡ false
append-nonempty String.[] t h = cc
append-nonempty (String.◌∷◌ c s) t h = rw (cons-append c s t) refl

abbrev AreNonempty : List String → Type 0
AreNonempty [] = Unit
AreNonempty (digit ∷ digits) = (is_empty digit ≡ false) × AreNonempty digits

digit_at-nonempty :
    (digits : List String) (n : ℕ) → AreNonempty digits → is_empty (digit_at digits n) ≡ false
unfolding digit_at
digit_at-nonempty [] n h = refl
digit_at-nonempty (digit ∷ digits) zero h = h.0
digit_at-nonempty (digit ∷ digits) (suc n) h = digit_at-nonempty digits n h.1

hex_digit-nonempty : (n : ℕ) → is_empty (digit_at hex_digits n) ≡ false
hex_digit-nonempty n = digit_at-nonempty hex_digits n (
  refl,
  (
    refl,
    (
      refl,
      (
        refl,
        (
          refl,
          (
            refl,
            (refl, (refl, (refl, (refl, (refl, (refl, (refl, (refl, (refl, (refl, tt)))))))))),
          ),
        ),
      ),
    ),
  ),
)

-- A new id is never empty, as RequestID and its users ask of it: crypto/rand fills 16 bytes or fails.
pub new_request_id-nonempty :
    (decimal : ℕ → String) (byte : ℕ) (bytes : List ℕ) (random : Option (List ℕ)) (now : ℕ)
    → (random ≡ none) ⊎ (random ≡ some (byte ∷ bytes))
    → is_empty (new_request_id decimal random now) ≡ false
unfolding new_request_id hex_encode
new_request_id-nonempty decimal byte bytes random now (inl q) =
    rw q (append-nonempty "req-" (decimal now) refl)
new_request_id-nonempty decimal byte bytes random now (inr q) = rw q (
    append-nonempty (digit_at hex_digits (byte / 16))
      (digit_at hex_digits (byte % 16) <> hex_encode bytes) (hex_digit-nonempty (byte / 16)))

hex_run : hex_encode (0 ∷ 171 ∷ []) ≡ "00ab"
unfolding hex_encode digit_at
hex_run = refl
