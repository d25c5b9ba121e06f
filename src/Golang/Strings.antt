-- ===== src/Golang/Strings.antt =====
-- The functions of Go's package strings that the code uses, on texts as lists of characters.
use Prim.Native.Char.{code}
use text.Mathlib.TextLemmas.{cons-append}
use dense_cloud.Prelude.{
  leb, ◌==◌, if◌then◌else◌, ℕ, String, ◌<>◌, ◌≡◌, refl, Bool, true, false, ◌&&◌, ◌||◌, List, [],
  ◌∷◌, arith,
}

-- unicode.IsSpace
abbrev pub is_space : ℕ → Bool
is_space c =
    c == 32
    || (leb 9 c && leb c 13)
    || c == 0x85
    || c == 0xA0
    || c == 0x1680
    || (leb 0x2000 c && leb c 0x200A)
    || c == 0x2028
    || c == 0x2029
    || c == 0x202F
    || c == 0x205F
    || c == 0x3000

abbrev pub is_slash : ℕ → Bool
is_slash c = c == 47

abbrev pub is_comma : ℕ → Bool
is_comma c = c == 44

-- strings.HasPrefix
unfoldable pub has_prefix : String → String → Bool
has_prefix s String.[] = true
has_prefix String.[] (String.◌∷◌ d t) = false
has_prefix (String.◌∷◌ c s) (String.◌∷◌ d t) = code c == code d && has_prefix s t

abbrev pub is_empty : String → Bool
is_empty String.[] = true
is_empty (String.◌∷◌ c s) = false

abbrev pub starts_with_slash : String → Bool
starts_with_slash String.[] = false
starts_with_slash (String.◌∷◌ c s) = is_slash (code c)

-- Whether the last character of a text is a line feed.
abbrev pub ends_with_line_feed : String → Bool
ends_with_line_feed String.[] = false
ends_with_line_feed (String.◌∷◌ c s) =
    let rest = ends_with_line_feed s in if is_empty s then code c == 10 else rest

-- strings.TrimSuffix with "/"
unfoldable pub trim_suffix_slash : String → String
trim_suffix_slash String.[] = String.[]
trim_suffix_slash (String.◌∷◌ c s) =
    let rest = trim_suffix_slash s in
    if is_slash (code c) && is_empty s then String.[] else String.◌∷◌ c rest

-- strings.Contains with "//"
unfoldable pub contains_slashes : String → Bool
contains_slashes String.[] = false
contains_slashes (String.◌∷◌ c s) = (is_slash (code c) && starts_with_slash s) || contains_slashes s

trim_left : String → String
trim_left String.[] = String.[]
trim_left (String.◌∷◌ c s) =
    let rest = trim_left s in if is_space (code c) then rest else String.◌∷◌ c s

trim_right : String → String
trim_right String.[] = String.[]
trim_right (String.◌∷◌ c s) =
    let rest = trim_right s in
    if is_space (code c) && is_empty rest then String.[] else String.◌∷◌ c rest

-- strings.TrimSpace
unfoldable pub trim_space : String → String
unfolding trim_left trim_right
trim_space s = trim_right (trim_left s)

-- The text in front of the first comma, which is all of it where there is none.
unfoldable pub before_comma : String → String
before_comma String.[] = String.[]
before_comma (String.◌∷◌ c s) =
    let rest = before_comma s in if is_comma (code c) then String.[] else String.◌∷◌ c rest

abbrev pub onto_first : (String → String) → List String → List String
onto_first f [] = f String.[] ∷ []
onto_first f (part ∷ parts) = f part ∷ parts

-- strings.Split at ","
unfoldable pub split_comma : String → List String
split_comma String.[] = String.[] ∷ []
split_comma (String.◌∷◌ c s) =
    let rest = split_comma s in
    if is_comma (code c) then String.[] ∷ rest else onto_first (λ part. String.◌∷◌ c part) rest

-- A text has every text that it continues as a prefix.
pub has_prefix-append : (s t : String) → has_prefix (s <> t) s ≡ true
unfolding has_prefix
has_prefix-append String.[] t = refl
has_prefix-append (String.◌∷◌ c s) t =
    rw (cons-append c s t) (ground (arith, has_prefix-append s t))
