-- ===== src/Telemetry/Labels/Reader.antt =====
-- A reader of the labels that go/telemetry writes, as a state machine over the characters.
use Prim.Native.Char.{Char, code}
use dense_cloud.Prelude.{
  leb, ◌==◌, if◌then◌else◌, ℕ, String, ◌<>◌, ◌≡◌, Bool, true, false, ◌&&◌, ◌||◌, Option, none, some,
  List, [], ◌∷◌,
}
use dense_cloud.Golang.Strings.{is_empty}

-- Where the reader stands: the name, and the value, that it has read so far.
pub data Mode : Type 0 where
  at_start closed broken after_value : Mode
  in_name : String → Mode
  at_quote : String → Mode
  in_value : String → String → Mode
  in_escape : String → String → Mode

abbrev pub one_char : Char → String
one_char c = String.◌∷◌ c String.[]

-- The characters of label names.
abbrev pub is_name_char : ℕ → Bool
is_name_char c =
    (leb b'a' c && leb c b'z')
    || (leb b'A' c && leb c b'Z')
    || (leb b'0' c && leb c b'9')
    || c == b'_'

abbrev pub escaped : String → String → ℕ → Mode
escaped name value c =
    if c == b'\\'
    then in_value name (value <> one_char "\\")
    else if c == b'n'
    then in_value name (value <> one_char "\n")
    else if c == b'"'
    then in_value name (value <> one_char "\"")
    else broken

-- The next mode, and the label that a character completes, if any.
unfoldable pub advance : Mode → Char → Mode × Option (String × String)
advance at_start c = (if code c == b'{' then in_name "" else broken, none)
advance closed c = (broken, none)
advance broken c = (broken, none)
advance after_value c =
    (if code c == b',' then in_name "" else if code c == b'}' then closed else broken, none)
advance (in_name name) c = (
  if is_name_char (code c)
      then in_name (name <> one_char c)
      else if code c == b'='
      then at_quote name
      else if code c == b'}' && is_empty name
      then closed
      else broken,
  none,
)
advance (at_quote name) c = (if code c == b'"' then in_value name "" else broken, none)
advance (in_value name value) c =
    if code c == b'"'
    then (after_value, some (name, value))
    else if code c == b'\\'
    then (in_escape name value, none)
    else (in_value name (value <> one_char c), none)
advance (in_escape name value) c = (escaped name value (code c), none)

abbrev pub prepend :
    Option (String × String) → Option (List (String × String)) → Option (List (String × String))
prepend none labels = labels
prepend (some label) none = none
prepend (some label) (some labels) = some (label ∷ labels)

abbrev pub is_closed : Mode → Bool
is_closed closed = true
is_closed at_start = false
is_closed broken = false
is_closed after_value = false
is_closed (in_name name) = false
is_closed (at_quote name) = false
is_closed (in_value name value) = false
is_closed (in_escape name value) = false

unfoldable pub read_from_mode : Mode → String → Option (List (String × String))
unfolding advance
read_from_mode mode String.[] = if is_closed mode then some [] else none
read_from_mode mode (String.◌∷◌ c s) =
    let (next, found) = advance mode c in prepend found (read_from_mode next s)

-- The labels that a text stands for.
unfoldable pub read_labels : String → Option (List (String × String))
unfolding read_from_mode
read_labels s = read_from_mode at_start s

abbrev pub IsLabelName : String → Type 0
IsLabelName String.[] = Unit
IsLabelName (String.◌∷◌ c s) = (is_name_char (code c) ≡ true) × IsLabelName s

abbrev pub AllNamed : List (String × String) → Type 0
AllNamed [] = Unit
AllNamed ((name, value) ∷ labels) = IsLabelName name × AllNamed labels
