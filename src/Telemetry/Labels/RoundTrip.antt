-- ===== src/Telemetry/Labels/RoundTrip.antt =====
-- What the reader gives back of the labels that go/telemetry writes.
use Prim.Native.Char.{Char, code}
use text.Mathlib.TextEquality.{Char-path}
use text.Mathlib.TextLemmas.{cons-append, append_assoc, append-nil, nil-append}
use dense_cloud.Prelude.{
  ◌==◌, str_eq, Bool-cases, if_both, String, ◌<>◌, ◌≡◌, refl, ap, ◌∙◌, inl, inr, true, Option, none,
  some, List, [], ◌∷◌, map, arith,
}
use dense_cloud.Telemetry.Labels.{
  escaped_char, escape_prometheus_label_value, label_pair, join_comma, with_service, labels,
}
use dense_cloud.Telemetry.Labels.Reader.{
  Mode, after_value, in_name, in_value, one_char, advance, prepend, read_from_mode, read_labels,
  IsLabelName, AllNamed,
}

read-step :
    (mode : Mode) (c : Char) (t : String) (next : Mode × Option (String × String))
    → advance mode c ≡ next
    → read_from_mode mode (String.◌∷◌ c t) ≡ prepend next.1 (read_from_mode next.0 t)
unfolding read_from_mode
read-step mode c t next e =
    ap (λ (a : Mode × Option (String × String)). prepend a.1 (read_from_mode a.0 t)) e

-- A character is the one that its number says.
same_char :
    (c d : Char) (value : String)
    → (code c == code d) ≡ true
    → value <> one_char d ≡ value <> one_char c
same_char c d value q = ap (λ (x : Char). value <> one_char x) (Char-path d c (ground (arith, q)))

escaped_char-append : (c : Char) (s t : String) → escaped_char c s <> t ≡ escaped_char c (s <> t)
unfolding escaped_char
escaped_char-append c s t =
    let after = λ (x : Char). cons-append x s t in
    ground (
      arith,
      cons-append c s t,
      after "\\",
      after "n",
      after "\"",
      cons-append "\\" (String.◌∷◌ "\\" s) t,
      cons-append "\\" (String.◌∷◌ "n" s) t,
      cons-append "\\" (String.◌∷◌ "\"" s) t,
    )

read-escaped_char :
    (name value : String) (c : Char) (t : String)
    → read_from_mode (in_value name value) (escaped_char c t)
      ≡ read_from_mode (in_value name (value <> one_char c)) t
unfolding read_from_mode advance escaped_char
read-escaped_char name value c t = elim (Bool-cases (code c == b'\\')) [
  | inl q ↦
      rw q (ap (λ (v : String). read_from_mode (in_value name v) t) (same_char c "\\" value q))
  | inr q ↦ elim (Bool-cases (code c == b'\n')) [
    | inl p ↦
        rw (q, p)
          (ap (λ (v : String). read_from_mode (in_value name v) t) (same_char c "\n" value p))
    | inr p ↦ elim (Bool-cases (code c == b'"')) [
      | inl n ↦
          rw (q, p, n)
            (ap (λ (v : String). read_from_mode (in_value name v) t) (same_char c "\"" value n))
      | inr n ↦
          rw (q, p, n)
            (read-step (in_value name value) c t (in_value name (value <> one_char c), none)
              (rw (n, q) refl))
    ]
  ]
]

read-value :
    (name value v t : String)
    → read_from_mode (in_value name value) (escape_prometheus_label_value v <> t)
      ≡ read_from_mode (in_value name (value <> v)) t
unfolding escape_prometheus_label_value
read-value name value String.[] t = rw (append-nil value, nil-append t) refl
read-value name value (String.◌∷◌ c v) t =
    rw
      (
        escaped_char-append c (escape_prometheus_label_value v) t,
        read-escaped_char name value c (escape_prometheus_label_value v <> t),
        read-value name (value <> one_char c) v t,
      )
      (rw (append_assoc value (one_char c) v, cons-append c "" v, nil-append v) refl)

read-name :
    (name acc t : String)
    → IsLabelName name
    → read_from_mode (in_name acc) (name <> t) ≡ read_from_mode (in_name (acc <> name)) t
unfolding advance
read-name String.[] acc t h = rw (append-nil acc, nil-append t) refl
read-name (String.◌∷◌ c s) acc t (first, h) =
    rw
      (
        cons-append c s t,
        read-step (in_name acc) c (s <> t) (in_name (acc <> one_char c), none) (rw first refl),
        read-name s (acc <> one_char c) t h,
      )
      (rw (append_assoc acc (one_char c) s, cons-append c "" s, nil-append s) refl)

-- The text of a pair and what follows it, with the single characters in view.
label_pair-append :
    (name value t : String)
    → label_pair (name, value) <> t
      ≡ name
        <> String.◌∷◌ "="
            (String.◌∷◌ "\"" (escape_prometheus_label_value value <> String.◌∷◌ "\"" t))
unfolding label_pair
label_pair-append name value t =
    let quoted = escape_prometheus_label_value value in
    append_assoc name ("=\"" <> (quoted <> "\"")) t
    ∙ ap (λ (u : String). name <> u)
        (append_assoc "=\"" (quoted <> "\"") t
          ∙ rw (append_assoc quoted "\"" t) (
              cons-append "=" "\"" (quoted <> ("\"" <> t))
              ∙ ap (λ (u : String). String.◌∷◌ "=" u)
                  (cons-append "\"" "" (quoted <> ("\"" <> t))
                    ∙ ap (λ (u : String). String.◌∷◌ "\"" u)
                        (nil-append (quoted <> ("\"" <> t))
                          ∙ ap (λ (u : String). quoted <> u)
                              (cons-append "\"" "" t
                                ∙ ap (λ (u : String). String.◌∷◌ "\"" u) (nil-append t))))))

read-label_pair :
    (name value t : String)
    → IsLabelName name
    → read_from_mode (in_name "") (label_pair (name, value) <> t)
      ≡ prepend (some (name, value)) (read_from_mode after_value t)
unfolding read_from_mode advance
read-label_pair name value t h =
    let quoted = escape_prometheus_label_value value in
    let closing = String.◌∷◌ "\"" t in
    rw
      (
        label_pair-append name value t,
        read-name name "" (String.◌∷◌ "=" (String.◌∷◌ "\"" (quoted <> closing))) h,
        nil-append name,
      )
      (read-value name "" value closing
        ∙ ap (λ (v : String). prepend (some (name, v)) (read_from_mode after_value t))
            (nil-append value))

-- A comma and the closing brace, as single characters.
separated-append :
    (first rest : String) → (first <> ("," <> rest)) <> "}" ≡ first <> String.◌∷◌ "," (rest <> "}")
separated-append first rest =
    append_assoc first ("," <> rest) "}"
    ∙ ap (λ (u : String). first <> u)
        (append_assoc "," rest "}"
          ∙ (cons-append "," "" (rest <> "}")
              ∙ ap (λ (u : String). String.◌∷◌ "," u) (nil-append (rest <> "}"))))

read-join_comma :
    (name value : String) (rest : List (String × String))
    → AllNamed ((name, value) ∷ rest)
    → read_from_mode (in_name "") (join_comma (map label_pair ((name, value) ∷ rest)) <> "}")
      ≡ some ((name, value) ∷ rest)
unfolding read_from_mode advance join_comma
read-join_comma name value [] (h, more) = read-label_pair name value "}" h
read-join_comma name value ((name₁, value₁) ∷ rest) (h, more) =
    let joined = join_comma (map label_pair ((name₁, value₁) ∷ rest)) in
    ap (λ (u : String). read_from_mode (in_name "") u)
      (separated-append (label_pair (name, value)) joined)
    ∙ (read-label_pair name value (String.◌∷◌ "," (joined <> "}")) h
        ∙ ap (prepend (some (name, value))) (read-join_comma name₁ value₁ rest more))

read-braces :
    (kv : List (String × String))
    → AllNamed kv
    → read_labels ("{" <> (join_comma (map label_pair kv) <> "}")) ≡ some kv
unfolding read_labels read_from_mode advance join_comma
read-braces [] h = refl
read-braces ((name, value) ∷ rest) h =
    let joined = join_comma (map label_pair ((name, value) ∷ rest)) in
    rw (cons-append "{" "" (joined <> "}"), nil-append (joined <> "}"))
      (read-join_comma name value rest h)

service-IsLabelName : IsLabelName "service"
service-IsLabelName = (refl, (refl, (refl, (refl, (refl, (refl, (refl, tt)))))))

-- For label names in Prometheus' characters, and any texts as the values and as the service's name,
-- what `labels` writes is read back as the same labels, the service's in front if its name is not
-- empty: no value can end its label or add another.
pub read_labels-labels :
    (service_name : String) (kv : List (String × String))
    → AllNamed kv
    → read_labels (labels service_name kv) ≡ some (with_service service_name kv)
unfolding labels
read_labels-labels service_name kv h =
    if_both
      (λ (all : List (String × String)).
        read_labels ("{" <> (join_comma (map label_pair all) <> "}")) ≡ some all)
      (str_eq service_name "") kv (("service", service_name) ∷ kv) (λ q. read-braces kv h)
      (λ q. read-braces (("service", service_name) ∷ kv) (service-IsLabelName, h))
