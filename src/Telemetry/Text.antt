-- ===== src/Telemetry/Text.antt =====
-- The lines of Prometheus' text format that go/telemetry/metrics.go and grpc_metrics.go both write.
-- Outside is strconv, whose texts are the fields of `Formats`; `seconds` is of a number of nanoseconds.
use Prim.Native.Char.{code}
use dense_cloud.Prelude.{
  ltb, ◌==◌, if◌then◌else◌, ℤ, Eq, get_or, ℕ, String, ◌<>◌, Bool, true, false, List, [], ◌∷◌,
}
use dense_cloud.Telemetry.Histogram.{
  DurationMetricValue, new_duration_metric_value, cumulative_counts,
}

pub record Formats : Type 0 where
  pub unsigned : ℕ → String
  pub signed : ℤ → String
  pub seconds : ℕ → String

-- `<` on strings: of bytes in UTF-8, which is that of the characters' numbers.
unfoldable pub str_ltb : String → String → Bool
str_ltb String.[] String.[] = false
str_ltb String.[] (String.◌∷◌ d t) = true
str_ltb (String.◌∷◌ c s) String.[] = false
str_ltb (String.◌∷◌ c s) (String.◌∷◌ d t) =
    let rest = str_ltb s t in if code c == code d then rest else ltb (code c) (code d)

abbrev pub metric_line : String → String → String → String
metric_line name label_text value = name <> (label_text <> (" " <> (value <> "\n")))

module _ {K : Type 0} where
  -- The keys of a map, sorted by `less` as sort.Slice does: they are all different.
  unfoldable pub insert_key : (K → K → Bool) → K → List K → List K
  insert_key less key [] = key ∷ []
  insert_key less key (other ∷ keys) =
      let rest = insert_key less key keys in
      if less key other then key ∷ other ∷ keys else other ∷ rest

  unfoldable pub sorted_keys : {V : Type 0} → (K → K → Bool) → List (K × V) → List K
  unfolding insert_key
  sorted_keys less [] = []
  sorted_keys less (entry ∷ table) = insert_key less entry.0 (sorted_keys less table)

-- The lines of the buckets, with the cumulative counts, for each bound and then for +Inf.
unfoldable pub bucket_lines : Formats → String → (String → String) → List ℕ → List ℕ → String
bucket_lines f name labels_of bounds [] = ""
bucket_lines f name labels_of [] (count ∷ counts) =
    metric_line name (labels_of "+Inf") (f.unsigned count)
bucket_lines f name labels_of (bound ∷ bounds) (count ∷ counts) =
    metric_line name (labels_of (f.seconds bound)) (f.unsigned count)
    <> bucket_lines f name labels_of bounds counts

module _ {K : Type 0} ⦃e : Eq K⦄ where
  unfoldable pub counter_lines_of : Formats → String → (K → String) → List (K × ℕ) → List K → String
  counter_lines_of f name labels_of table [] = ""
  counter_lines_of f name labels_of table (key ∷ keys) =
      metric_line name (labels_of key) (f.unsigned (get_or ⦃e = e⦄ 0 key table))
      <> counter_lines_of f name labels_of table keys

  unfoldable pub counter_lines :
      Formats → (K → K → Bool) → String → (K → String) → List (K × ℕ) → String
  unfolding counter_lines_of sorted_keys
  counter_lines f less name labels_of table =
      counter_lines_of f name labels_of table (sorted_keys less table)

  unfoldable pub histogram_lines_of :
      Formats
      → String
      → (K → List (String × String) → String)
      → List ℕ
      → List (K × DurationMetricValue)
      → List K
      → String
  unfolding bucket_lines
  histogram_lines_of f name labels_of bounds table [] = ""
  histogram_lines_of f name labels_of bounds table (key ∷ keys) =
      let value = get_or ⦃e = e⦄ (new_duration_metric_value bounds) key table in
      bucket_lines f (name <> "_bucket") (λ le. labels_of key (("le", le) ∷ [])) bounds
        (cumulative_counts 0 value.buckets)
      <> metric_line (name <> "_sum") (labels_of key []) (f.seconds value.sum)
      <> metric_line (name <> "_count") (labels_of key []) (f.unsigned value.count)
      <> histogram_lines_of f name labels_of bounds table keys

  unfoldable pub histogram_lines :
      Formats
      → (K → K → Bool)
      → String
      → (K → List (String × String) → String)
      → List ℕ
      → List (K × DurationMetricValue)
      → String
  unfolding histogram_lines_of sorted_keys
  histogram_lines f less name labels_of bounds table =
      histogram_lines_of f name labels_of bounds table (sorted_keys less table)
