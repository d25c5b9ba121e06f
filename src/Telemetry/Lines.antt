-- ===== src/Telemetry/Lines.antt =====
-- The lines of a map's counters in go/telemetry, for two orders of the map's entries.
use mathlib.Core.List.{Permᴰ}
use dense_cloud.Prelude.{
  if◌then◌else◌, any, Eq, get_or, ℕ, String, ◌≡◌, refl, sym, ap, ◌∙◌, subst, Bool, true, false, not,
  ◌||◌, List, [], ◌∷◌, arith,
}
use dense_cloud.Telemetry.Histogram.{DurationMetricValue, new_duration_metric_value}
use dense_cloud.Telemetry.Text.{
  Formats, sorted_keys, counter_lines_of, counter_lines, histogram_lines_of, histogram_lines,
}
use dense_cloud.Telemetry.Order.{sorted_keys-Perm}

module _ {K V : Type 0} ⦃e : Eq K⦄ where
  abbrev pub has_key : K → List (K × V) → Bool
  has_key key table = any (λ (entry : K × V). e.same entry.0 key) table

  -- No key stands twice, as in a map.
  abbrev pub IsMap : List (K × V) → Type 0
  IsMap [] = Unit
  IsMap (entry ∷ table) = (has_key entry.0 table ≡ false) × IsMap table

  -- What does not depend on the order of the entries.
  abbrev pub Same : V → List (K × V) → List (K × V) → Type 0
  Same default table shuffled =
      IsMap shuffled
      × ((key : K) → has_key key table ≡ has_key key shuffled)
      × ((key : K) → get_or default key table ≡ get_or default key shuffled)

  Same-cons :
      (default : V) (entry other : K × V) (table shuffled : List (K × V))
      → entry ≡ other
      → has_key entry.0 table ≡ false
      → Same default table shuffled
      → Same default (entry ∷ table) (other ∷ shuffled)
  unfolding get_or
  Same-cons default entry other table shuffled q absent (is_map, keys, values) =
      subst (λ x. Same default (entry ∷ table) (x ∷ shuffled)) q
        (
          (sym (keys entry.0) ∙ absent, is_map),
          (λ key. ap (λ b. e.same entry.0 key || b) (keys key)),
          (λ key. ap (λ v. if e.same entry.0 key then entry.1 else v) (values key)),
        )

  Same-swap :
      (default : V) (a b : K × V) (table : List (K × V))
      → IsMap (a ∷ b ∷ table)
      → Same default (a ∷ b ∷ table) (b ∷ a ∷ table)
  unfolding get_or
  Same-swap default a b table (absent, (absent', is_map)) = (
    (
      ground (arith, absent, absent', e.same_iff a.0 b.0, e.same_iff b.0 a.0),
      (ground (arith, absent), is_map),
    ),
    (λ key. ground arith),
    (λ key. ground (arith, absent, e.same_iff b.0 a.0, e.same_iff a.0 key, e.same_iff b.0 key)),
  )

  pub Perm-Same :
      (default : V) {table shuffled : List (K × V)}
      → Permᴰ table shuffled
      → IsMap table
      → Same default table shuffled
  Perm-Same default Permᴰ.nil h = (tt, (λ key. refl), (λ key. refl))
  Perm-Same default (Permᴰ.cons {a = a} {b = b} {l₁ = table} {l₂ = shuffled} q p) (absent, h) =
      Same-cons default a b table shuffled q absent (Perm-Same default p h)
  Perm-Same default (Permᴰ.swap {a = a} {b = b} {b' = b'} {l = table} q q') h =
      subst (λ x. Same default (a ∷ b ∷ table) (x ∷ b' ∷ table)) q'
        (subst (λ x. Same default (a ∷ b ∷ table) (b ∷ x ∷ table)) q
          (Same-swap default a b table h))
  Perm-Same default (Permᴰ.trans p p') h =
      let (h₁, keys, values) = Perm-Same default p h in
      let (h₂, keys', values') = Perm-Same default p' h₁ in
      (h₂, (λ key. keys key ∙ keys' key), (λ key. values key ∙ values' key))

module _ {K : Type 0} ⦃e : Eq K⦄ where
  counter_lines_of-get_or :
      (f : Formats) (name : String) (labels_of : K → String) (table shuffled : List (K × ℕ))
      → ((key : K) → get_or 0 key table ≡ get_or 0 key shuffled)
      → (keys : List K)
      → counter_lines_of f name labels_of table keys
        ≡ counter_lines_of f name labels_of shuffled keys
  unfolding counter_lines_of
  counter_lines_of-get_or f name labels_of table shuffled same [] = refl
  counter_lines_of-get_or f name labels_of table shuffled same (key ∷ keys) =
      rw (same key, counter_lines_of-get_or f name labels_of table shuffled same keys) refl

  histogram_lines_of-get_or :
      (f : Formats) (name : String) (labels_of : K → List (String × String) → String)
      (bounds : List ℕ) (table shuffled : List (K × DurationMetricValue))
      → ((key : K)
          → get_or (new_duration_metric_value bounds) key table
            ≡ get_or (new_duration_metric_value bounds) key shuffled)
      → (keys : List K)
      → histogram_lines_of f name labels_of bounds table keys
        ≡ histogram_lines_of f name labels_of bounds shuffled keys
  unfolding histogram_lines_of
  histogram_lines_of-get_or f name labels_of bounds table shuffled same [] = refl
  histogram_lines_of-get_or f name labels_of bounds table shuffled same (key ∷ keys) =
      rw (same key, histogram_lines_of-get_or f name labels_of bounds table shuffled same keys) refl

module _ {K : Type 0} ⦃e : Eq K⦄ (less : K → K → Bool)
    (less_trans : (a b c : K) → less a b ≡ true → less b c ≡ true → less a c ≡ true)
    (less_total : (a b : K) → e.same a b ≡ false → less b a ≡ not (less a b)) where
  pub counter_lines-Perm :
      (f : Formats) (name : String) (labels_of : K → String) {table shuffled : List (K × ℕ)}
      → IsMap table
      → Permᴰ table shuffled
      → counter_lines f less name labels_of table ≡ counter_lines f less name labels_of shuffled
  unfolding counter_lines
  counter_lines-Perm f name labels_of {table} {shuffled} h p =
      let (h₁, keys, values) = Perm-Same 0 p h in
      counter_lines_of-get_or f name labels_of table shuffled values (sorted_keys less table)
      ∙ ap (counter_lines_of f name labels_of shuffled)
          (sorted_keys-Perm less less_trans less_total p)

  pub histogram_lines-Perm :
      (f : Formats) (name : String) (labels_of : K → List (String × String) → String)
      (bounds : List ℕ) {table shuffled : List (K × DurationMetricValue)}
      → IsMap table
      → Permᴰ table shuffled
      → histogram_lines f less name labels_of bounds table
        ≡ histogram_lines f less name labels_of bounds shuffled
  unfolding histogram_lines
  histogram_lines-Perm f name labels_of bounds {table} {shuffled} h p =
      let (h₁, keys, values) = Perm-Same (new_duration_metric_value bounds) p h in
      histogram_lines_of-get_or f name labels_of bounds table shuffled values
        (sorted_keys less table)
      ∙ ap (histogram_lines_of f name labels_of bounds shuffled)
          (sorted_keys-Perm less less_trans less_total p)
