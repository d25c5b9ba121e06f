-- ===== src/Prelude/Dict.antt =====
-- Go maps keyed by strings, as association lists in which each key stands once.
use Prim.Native.Nat.{suc, ◌≤◌}
use Prim.Native.String.{String}
use mathlib.Core.Path.{◌≡◌, refl}
use mathlib.Core.Bool.{Bool, true, false}
use mathlib.Core.Option.{Option, none, some}
use mathlib.Core.List.{List, [], ◌∷◌}
use native.Mathlib.Omega.{arith}
use text.Mathlib.TextEquality.{eq_iff}
use mathlib.Core.Logic.{inl, inr}
use mathlib.Core.Path.{subst}
use dense_cloud.Prelude.Tests.{str_eq, if◌then◌else◌, is_some, Bool-cases}
use dense_cloud.Prelude.Lists.{length}

module _ {ℓ} {V : Type ℓ} where
  unfoldable pub lookup : String → List (String × V) → Option V
  lookup key [] = none
  lookup key (entry ∷ rest) = if str_eq entry.0 key then some entry.1 else lookup key rest

  -- `m[key] = value`
  unfoldable pub insert : String → V → List (String × V) → List (String × V)
  insert key value [] = (key, value) ∷ []
  insert key value (entry ∷ rest) =
      if str_eq entry.0 key then (key, value) ∷ rest else entry ∷ insert key value rest

  -- The entries whose value passes the test.
  unfoldable pub keep : (V → Bool) → List (String × V) → List (String × V)
  keep p [] = []
  keep p ((j, v) ∷ m) = let rest = keep p m in if p v then (j, v) ∷ rest else rest

  abbrev pub HasDistinctKeys : List (String × V) → Type ℓ
  HasDistinctKeys [] = Unit
  HasDistinctKeys ((j, v) ∷ m) = (lookup j m ≡ none) × HasDistinctKeys m

  pub lookup-insert :
      (key other : String) (value : V) (table : List (String × V))
      → lookup other (insert key value table)
        ≡ (if str_eq key other then some value else lookup other table)
  unfolding insert lookup
  lookup-insert key other value [] = refl
  lookup-insert key other value (entry ∷ rest) = ground (
    arith,
    lookup-insert key other value rest,
    eq_iff entry.0 key,
    eq_iff entry.0 other,
    eq_iff key other,
  )

  pub insert-HasDistinctKeys :
      (k : String) (v : V) (m : List (String × V))
      → HasDistinctKeys m
      → HasDistinctKeys (insert k v m)
  unfolding insert lookup
  insert-HasDistinctKeys k v [] h = (refl, tt)
  insert-HasDistinctKeys k v ((i, w) ∷ m) h =
      ground
        (arith, eq_iff i k, eq_iff k i, insert-HasDistinctKeys k v m h.1, lookup-insert k i v m)

  pub length-insert :
      (k : String) (v : V) (m : List (String × V))
      → length (insert k v m) ≡ (if is_some (lookup k m) then length m else suc (length m))
  unfolding insert lookup
  length-insert k v [] = refl
  length-insert k v ((i, w) ∷ m) = ground (arith, length-insert k v m)

  pub lookup-keep-none :
      (p : V → Bool) (k : String) (m : List (String × V))
      → lookup k m ≡ none
      → lookup k (keep p m) ≡ none
  unfolding lookup keep
  lookup-keep-none p k [] h = refl
  lookup-keep-none p k ((i, w) ∷ m) h = ground (arith, lookup-keep-none p k m)

  pub keep-HasDistinctKeys :
      (p : V → Bool) (m : List (String × V)) → HasDistinctKeys m → HasDistinctKeys (keep p m)
  unfolding keep
  keep-HasDistinctKeys p [] h = tt
  keep-HasDistinctKeys p ((i, w) ∷ m) h =
      ground (arith, keep-HasDistinctKeys p m h.1, lookup-keep-none p i m h.0)

  pub lookup-keep :
      (p : V → Bool) (k : String) (v : V) (m : List (String × V))
      → HasDistinctKeys m
      → lookup k m ≡ some v
      → lookup k (keep p m) ≡ (if p v then some v else none)
  unfolding lookup keep
  lookup-keep p k v [] d h = ground arith
  lookup-keep p k v ((i, w) ∷ m) d h =
      ground (arith, eq_iff i k, lookup-keep p k v m d.1, lookup-keep-none p i m d.0)

  pub length-keep-le : (p : V → Bool) (m : List (String × V)) → length (keep p m) ≤ length m
  unfolding keep
  length-keep-le p [] = omega arith
  length-keep-le p ((i, w) ∷ m) = ground (arith, length-keep-le p m)

module _ {ℓ κ} {V : Type ℓ} (P : V → Type κ) where
  abbrev pub AllValues : List (String × V) → Type κ
  AllValues [] = Unit
  AllValues ((j, v) ∷ m) = P v × AllValues m

  pub AllValues-insert :
      (k : String) (v : V) (m : List (String × V)) → P v → AllValues m → AllValues (insert k v m)
  unfolding insert
  AllValues-insert k v [] p h = (p, tt)
  AllValues-insert k v ((j, w) ∷ m) p h =
      elim (str_eq j k) as (λ b. AllValues (if b then (k, v) ∷ m else (j, w) ∷ insert k v m)) [
        | true ↦ (p, h.1)
        | false ↦ (h.0, AllValues-insert k v m p h.1)
      ]

  pub AllValues-keep : (p : V → Bool) (m : List (String × V)) → AllValues m → AllValues (keep p m)
  unfolding keep
  AllValues-keep p [] h = tt
  AllValues-keep p ((j, w) ∷ m) h =
      elim (p w) as (λ b. AllValues (if b then (j, w) ∷ keep p m else keep p m)) [
        | true ↦ (h.0, AllValues-keep p m h.1)
        | false ↦ AllValues-keep p m h.1
      ]

  pub AllValues-lookup :
      (k : String) (v : V) (m : List (String × V)) → AllValues m → lookup k m ≡ some v → P v
  unfolding lookup
  AllValues-lookup k v [] h e = absurd (ground arith)
  AllValues-lookup k v ((j, w) ∷ m) h e = elim (Bool-cases (str_eq j k)) [
    | inl q ↦ subst P (ground arith) h.0
    | inr q ↦ AllValues-lookup k v m h.1 (ground arith)
  ]
