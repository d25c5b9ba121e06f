-- ===== src/Prelude/Table.antt =====
-- Go maps keyed by a comparable type, as association lists, read with a default value as Go does.
use Prim.Native.Nat.{ℕ, suc}
use Prim.Native.String.{String}
use mathlib.Core.Path.{◌≡◌}
use mathlib.Core.Logic.{◌↔◌}
use mathlib.Core.Bool.{Bool, true}
use mathlib.Core.List.{List, [], ◌∷◌}
use native.Mathlib.Omega.{arith}
use text.Mathlib.TextEquality.{eq_iff}
use dense_cloud.Prelude.Tests.{str_eq, if◌then◌else◌}

-- The equality of a comparable type.
pub record Eq {ℓ} (K : Type ℓ) : Type ℓ where
  pub same : K → K → Bool
  pub same_iff : (a b : K) → (same a b ≡ true) ↔ (a ≡ b)

instance abbrev pub string_eq : Eq String
string_eq = record { same = str_eq; same_iff = eq_iff }

module _ {ℓ κ} {K : Type ℓ} {V : Type κ} ⦃e : Eq K⦄ where
  -- `m[key]`, with the default of a missing key.
  unfoldable pub get_or : V → K → List (K × V) → V
  get_or default key [] = default
  get_or default key (entry ∷ table) =
      if e.same entry.0 key then entry.1 else get_or default key table

  -- `m[key] = change(m[key])`
  unfoldable pub alter : V → (V → V) → K → List (K × V) → List (K × V)
  alter default change key [] = (key, change default) ∷ []
  alter default change key (entry ∷ table) =
      if e.same entry.0 key
      then (entry.0, change entry.1) ∷ table
      else entry ∷ alter default change key table

  pub get_or-alter :
      (default : V) (change : V → V) (key other : K) (table : List (K × V))
      → get_or default other (alter default change key table) ≡ (
          if e.same key other
          then change (get_or default other table)
          else get_or default other table)
  unfolding get_or alter
  get_or-alter default change key other [] = ground (arith, e.same_iff key other)
  get_or-alter default change key other (entry ∷ table) = ground (
    arith,
    e.same_iff key other,
    e.same_iff entry.0 key,
    e.same_iff entry.0 other,
    get_or-alter default change key other table,
  )

module _ {ℓ} {K : Type ℓ} ⦃e : Eq K⦄ where
  -- `m[key]++`
  unfoldable pub count_up : K → List (K × ℕ) → List (K × ℕ)
  unfolding alter
  count_up key table = alter 0 suc key table

  pub get_or-count_up :
      (key other : K) (table : List (K × ℕ))
      → get_or 0 other (count_up key table)
        ≡ (if e.same key other then suc (get_or 0 other table) else get_or 0 other table)
  unfolding count_up
  get_or-count_up key other table = get_or-alter 0 suc key other table
