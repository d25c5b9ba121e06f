-- ===== src/Server/Extensions.antt =====
-- The registry of go/server/extensions.go, which is a package variable there. `E` is an extension
-- and `name_of` its Name; a nil extension is `none`.
use dense_cloud.Prelude.{
  str_eq, if◌then◌else◌, if_both, any, String, ◌≡◌, refl, ◌≢◌, Bool, false, ◌||◌, Option, none,
  some, List, [], ◌∷◌, ◌++◌, arith, eq_iff,
}

-- RuntimeExtensions, a copy of the registered ones
abbrev pub runtime_extensions : {E : Type 0} → List E → List E
runtime_extensions extensions = extensions

module _ {E : Type 0} (name_of : E → String) where
  abbrev pub has_name : String → List E → Bool
  has_name name extensions = any (λ existing. str_eq (name_of existing) name) extensions

  unfoldable pub register_runtime_extension : Option E → List E → List E
  register_runtime_extension none extensions = extensions
  register_runtime_extension (some ext) extensions =
      if str_eq (name_of ext) ""
      then extensions
      else if has_name (name_of ext) extensions
      then extensions
      else extensions ++ ext ∷ []

  -- One registration after the other.
  unfoldable pub register_all : List (Option E) → List E → List E
  register_all [] extensions = extensions
  register_all (ext ∷ rest) extensions =
      register_all rest (register_runtime_extension ext extensions)

  -- No name stands twice, and none is empty.
  abbrev pub HasNames : List E → Type 0
  HasNames [] = Unit
  HasNames (ext ∷ rest) = (name_of ext ≢ "") × (has_name (name_of ext) rest ≡ false) × HasNames rest

  has_name-snoc :
      (name : String) (xs : List E) (ext : E)
      → has_name name (xs ++ ext ∷ []) ≡ (has_name name xs || str_eq (name_of ext) name)
  has_name-snoc name [] ext = ground arith
  has_name-snoc name (x ∷ xs) ext = ground (arith, has_name-snoc name xs ext)

  HasNames-snoc :
      (xs : List E) (ext : E)
      → HasNames xs
      → name_of ext ≢ ""
      → has_name (name_of ext) xs ≡ false
      → HasNames (xs ++ ext ∷ [])
  HasNames-snoc [] ext h n q = (n, refl, tt)
  HasNames-snoc (x ∷ xs) ext h n q = (
    h.0,
    ground (
      arith,
      has_name-snoc (name_of x) xs ext,
      eq_iff (name_of x) (name_of ext),
      eq_iff (name_of ext) (name_of x),
    ),
    HasNames-snoc xs ext h.2 n (ground arith),
  )

  register_runtime_extension-HasNames :
      (ext : Option E) (xs : List E) → HasNames xs → HasNames (register_runtime_extension ext xs)
  unfolding register_runtime_extension
  register_runtime_extension-HasNames none xs h = h
  register_runtime_extension-HasNames (some ext) xs h =
      if_both HasNames (str_eq (name_of ext) "") xs
        (if has_name (name_of ext) xs then xs else xs ++ ext ∷ []) (λ q. h)
        (λ named.
          if_both HasNames (has_name (name_of ext) xs) xs (xs ++ ext ∷ []) (λ q. h)
            (λ q. HasNames-snoc xs ext h (ground (arith, eq_iff (name_of ext) "")) q))

  register_all-HasNames_from :
      (exts : List (Option E)) (xs : List E) → HasNames xs → HasNames (register_all exts xs)
  unfolding register_all
  register_all-HasNames_from [] xs h = h
  register_all-HasNames_from (ext ∷ exts) xs h =
      register_all-HasNames_from exts (register_runtime_extension ext xs)
        (register_runtime_extension-HasNames ext xs h)

  -- Behind any registrations, nil and nameless ones among them, every extension in the registry has
  -- a name, and no two have the same.
  pub register_all-HasNames : (exts : List (Option E)) → HasNames (register_all exts [])
  register_all-HasNames exts = register_all-HasNames_from exts [] tt
