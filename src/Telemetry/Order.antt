-- ===== src/Telemetry/Order.antt =====
-- The orders by which go/telemetry sorts keys: that of texts, and lists of them that are sorted.
use Prim.Native.Char.{Char, code}
use text.Mathlib.TextEquality.{Char-path}
use dense_cloud.Prelude.{
  ◌==◌, Bool-cases, Eq, String, ◌≡◌, refl, sym, ap, ◌∙◌, ◌≢◌, inl, inr, Bool, true, false, not,
  List, [], ◌∷◌, arith,
}
use mathlib.Core.List.{Permᴰ}
use dense_cloud.Telemetry.Text.{str_ltb, insert_key, sorted_keys}

pub str_ltb_trans : (a b c : String) → str_ltb a b ≡ true → str_ltb b c ≡ true → str_ltb a c ≡ true
unfolding str_ltb
str_ltb_trans String.[] String.[] c h k = absurd (ground (arith, h))
str_ltb_trans String.[] (String.◌∷◌ y b) String.[] h k = absurd (ground (arith, k))
str_ltb_trans String.[] (String.◌∷◌ y b) (String.◌∷◌ z c) h k = refl
str_ltb_trans (String.◌∷◌ x a) String.[] c h k = absurd (ground (arith, h))
str_ltb_trans (String.◌∷◌ x a) (String.◌∷◌ y b) String.[] h k = absurd (ground (arith, k))
str_ltb_trans (String.◌∷◌ x a) (String.◌∷◌ y b) (String.◌∷◌ z c) h k =
    ground (arith, h, k, str_ltb_trans a b c)

-- Of two different texts one comes first, and only one.
pub str_ltb_total : (a b : String) → a ≢ b → str_ltb b a ≡ not (str_ltb a b)
unfolding str_ltb
str_ltb_total String.[] String.[] h = absurd (h refl)
str_ltb_total String.[] (String.◌∷◌ y b) h = refl
str_ltb_total (String.◌∷◌ x a) String.[] h = refl
str_ltb_total (String.◌∷◌ x a) (String.◌∷◌ y b) h = elim (Bool-cases (code x == code y)) [
  | inl q ↦
      let same : x ≡ y = Char-path x y (ground (arith, q)) in
      ground (
        arith,
        q,
        str_ltb_total a b (λ e.
            h (ap (λ (d : Char). String.◌∷◌ d a) same ∙ ap (λ (t : String). String.◌∷◌ y t) e)),
      )
  | inr q ↦ ground (arith, q)
]

module _ {K : Type 0} ⦃e : Eq K⦄ (less : K → K → Bool)
    (less_trans : (a b c : K) → less a b ≡ true → less b c ≡ true → less a c ≡ true)
    (less_total : (a b : K) → e.same a b ≡ false → less b a ≡ not (less a b)) where
  insert_key-different :
      (a b : K) (keys : List K)
      → e.same a b ≡ false
      → insert_key less a (insert_key less b keys) ≡ insert_key less b (insert_key less a keys)
  unfolding insert_key
  insert_key-different a b [] h = ground (arith, less_total a b h)
  insert_key-different a b (k ∷ keys) h =
      ground (
        arith,
        less_total a b h,
        less_trans a b k,
        less_trans b a k,
        insert_key-different a b keys h,
      )

  insert_key_comm :
      (a b : K) (keys : List K)
      → insert_key less a (insert_key less b keys) ≡ insert_key less b (insert_key less a keys)
  insert_key_comm a b keys = elim (Bool-cases (e.same a b)) [
    | inl q ↦
        let same : a ≡ b = (e.same_iff a b).0 q in
        ap (λ (x : K). insert_key less x (insert_key less b keys)) same
        ∙ ap (λ (x : K). insert_key less b (insert_key less x keys)) (sym same)
    | inr q ↦ insert_key-different a b keys q
  ]

  module _ {V : Type 0} where
    pub sorted_keys-Perm :
        {table shuffled : List (K × V)}
        → Permᴰ table shuffled
        → sorted_keys less table ≡ sorted_keys less shuffled
    unfolding sorted_keys
    sorted_keys-Perm Permᴰ.nil = refl
    sorted_keys-Perm (Permᴰ.cons {a = a} {l₂ = shuffled} q p) =
        ap (insert_key less a.0) (sorted_keys-Perm p)
        ∙ ap (λ (entry : K × V). insert_key less entry.0 (sorted_keys less shuffled)) q
    sorted_keys-Perm (Permᴰ.swap {a = a} {b = b} {b' = b'} {l = table} q q') =
        insert_key_comm a.0 b.0 (sorted_keys less table)
        ∙ (ap
              (λ (entry : K × V).
                insert_key less b.0 (insert_key less entry.0 (sorted_keys less table)))
              q
            ∙ ap
                (λ (entry : K × V).
                  insert_key less entry.0 (insert_key less b'.0 (sorted_keys less table)))
                q')
    sorted_keys-Perm (Permᴰ.trans p p') = sorted_keys-Perm p ∙ sorted_keys-Perm p'
