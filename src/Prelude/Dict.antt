-- ===== src/Prelude/Dict.antt =====
-- JavaScript's `Map` with text keys: an association list in insertion order, where `set` on a key
-- that is there keeps its place.
use Prim.Native.String.{String}
use mathlib.Core.Path.{◌≡◌, refl}
use mathlib.Core.Option.{Option, none, some}
use mathlib.Core.List.{List, [], ◌∷◌}
use native.Mathlib.Omega.{arith}
use text.Mathlib.Text.{◌==◌}
use text.Mathlib.TextEquality.{eq_iff}
use text.Mathlib.TextPositions.{eq_refl}
use nvidia_omoda.Prelude.Tests.{if◌then◌else◌, Bool-cases}
use nvidia_omoda.Prelude.Lists.{All}
use mathlib.Core.Logic.{inl, inr}
use mathlib.Core.Path.{subst, sym}

module _ {ℓ} {V : Type ℓ} where
  unfoldable pub get : String → List (String × V) → Option V
  get k [] = none
  get k ((j, v) ∷ m) = if j == k then some v else get k m

  unfoldable pub put : String → V → List (String × V) → List (String × V)
  put k v [] = (k, v) ∷ []
  put k v ((j, w) ∷ m) = if j == k then (j, v) ∷ m else (j, w) ∷ put k v m

  unfoldable pub del : String → List (String × V) → List (String × V)
  del k [] = []
  del k ((j, w) ∷ m) = if j == k then del k m else (j, w) ∷ del k m

  pub get-put :
      (k j : String) (v : V) (m : List (String × V))
      → get j (put k v m) ≡ (if k == j then some v else get j m)
  unfolding get put
  get-put k j v [] = refl
  get-put k j v ((i, w) ∷ m) = ground (arith, eq_iff k j, eq_iff i k, eq_iff i j, get-put k j v m)

  pub get-put_self : (k : String) (v : V) (m : List (String × V)) → get k (put k v m) ≡ some v
  get-put_self k v m = simp (get-put, eq_refl)

  pub get-del :
      (k j : String) (m : List (String × V)) → get j (del k m) ≡ (if k == j then none else get j m)
  unfolding get del
  get-del k j [] = ground arith
  get-del k j ((i, w) ∷ m) = ground (arith, eq_iff k j, eq_iff i k, eq_iff i j, get-del k j m)

  -- What holds of every entry holds of one that is found, and is kept by `set`.
  pub get-All {κ} :
      (P : String → V → Type κ) (k : String) (v : V) (m : List (String × V))
      → All (λ e. P e.0 e.1) m
      → get k m ≡ some v
      → P k v
  unfolding get
  get-All P k v [] h e = cc
  get-All P k v ((j, w) ∷ m) h e = elim (Bool-cases (j == k)) [
    | inl hit ↦ subst (λ x. P x v) ((eq_iff j k).0 hit) (subst (P j) (ground (arith, e, hit)) h.0)
    | inr miss ↦ get-All P k v m h.1 (ground (arith, e, miss))
  ]

  pub put-All {κ} :
      (P : String → V → Type κ) (k : String) (v : V) (m : List (String × V))
      → All (λ e. P e.0 e.1) m
      → P k v
      → All (λ e. P e.0 e.1) (put k v m)
  unfolding put
  put-All P k v [] h p = (p, tt)
  put-All P k v ((j, w) ∷ m) h p = elim (Bool-cases (j == k)) [
    | inl hit ↦ rw hit (subst (λ x. P x v) (sym ((eq_iff j k).0 hit)) p, h.1)
    | inr miss ↦ rw miss (h.0, put-All P k v m h.1 p)
  ]
