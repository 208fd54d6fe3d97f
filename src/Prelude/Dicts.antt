-- ===== src/Prelude/Dicts.antt =====
-- Python's `dict[str, V]` in insertion order, as an association list.
use Prim.Native.String.{String}
use mathlib.Core.Path.{◌≡◌, refl}
use mathlib.Core.Bool.{true, false, ◌||◌}
use mathlib.Core.Logic.{inl, inr}
use mathlib.Core.Option.{Option, none, some}
use mathlib.Core.List.{List, [], ◌∷◌}
use native.Mathlib.Omega.{arith}
use text.Mathlib.Text.{◌==◌}
use text.Mathlib.TextEquality.{eq_iff}
use test_range.Prelude.Tests.{if◌then◌else◌, Bool-cases}
use test_range.Prelude.Names.{contains}

abbrev pub Dict {ℓ} : Type ℓ → Type ℓ
Dict V = List (String × V)

module _ {ℓ} {V : Type ℓ} where
  -- d.get(k)
  unfoldable pub get : Dict V → String → Option V
  get [] k = none
  get ((j, v) ∷ d) k = if j == k then some v else get d k

  -- d[k] = v: a new key goes to the end.
  unfoldable pub put : Dict V → String → V → Dict V
  put [] k v = (k, v) ∷ []
  put ((j, w) ∷ d) k v = let rest = (j, w) ∷ put d k v in if j == k then (k, v) ∷ d else rest

  -- list(d)
  unfoldable pub keys : Dict V → List String
  keys [] = []
  keys ((j, v) ∷ d) = j ∷ keys d

  -- d.values()
  unfoldable pub values : Dict V → List V
  values [] = []
  values ((j, v) ∷ d) = v ∷ values d

  pub get-put :
      (d : Dict V) (key asked : String) (v : V)
      → get (put d key v) asked ≡ (if key == asked then some v else get d asked)
  unfolding get put
  get-put [] k j v = refl
  get-put ((i, w) ∷ d) k j v = ground (arith, eq_iff k j, eq_iff i k, eq_iff i j, get-put d k j v)

  pub contains-keys-put :
      (d : Dict V) (k j : String) (v : V)
      → contains j (keys (put d k v)) ≡ (k == j || contains j (keys d))
  unfolding keys put contains
  contains-keys-put [] k j v = refl
  contains-keys-put ((i, w) ∷ d) k j v =
      ground (arith, eq_iff k j, eq_iff i k, eq_iff i j, contains-keys-put d k j v)

  -- A key is present exactly if it has a value.
  pub get-of_contains :
      (d : Dict V) (k : String) → contains k (keys d) ≡ true → (v : V) × (get d k ≡ some v)
  unfolding get keys contains
  get-of_contains [] k h = cc
  get-of_contains ((j, v) ∷ d) k h = elim (Bool-cases (j == k)) [
    | inl here ↦ (v, rw here)
    | inr there ↦ rw there (get-of_contains d k (rw there at h))
  ]

  pub get-none_of_absent : (d : Dict V) (k : String) → contains k (keys d) ≡ false → get d k ≡ none
  unfolding get keys contains
  get-none_of_absent [] k h = refl
  get-none_of_absent ((j, v) ∷ d) k h = ground (arith, get-none_of_absent d k)
