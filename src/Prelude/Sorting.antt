-- ===== src/Prelude/Sorting.antt =====
-- `sorted` on names: Python orders strings by code points.
use Prim.Native.Nat.{Ordering, suc}
use Prim.Native.String.{String, compare}
use mathlib.Core.Path.{◌≡◌, refl}
use mathlib.Core.Bool.{Bool, true, false, ◌||◌}
use mathlib.Core.List.{List, [], ◌∷◌}
use native.Mathlib.Omega.{arith}
use text.Mathlib.Text.{◌==◌}
use text.Mathlib.TextEquality.{eq_iff}
use test_range.Prelude.Tests.{if◌then◌else◌}
use test_range.Prelude.Lists.{length}
use test_range.Prelude.Names.{contains, Distinct}

-- s <= t
unfoldable pub str_le : String → String → Bool
str_le s t = elim (compare s t) [ Ordering.gt ↦ false | _ ↦ true ]

unfoldable pub insert_sorted : String → List String → List String
unfolding str_le
insert_sorted x [] = x ∷ []
insert_sorted x (y ∷ ys) =
    let rest = y ∷ insert_sorted x ys in if str_le x y then x ∷ y ∷ ys else rest

-- sorted(xs)
unfoldable pub sorted : List String → List String
unfolding insert_sorted
sorted [] = []
sorted (x ∷ xs) = insert_sorted x (sorted xs)

contains-insert_sorted :
    (z x : String) (ys : List String) → contains z (insert_sorted x ys) ≡ (x == z || contains z ys)
unfolding insert_sorted contains
contains-insert_sorted z x [] = refl
contains-insert_sorted z x (y ∷ ys) = ground (arith, contains-insert_sorted z x ys)

pub contains-sorted : (z : String) (xs : List String) → contains z (sorted xs) ≡ contains z xs
unfolding sorted contains
contains-sorted z [] = refl
contains-sorted z (x ∷ xs) =
    ground (arith, contains-insert_sorted z x (sorted xs), contains-sorted z xs)

length-insert_sorted :
    (x : String) (ys : List String) → length (insert_sorted x ys) ≡ suc (length ys)
unfolding insert_sorted
length-insert_sorted x [] = refl
length-insert_sorted x (y ∷ ys) = ground (arith, length-insert_sorted x ys)

pub length-sorted : (xs : List String) → length (sorted xs) ≡ length xs
unfolding sorted
length-sorted [] = refl
length-sorted (x ∷ xs) = omega (arith, length-insert_sorted x (sorted xs), length-sorted xs)

Distinct-insert_sorted :
    (x : String) (ys : List String)
    → contains x ys ≡ false
    → Distinct ys
    → Distinct (insert_sorted x ys)
unfolding insert_sorted contains
Distinct-insert_sorted x [] h d = (refl, tt)
Distinct-insert_sorted x (y ∷ ys) h d =
    ground
      (arith, eq_iff x y, eq_iff y x, contains-insert_sorted y x ys, Distinct-insert_sorted x ys)

pub Distinct-sorted : (xs : List String) → Distinct xs → Distinct (sorted xs)
unfolding sorted
Distinct-sorted [] d = tt
Distinct-sorted (x ∷ xs) d =
    Distinct-insert_sorted x (sorted xs) (rw contains-sorted d.0) (Distinct-sorted xs d.1)
