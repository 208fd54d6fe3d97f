-- ===== src/Prelude/Names.antt =====
-- Sets of names, as lists: Python's `set[str]` where only membership, size and sorted order are
-- read. `contains` is the test `x in xs`.
use Prim.Native.Nat.{suc, ◌≤◌}
use Prim.Native.String.{String}
use mathlib.Core.Path.{◌≡◌, refl, ap, subst}
use mathlib.Core.Logic.{◌≢◌, ◌⊎◌, inl, inr}
use mathlib.Core.Bool.{Bool, true, false, ◌&&◌, ◌||◌}
use mathlib.Core.List.{List, [], ◌∷◌, ◌++◌}
use native.Mathlib.Omega.{arith}
use text.Mathlib.Text.{◌==◌}
use text.Mathlib.TextEquality.{eq_iff}
use text.Mathlib.TextPositions.{eq_refl}
use test_range.Prelude.Tests.{if◌then◌else◌, Bool-cases}
use test_range.Prelude.Lists.{length}

-- x in xs
unfoldable pub contains : String → List String → Bool
contains x [] = false
contains x (y ∷ ys) = y == x || contains x ys

-- xs.add(x)
unfoldable pub add : String → List String → List String
add x xs = if contains x xs then xs else xs ++ x ∷ []

-- xs <= ys, for sets
unfoldable pub subset : List String → List String → Bool
subset [] ys = true
subset (x ∷ xs) ys = contains x ys && subset xs ys

abbrev pub In : String → List String → Type 0
In x xs = contains x xs ≡ true

abbrev pub Distinct : List String → Type 0
Distinct [] = Unit
Distinct (x ∷ xs) = (contains x xs ≡ false) × Distinct xs

pub contains-append :
    (x : String) (xs ys : List String) → contains x (xs ++ ys) ≡ (contains x xs || contains x ys)
unfolding contains
contains-append x [] ys = refl
contains-append x (y ∷ xs) ys = ground (arith, contains-append x xs ys)

pub contains-add :
    (x y : String) (xs : List String) → contains x (add y xs) ≡ (y == x || contains x xs)
unfolding add contains
contains-add x y xs = ground (arith, contains-append x xs (y ∷ []), eq_iff y x)

pub In-In_cons : (x y : String) (xs : List String) → In x xs → In x (y ∷ xs)
unfolding contains
In-In_cons x y xs h = ground arith

pub subset-In : (x : String) (xs ys : List String) → subset xs ys ≡ true → In x xs → In x ys
unfolding subset contains
subset-In x [] ys h m = ground arith
subset-In x (z ∷ xs) ys h m = ground (arith, eq_iff z x, subset-In x xs ys)

pub In-cons_self : (x : String) (xs : List String) → In x (x ∷ xs)
unfolding contains
In-cons_self x xs = rw eq_refl

pub In-subset : (xs ys : List String) → ((x : String) → In x xs → In x ys) → subset xs ys ≡ true
unfolding subset
In-subset [] ys h = refl
In-subset (z ∷ xs) ys h = ground (
  arith,
  h z (In-cons_self z xs),
  In-subset xs ys (λ (x : String) (m : In x xs). h x (In-In_cons x z xs m)),
)

-- A name that is not in the list, and how a member splits from the head.
pub In-cons_cases : (x y : String) (xs : List String) → In x (y ∷ xs) → (y ≡ x) ⊎ In x xs
unfolding contains
In-cons_cases x y xs h = ground (arith, eq_iff y x)

pub In-ne : (x y : String) (xs : List String) → contains x xs ≡ false → In y xs → x ≢ y
In-ne x y xs out m e = cc (ap (λ (z : String). contains z xs) e)

pub Distinct-snoc :
    (x : String) (xs : List String) → Distinct xs → contains x xs ≡ false → Distinct (xs ++ x ∷ [])
unfolding contains
Distinct-snoc x [] d h = (refl, tt)
Distinct-snoc x (y ∷ xs) d h = (
  ground (arith, contains-append y xs (x ∷ []), eq_iff x y, eq_iff y x),
  Distinct-snoc x xs d.1 (ground arith),
)

pub Distinct-add : (x : String) (xs : List String) → Distinct xs → Distinct (add x xs)
unfolding add
Distinct-add x xs d = elim (Bool-cases (contains x xs)) [
  | inl old ↦ rw old d
  | inr new ↦ rw new (Distinct-snoc x xs d new)
]

pub Distinct-append :
    (xs ys : List String)
    → Distinct xs
    → Distinct ys
    → ((x : String) → In x xs → contains x ys ≡ false)
    → Distinct (xs ++ ys)
Distinct-append [] ys dx dy h = dy
Distinct-append (x ∷ xs) ys dx dy h = (
  rw contains-append (ground (arith, h x (In-cons_self x xs))),
  Distinct-append xs ys dx.1 dy (λ z m. h z (In-In_cons z x xs m)),
)

-- One occurrence taken out, for counting.
take_out : String → List String → List String
take_out x [] = []
take_out x (y ∷ ys) = let rest = y ∷ take_out x ys in if y == x then ys else rest

length-take_out :
    (x : String) (ys : List String) → In x ys → suc (length (take_out x ys)) ≡ length ys
unfolding take_out contains
length-take_out x [] h = cc
length-take_out x (y ∷ ys) h = ground (arith, length-take_out x ys)

In-take_out : (x z : String) (ys : List String) → x ≢ z → In z ys → In z (take_out x ys)
unfolding take_out contains
In-take_out x z [] n h = cc
In-take_out x z (y ∷ ys) n h = ground (arith, eq_iff y x, eq_iff y z, In-take_out x z ys)

-- A list with no name twice, all of whose names stand in another, is at most as long.
pub length-le_of_In :
    (xs ys : List String) → Distinct xs → ((x : String) → In x xs → In x ys) → length xs ≤ length ys
length-le_of_In [] ys d h = omega arith
length-le_of_In (x ∷ xs) ys d h =
    let ih =
      length-le_of_In xs (take_out x ys) d.1
        (λ z m. In-take_out x z ys (In-ne x z xs d.0 m) (h z (In-In_cons z x xs m))) in
    omega (arith, length-take_out x ys (h x (In-cons_self x xs)))

-- If it is as long, the other list has no further name.
pub In-of_length-eq :
    (xs ys : List String)
    → Distinct xs
    → ((x : String) → In x xs → In x ys)
    → length ys ≤ length xs
    → (y : String) → In y ys
    → In y xs
In-of_length-eq xs ys d h short y m = elim (Bool-cases (contains y xs)) [
  | inl old ↦ old
  | inr new ↦
      let long =
        length-le_of_In (y ∷ xs) ys (new, d)
          (λ z k. elim (In-cons_cases z y xs k) [
            | inl e ↦ subst (λ w. In w ys) e m
            | inr r ↦ h z r
          ]) in
      absurd (omega arith)
]
