-- ===== src/Prelude/Texts.antt =====
-- Texts put together, as an f-string does.
use Prim.Native.String.{String, [], ◌∷◌}
use mathlib.Core.Path.{◌≡◌}
use text.Mathlib.TextLemmas.{tail-eq_of_cons-eq}

unfoldable pub join : String → String → String
join [] t = t
join (c ∷ s) t = c ∷ join s t

-- A common front can be dropped.
pub join_cancel : (s t u : String) → join s t ≡ join s u → t ≡ u
unfolding join
join_cancel [] t u h = h
join_cancel (c ∷ s) t u h = join_cancel s t u (tail-eq_of_cons-eq h)
