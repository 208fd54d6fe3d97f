-- ===== src/State/Json/Merge.antt =====
-- What is found in a mapping of testrange/state/schema.py that another one is merged into.
use test_range.Prelude.{
  String, ◌≡◌, refl, ap, ◌∙◌, Option, some, ◌==◌, eq_iff, arith, if◌then◌else◌,
}
use test_range.State.Json.{Json, Fields, end, field, get_field, set_field, merge}

get_field-set_field :
    (fs : Fields) (key asked : String) (v : Json)
    → get_field (set_field fs key v) asked ≡ (if key == asked then some v else get_field fs asked)
unfolding get_field set_field
get_field-set_field end key asked v = refl
get_field-set_field (field k w rest) key asked v =
    ground
      (arith, eq_iff k key, eq_iff k asked, eq_iff key asked, get_field-set_field rest key asked v)

-- The value under a key of the later fields if they have one, the last such, or else of the earlier.
abbrev pub newest : Option Json → Fields → String → Option Json
newest before end key = before
newest before (field k v rest) key = newest (if k == key then some v else before) rest key

pub get_field-merge :
    (fs extra : Fields) (key : String)
    → get_field (merge fs extra) key ≡ newest (get_field fs key) extra key
unfolding merge
get_field-merge fs end key = refl
get_field-merge fs (field k v rest) key =
    get_field-merge (set_field fs k v) rest key
    ∙ ap (λ o. newest o rest key) (get_field-set_field fs k key v)
