-- ===== src/State/Codec/RoundTrip.antt =====
-- What is written to the state file is what is read from it.
use test_range.Prelude.{
  ℕ, arith, not, eqb, raise_if, String, ◌≡◌, refl, Option, none, some, List, [], ◌∷◌, Result, ok,
}
use test_range.Errors.{Error}
use test_range.State.Json.{Json, get_field}
use test_range.State.Schema.{Resource, NodeRecord, State, schema_version}
use test_range.State.Codec.{
  resource_to_json, node_to_json, items_of, to_json, as_optional, optional, resource_from_json,
  node_from_json, each, from_json,
}

as_optional-optional : (o : Option String) → as_optional (some (optional o)) ≡ ok o
unfolding as_optional optional
as_optional-optional none = refl
as_optional-optional (some s) = refl

resource_round_trip : (r : Resource) → resource_from_json (resource_to_json r) ≡ ok r
unfolding resource_from_json resource_to_json get_field
resource_round_trip r =
    rw (as_optional-optional r.plan_name, as_optional-optional r.outcome_at) refl

node_round_trip : (n : NodeRecord) → node_from_json (node_to_json n) ≡ ok n
unfolding node_from_json node_to_json get_field
node_round_trip n =
    rw (as_optional-optional n.materialized_at, as_optional-optional n.realized_at) refl

each-items_of :
    {A : Type 0} (f : Json → Result Error A) (g : A → Json)
    → ((a : A) → f (g a) ≡ ok a)
    → (xs : List A) → each f (items_of g xs) ≡ ok xs
unfolding each items_of
each-items_of f g h [] = refl
each-items_of f g h (x ∷ xs) = rw (h x, each-items_of f g h xs)

version_accepted :
    (v : ℕ) (e : Error) → v ≡ schema_version → raise_if (not (eqb v schema_version)) e ≡ ok tt
version_accepted v e h = ground arith

-- A state of the current schema version, whatever it holds, is read back from its JSON unchanged.
pub from_json-to_json : (s : State) → s.version ≡ schema_version → from_json (to_json s) ≡ ok s
unfolding from_json to_json get_field
from_json-to_json s v = rw (
  version_accepted s.version _ v,
  each-items_of resource_from_json resource_to_json resource_round_trip s.resources,
  each-items_of node_from_json node_to_json node_round_trip s.nodes,
)
