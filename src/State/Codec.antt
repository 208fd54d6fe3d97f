-- ===== src/State/Codec.antt =====
-- `to_json` and `from_json` of testrange/state/schema.py.
pub mod RoundTrip
use test_range.Prelude.{
  ℕ, zero, String, Bool, Option, none, some, List, [], ◌∷◌, ◌==◌, eqb, not, if◌then◌else◌, Result,
  ok, err, raise_if, ◌>>=◌, ◌>>◌,
}
use test_range.Errors.{Error, raise, key_error, state_error, ill_typed}
use test_range.State.Json.{
  Json, Items, Fields, null, number, text, array, object, nil, item, end, field, get_field,
}
use test_range.State.Schema.{Resource, NodeRecord, State, schema_version, phase_preflight}

optional : Option String → Json
optional none = null
optional (some s) = text s

unfoldable pub resource_to_json : Resource → Json
unfolding optional
resource_to_json r = object (
    field "kind" (text r.kind) (
      field "backend_name" (text r.backend_name) (
        field "plan_name" (optional r.plan_name) (
          field "intent_at" (text r.intent_at) (
            field "outcome_at" (optional r.outcome_at)
              (field "metadata" (object r.metadata) end))))))

unfoldable pub node_to_json : NodeRecord → Json
unfolding optional
node_to_json n = object (
    field "name" (text n.name) (
      field "materialized_at" (optional n.materialized_at)
        (field "realized_at" (optional n.realized_at) end)))

-- [f(x) for x in xs]
unfoldable pub items_of {ℓ} : {A : Type ℓ} → (A → Json) → List A → Items
items_of f [] = nil
items_of f (x ∷ xs) = item (f x) (items_of f xs)

unfoldable pub to_json : State → Json
unfolding resource_to_json node_to_json items_of
to_json s = object (
    field "schema_version" (number s.version) (
      field "run_id" (text s.run_id) (
        field "plan_name" (text s.plan_name) (
          field "driver_class" (text s.driver_class) (
            field "driver_uri" (text s.driver_uri) (
              field "phase" (text s.phase) (
                field "created_at" (text s.created_at) (
                  field "resources" (array (items_of resource_to_json s.resources))
                    (field "nodes" (array (items_of node_to_json s.nodes)) end)))))))))

-- Python keeps a value of another type than the annotation says, and fails where it is used; the
-- model stops at once, with `ill_typed`.
as_text : Json → Result Error String
as_text (text s) = ok s
as_text _ = raise ill_typed []

-- data[key]
required : Fields → String → Result Error String
required data' key = elim (get_field data' key) [
  | none ↦ raise key_error (key ∷ [])
  | some v ↦ as_text v
]

-- data.get(key, default)
with_default : Fields → String → String → Result Error String
with_default data' key default = elim (get_field data' key) [
  | none ↦ ok default
  | some v ↦ as_text v
]

as_optional : Option Json → Result Error (Option String)
as_optional none = ok none
as_optional (some null) = ok none
as_optional (some (text s)) = ok (some s)
as_optional (some _) = raise ill_typed []

-- dict(data.get("metadata") or {}), where the values that count as false stand for the empty mapping; of
-- the others only mappings are accepted here (`dict` also takes a list of pairs)
as_metadata : Option Json → Result Error Fields
as_metadata none = ok end
as_metadata (some null) = ok end
as_metadata (some (number zero)) = ok end
as_metadata (some (text s)) = if s == "" then ok end else raise ill_typed []
as_metadata (some (array nil)) = ok end
as_metadata (some (object m)) = ok m
as_metadata (some _) = raise ill_typed []

unfoldable pub resource_from_json : Json → Result Error Resource
unfolding as_text required as_optional as_metadata
resource_from_json (object d) = do
  kind ← required d "kind"
  backend_name ← required d "backend_name"
  plan_name ← as_optional (get_field d "plan_name")
  intent_at ← required d "intent_at"
  outcome_at ← as_optional (get_field d "outcome_at")
  metadata ← as_metadata (get_field d "metadata")
  ok (record {
    kind = kind;
    backend_name = backend_name;
    plan_name = plan_name;
    intent_at = intent_at;
    outcome_at = outcome_at;
    metadata = metadata;
  })
resource_from_json _ = raise ill_typed []

unfoldable pub node_from_json : Json → Result Error NodeRecord
unfolding as_text required as_optional
node_from_json (object d) = do
  name ← required d "name"
  materialized_at ← as_optional (get_field d "materialized_at")
  realized_at ← as_optional (get_field d "realized_at")
  ok (record { name = name; materialized_at = materialized_at; realized_at = realized_at })
node_from_json _ = raise ill_typed []

-- tuple(f(x) for x in items)
unfoldable pub each : {A : Type 0} → (Json → Result Error A) → Items → Result Error (List A)
each f nil = ok []
each f (item x xs) = do a ← f x; rest ← each f xs; ok (a ∷ rest)

-- data.get("resources", [])
as_list : Option Json → Result Error Items
as_list none = ok nil
as_list (some (array xs)) = ok xs
as_list (some _) = raise ill_typed []

-- int(data.get("schema_version", 0)), of a number; the texts that `int` reads as numbers are refused here
as_version : Option Json → Result Error ℕ
as_version none = ok 0
as_version (some (number n)) = ok n
as_version (some _) = raise ill_typed []

unfoldable pub from_json : Json → Result Error State
unfolding as_text with_default as_list as_version resource_from_json node_from_json each
from_json (object d) = do
  version ← as_version (get_field d "schema_version")
  raise_if (not (eqb version schema_version)) (record { class = state_error; about = [] })
  run_id ← with_default d "run_id" ""
  plan_name ← with_default d "plan_name" ""
  driver_class ← with_default d "driver_class" ""
  driver_uri ← with_default d "driver_uri" ""
  phase ← with_default d "phase" phase_preflight
  created_at ← with_default d "created_at" ""
  resource_items ← as_list (get_field d "resources")
  resources ← each resource_from_json resource_items
  node_items ← as_list (get_field d "nodes")
  nodes ← each node_from_json node_items
  ok (record {
    version = version;
    run_id = run_id;
    plan_name = plan_name;
    driver_class = driver_class;
    driver_uri = driver_uri;
    phase = phase;
    created_at = created_at;
    resources = resources;
    nodes = nodes;
  })
from_json _ = raise ill_typed []
