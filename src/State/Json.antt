-- ===== src/State/Json.antt =====
-- The values that `json.dumps` writes and `json.loads` returns, as far as the state file uses them.
-- A mapping is a list of fields.
pub mod Merge
use test_range.Prelude.{ℕ, String, Option, none, some, ◌==◌, if◌then◌else◌}

mutual
  pub data Json : Type 0 where
    null : Json
    number : ℕ → Json
    text : String → Json
    array : Items → Json
    object : Fields → Json

  pub data Items : Type 0 where
    nil : Items
    item : Json → Items → Items

  pub data Fields : Type 0 where
    end : Fields
    field : String → Json → Fields → Fields

-- data.get(key)
unfoldable pub get_field : Fields → String → Option Json
get_field end key = none
get_field (field k v rest) key = if k == key then some v else get_field rest key

-- fields[key] = value
unfoldable pub set_field : Fields → String → Json → Fields
set_field end key value = field key value end
set_field (field k v rest) key value =
    let later = field k v (set_field rest key value) in
    if k == key then field key value rest else later

-- {**fields, **extra}
unfoldable pub merge : Fields → Fields → Fields
merge fields end = fields
merge fields (field k v rest) = merge (set_field fields k v) rest
