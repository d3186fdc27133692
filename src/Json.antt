-- ===== src/Json.antt =====
-- `serde_json::Value` as the source uses it: bodies of jobs and the canonical key order of
-- `sorted` in crates/nomiso-store/src/surreal_store.rs.
use nomiso.Prelude.{Bool, true, false, if◌then◌else◌}
use nomiso.Prelude.Text.{Text, text_leb}

mutual
  -- A number is kept as its text.
  pub data Json : Type 0 where
    null : Json
    bool : Bool → Json
    number : Text → Json
    string : Text → Json
    array : Items → Json
    object : Fields → Json

  pub data Items : Type 0 where
    nil : Items
    cons : Json → Items → Items

  -- The entries of a map, in its order of iteration.
  pub data Fields : Type 0 where
    end : Fields
    field : Text → Json → Fields → Fields

unfoldable pub is_object : Json → Bool
is_object (object fields) = true
is_object _ = false

-- `entries.sort_by(|a, b| a.0.cmp(&b.0))`
insert_field : Text → Json → Fields → Fields
insert_field key value end = field key value end
insert_field key value (field k v rest) =
    if text_leb key k
    then field key value (field k v rest)
    else field k v (insert_field key value rest)

unfoldable mutual
  unfolding insert_field

  pub sorted : Json → Json
  sorted null = null
  sorted (bool b) = bool b
  sorted (number n) = number n
  sorted (string s) = string s
  sorted (array items) = array (sorted_items items)
  sorted (object fields) = object (sorted_fields fields)

  pub sorted_items : Items → Items
  sorted_items nil = nil
  sorted_items (cons value rest) = cons (sorted value) (sorted_items rest)

  pub sorted_fields : Fields → Fields
  sorted_fields end = end
  sorted_fields (field key value rest) = insert_field key (sorted value) (sorted_fields rest)
