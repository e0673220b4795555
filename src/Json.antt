-- ===== src/Json.antt =====
-- `serde_json::Value`: the values that requests, responses and credential metadata are made of.
-- A number is an unsigned integer, a negative one (`nint n` is -(n + 1)) or a float, by its bits.
use skyport.Prelude.{ℕ, Bool, Option, none, some, if◌then◌else◌, Text, text_eq}

mutual
  pub data Json : Type 0 where
    null : Json
    bool : Bool → Json
    uint : ℕ → Json
    nint : ℕ → Json
    float : ℕ → Json
    str : Text → Json
    arr : Items → Json
    obj : Fields → Json

  pub data Items : Type 0 where
    nil : Items
    cons : Json → Items → Items

  pub data Fields : Type 0 where
    end : Fields
    field : Text → Json → Fields → Fields

unfoldable pub get_field : Text → Fields → Option Json
get_field k end = none
get_field k (field j v fs) = let rest = get_field k fs in if text_eq j k then some v else rest

-- `Value::get` at a text
unfoldable pub get : Text → Json → Option Json
unfolding get_field
get k (obj fs) = get_field k fs
get k _ = none

unfoldable pub as_u64 : Json → Option ℕ
as_u64 (uint n) = some n
as_u64 _ = none

unfoldable pub as_str : Json → Option Text
as_str (str s) = some s
as_str _ = none

unfoldable pub set_field : Text → Json → Fields → Fields
set_field k v end = field k v end
set_field k v (field j w fs) =
    let rest = set_field k v fs in if text_eq j k then field k v fs else field j w rest

-- `value[key] = v` on an object; on any other value but `null` the source's indexing panics, and
-- `null` becomes an object.
unfoldable pub set_key : Text → Json → Json → Option Json
unfolding set_field
set_key k v (obj fs) = some (obj (set_field k v fs))
set_key k v null = some (obj (field k v end))
set_key k v _ = none
