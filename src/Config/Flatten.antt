-- ===== src/Config/Flatten.antt =====
-- ddb/config/flatten.py: the configuration as one dictionary from paths to values.
pub mod Leaves
mod Samples
use Prim.Native.String.{◌++◌}
use docker_devbox_ddb.Prelude.{
  ℕ, zero, suc, String, ◌≡◌, Bool, true, false, not, ◌&&◌, ◌||◌, Option, none, some, ◌==◌,
  if◌then◌else◌, is_some, List, [], contains, eq_string,
}
use docker_devbox_ddb.Dict.{Dict, insert}
use docker_devbox_ddb.Config.Value.{
  Value, Items, Fields, null, bool, int, str, other, list, dict, nil, cons, end, field,
}

-- The arguments that `_flatten` passes down unchanged. `index_text i` is `array_index_format % str(i)`.
pub record Format (V : Type 0) : Type 0 where
  pub sep : String
  pub index_text : ℕ → String
  pub key_transformer : String → String
  pub value_transformer : Value → V
  pub keep_primitive_list : Bool
  pub stop_for : List String

-- The types `int`, `float`, `bool` and `str`
unfoldable pub is_primitive : Value → Bool
is_primitive null = false
is_primitive (list xs) = false
is_primitive (dict fs) = false
is_primitive (other s) = false
is_primitive _ = true

-- `not data or not set(filter(lambda x: x not in (int, float, bool, str), set(map(type, data))))`
unfoldable pub all_primitive : Items → Bool
all_primitive nil = true
all_primitive (cons x xs) = is_primitive x && all_primitive xs

module _ {V : Type 0} (format : Format V) where
  open format use {
    sep, index_text, key_transformer, value_transformer, keep_primitive_list, stop_for,
  }

  abbrev pub field_key : String → String → String
  field_key prefix name =
      key_transformer ((if prefix == "" then "" else (prefix ++ sep)) ++ key_transformer name)

  abbrev pub item_key : String → ℕ → String
  item_key prefix i = key_transformer (prefix ++ index_text i)

  abbrev pub stops : String → Bool
  stops prefix = contains stop_for prefix

  abbrev pub is_kept : Items → Bool
  is_kept xs = keep_primitive_list && all_primitive xs

  unfoldable mutual
    -- `_flatten` at the prefix and the data, which writes to `output`
    pub flatten_value : String → Value → Dict V → Dict V
    flatten_value prefix (dict fs) output =
        if stops prefix
        then insert prefix (value_transformer (dict fs)) output
        else flatten_fields prefix fs output
    flatten_value prefix (list xs) output =
        if stops prefix || is_kept xs
        then insert prefix (value_transformer (list xs)) output
        else flatten_items prefix 0 xs output
    flatten_value prefix value output = insert prefix (value_transformer value) output

    pub flatten_items : String → ℕ → Items → Dict V → Dict V
    flatten_items prefix i nil output = output
    flatten_items prefix i (cons x xs) output =
        flatten_items prefix (suc i) xs (flatten_value (item_key prefix i) x output)

    pub flatten_fields : String → Fields → Dict V → Dict V
    flatten_fields prefix end output = output
    flatten_fields prefix (field name value fs) output =
        flatten_fields prefix fs (flatten_value (field_key prefix name) value output)

  -- `_flatten(prefix, …, data=dict(data))`: without a prefix, the empty one; a new output
  unfoldable pub flatten : Option String → Fields → Dict V
  flatten none fs = flatten_value "" (dict fs) []
  flatten (some prefix) fs = flatten_value prefix (dict fs) []

-- `to_environ`, over `str.upper(x).replace('-', '_')` and `str`
unfoldable pub to_environ :
    (String → String) → (Value → String) → (ℕ → String) → String → Fields → Dict String
unfolding flatten
to_environ upper_key to_text show env_prefix fs =
    flatten
      (record {
        sep = "_";
        index_text = λ i. "_" ++ (show i ++ "_");
        key_transformer = upper_key;
        value_transformer = to_text;
        keep_primitive_list = false;
        stop_for = [];
      })
      (some env_prefix) fs
