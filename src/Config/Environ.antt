-- ===== src/Config/Environ.antt =====
-- ddb/config/config.py, `Config.apply_environ_overrides`: values of the configuration replaced by
-- environment variables. Python's `str.upper`, `str.lower`, `str.isdigit`, `int` and `str` of a number are a
-- parameter.
pub mod Paths
mod Samples
use Prim.Native.String.{◌++◌}
use docker_devbox_ddb.Prelude.{
  ℕ, zero, suc, String, ◌≡◌, Bool, true, false, Option, none, some, ◌==◌, if◌then◌else◌, is_some,
}
use docker_devbox_ddb.Config.Value.{
  ℤ, pos, Value, Items, Fields, null, bool, int, str, other, list, dict, nil, cons, end, field,
  truthy, is_bool,
}

-- `True` in lower case is `true`, and a text in lower case is its own lower case.
pub record TextCase : Type 0 where
  pub upper : String → String
  pub lower : String → String
  pub is_digit : String → Bool
  pub to_int : String → ℕ
  pub show : ℕ → String
  pub lower_idem : (s : String) → lower (lower s) ≡ lower s
  pub lower_true : lower "True" ≡ "true"
  pub lower_false : lower "False" ≡ "false"

-- `os.environ.get(name)`, where an empty text is as good as `None`
abbrev pub set_value : (String → Option String) → String → Option String
set_value environ name = elim (environ name) [
  | none ↦ none
  | some s ↦ if s == "" then none else some s
]

module _ (text : TextCase) where
  open text use {upper, lower, is_digit, to_int, show}

  -- The text of a variable as a value
  unfoldable pub parse_value : String → Value
  parse_value s =
      if lower s == "True"
      then bool true
      else if lower s == "False"
      then bool false
      else if is_digit s
      then int (pos (to_int s))
      else str s

  unfoldable pub override : Value → String → Value
  unfolding truthy is_bool parse_value
  override value s = if is_bool value then bool (truthy (parse_value s)) else parse_value s

  abbrev pub field_prefix : String → String → String
  field_prefix prefix name = upper (prefix ++ ("_" ++ name))

  abbrev pub item_prefix : String → ℕ → String
  item_prefix prefix i = upper (prefix ++ ("[" ++ (show i ++ "]")))

  -- The value, or what the variable of its prefix says
  abbrev pub overridden : Option String → Value → Value → Value
  overridden none value inner = inner
  overridden (some s) value inner = override value s

  module _ (environ : String → Option String) where
    unfoldable mutual
      -- `apply_environ_overrides(data, prefix)` for a prefix that is given
      pub apply : String → Value → Value
      apply prefix (list xs) =
          overridden (set_value environ (upper prefix)) (list xs)
            (list (apply_items (upper prefix) 0 xs))
      apply prefix (dict fs) =
          overridden (set_value environ (upper prefix)) (dict fs)
            (dict (apply_fields (upper prefix) fs))
      apply prefix value = overridden (set_value environ (upper prefix)) value value

      pub apply_items : String → ℕ → Items → Items
      apply_items prefix i nil = nil
      apply_items prefix i (cons x xs) =
          cons
            (if is_some (set_value environ (item_prefix prefix i))
              then apply (item_prefix prefix i) x
              else x)
            (apply_items prefix (suc i) xs)

      pub apply_fields : String → Fields → Fields
      apply_fields prefix end = end
      apply_fields prefix (field name value fs) =
          field name (apply (field_prefix prefix name) value) (apply_fields prefix fs)

    -- `apply_environ_overrides(data, prefix)`: without a prefix, the configured one
    unfoldable pub apply_environ_overrides : String → Value → Option String → Value
    apply_environ_overrides env_override_prefix value none = apply env_override_prefix value
    apply_environ_overrides env_override_prefix value (some prefix) =
        if prefix == "" then apply env_override_prefix value else apply prefix value
