-- ===== src/Config/Environ/Samples.antt =====
-- Overrides of a small configuration, with the words of two booleans for a lower case.
use docker_devbox_ddb.Prelude.{
  String, ◌≡◌, refl, true, false, Option, none, some, ◌==◌, if◌then◌else◌, Bool-cases, inl, inr,
}
use docker_devbox_ddb.Config.Value.{
  Fields, bool, str, dict, end, field, find_field, truthy, is_bool,
}
use docker_devbox_ddb.Config.Environ.{
  TextCase, apply, apply_fields, apply_environ_overrides, field_prefix, parse_value, override,
}
use docker_devbox_ddb.Config.Environ.Paths.{map_value, find_field-apply_fields, override-bool}

lower : String → String
lower s = if s == "True" then "true" else if s == "False" then "false" else s

lower_idem : (s : String) → lower (lower s) ≡ lower s
unfolding lower
lower_idem s = elim (Bool-cases (s == "True")) [
  | inl yes_true ↦ rw yes_true
  | inr not_true ↦ elim (Bool-cases (s == "False")) [
    | inl yes_false ↦ rw (not_true, yes_false)
    | inr not_false ↦ rw (not_true, not_false) (rw (not_true, not_false) refl)
  ]
]

lower_words : (lower "True" ≡ "true") × (lower "False" ≡ "false")
unfolding lower
lower_words = (refl, refl)

words : TextCase
words = record {
  upper = λ s. s;
  lower = lower;
  is_digit = λ s. s == "0";
  to_int = λ s. 0;
  show = λ n. "0";
  lower_idem = lower_idem;
  lower_true = lower_words.0;
  lower_false = lower_words.1;
}

abbrev config : Fields
config = field "debug" (bool false) (field "name" (str "app") end)

abbrev environ : String → Option String
environ name = if name == "DDB_debug" then some "false" else none

debug_on :
    apply_environ_overrides words environ "DDB" (dict config) none
    ≡ dict (field "debug" (bool true) (field "name" (str "app") end))
unfolding apply_environ_overrides apply override parse_value truthy is_bool words lower
debug_on = refl

find_field-apply_fields_example :
    find_field "name" (apply_fields words environ "DDB" config)
    ≡ map_value (apply words environ (field_prefix words "DDB" "name")) (find_field "name" config)
find_field-apply_fields_example = find_field-apply_fields words environ "DDB" config "name"

override-bool_example : apply words environ "DDB_debug" (bool false) ≡ bool true
unfolding words
override-bool_example = override-bool words environ "DDB_debug" "false" false refl refl refl
