-- ===== src/Config/Environ/Paths.antt =====
-- ddb/config/config.py, `Config.apply_environ_overrides`: which variable replaces which value.
use docker_devbox_ddb.Prelude.{
  ℕ, suc, String, ◌≡◌, refl, sym, ap, ◌∙◌, Bool, true, false, Option, none, some, ◌==◌, eq_iff,
  if◌then◌else◌, Bool-cases, inl, inr,
}
use mathlib.Core.Path.{ap₂}
use docker_devbox_ddb.Config.Value.{
  Value, Items, Fields, bool, int, str, list, dict, nil, cons, end, field, truthy, find_field, pos,
}
use docker_devbox_ddb.Config.Environ.{
  TextCase, set_value, parse_value, override, apply, apply_items, apply_fields,
  apply_environ_overrides, field_prefix, item_prefix,
}

abbrev pub map_value : (Value → Value) → Option Value → Option Value
map_value f none = none
map_value f (some v) = some (f v)

module _ (text : TextCase) where
  module _ (environ : String → Option String) where
    -- A field of a dictionary is what it was, under the variable of its own path: the variable of
    -- the dictionary itself is not set.
    pub find_field-apply_fields :
        (prefix : String) (fs : Fields) (name : String)
        → find_field name (apply_fields text environ prefix fs)
          ≡ map_value (apply text environ (field_prefix text prefix name)) (find_field name fs)
    unfolding find_field apply
    find_field-apply_fields prefix end name = refl
    find_field-apply_fields prefix (field j v fs) name = elim (Bool-cases (j == name)) [
      | inl here ↦ rw (here, (eq_iff j name).0 here) refl
      | inr other_name ↦ rw other_name (find_field-apply_fields prefix fs name)
    ]

    -- What is set in no variable is left as it is.
    module _ (unset : (name : String) → set_value environ name ≡ none) where
      mutual
        unfolding apply

        apply-unset : (v : Value) (prefix : String) → apply text environ prefix v ≡ v
        apply-unset (list xs) prefix =
            rw (unset (text.upper prefix)) (ap list (items-unset xs (text.upper prefix) 0))
        apply-unset (dict fs) prefix =
            rw (unset (text.upper prefix)) (ap dict (fields-unset fs (text.upper prefix)))
        apply-unset _ prefix = rw (unset (text.upper prefix))

        items-unset :
            (xs : Items) (prefix : String) (i : ℕ) → apply_items text environ prefix i xs ≡ xs
        items-unset nil prefix i = refl
        items-unset (cons x xs) prefix i =
            rw (unset (item_prefix text prefix i)) (ap (cons x) (items-unset xs prefix (suc i)))

        fields-unset : (fs : Fields) (prefix : String) → apply_fields text environ prefix fs ≡ fs
        fields-unset end prefix = refl
        fields-unset (field name v fs) prefix =
            ap₂ (field name) (apply-unset v (field_prefix text prefix name))
              (fields-unset fs prefix)

      -- Where no variable of the environment is set, to a text that is not empty, the overrides change nothing.
      pub apply_environ_overrides-unset :
          (default : String) (v : Value) (prefix : Option String)
          → apply_environ_overrides text environ default v prefix ≡ v
      unfolding apply_environ_overrides
      apply_environ_overrides-unset default v none = apply-unset v default
      apply_environ_overrides-unset default v (some prefix) = elim (Bool-cases (prefix == "")) [
        | inl empty ↦ rw empty (apply-unset v default)
        | inr given ↦ rw given (apply-unset v prefix)
      ]

  -- No text is `True`, or `False`, in lower case.
  lower-ne_capital :
      (s capital small : String)
      → text.lower capital ≡ small
      → (small == capital) ≡ false
      → (text.lower s == capital) ≡ false
  lower-ne_capital s capital small lowered differ = elim (Bool-cases (text.lower s == capital)) [
    | inl same ↦
        let e : text.lower s ≡ capital = (eq_iff (text.lower s) capital).0 same in
        let clash : small ≡ capital = sym lowered ∙ ap text.lower (sym e) ∙ text.lower_idem s ∙ e in
        cc (differ, (eq_iff small capital).1 clash)
    | inr other_text ↦ other_text
  ]

  -- The text of a variable is never read as a boolean: it is a number if its characters are digits,
  -- and else it stays a text.
  pub parse_value-ne-bool :
      (s : String)
      → parse_value text s ≡ (if text.is_digit s then int (pos (text.to_int s)) else str s)
  unfolding parse_value
  parse_value-ne-bool s =
      rw
        (
          lower-ne_capital s "True" "true" text.lower_true refl,
          lower-ne_capital s "False" "false" text.lower_false refl,
        )
        refl

  -- A boolean whose variable is set to a text that is not empty and not all digits becomes `True`,
  -- also by `false`.
  pub override-bool :
      (environ : String → Option String) (prefix s : String) (b : Bool)
      → set_value environ (text.upper prefix) ≡ some s
      → (s == "") ≡ false
      → text.is_digit s ≡ false
      → apply text environ prefix (bool b) ≡ bool true
  unfolding apply override truthy
  override-bool environ prefix s b given filled words =
      rw (given, parse_value-ne-bool s, words, filled) refl
