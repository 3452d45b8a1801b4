-- ===== src/Config/Merger/Wrapper.antt =====
-- ddb/config/merger.py, `clean_merge_value_dicts`: what is left of dictionaries with `merge` and `value`.
use mathlib.Core.Path.{ap₂}
use docker_devbox_ddb.Prelude.{true, false, ◌≡◌, refl, ap, Bool-cases, inl, inr}
use docker_devbox_ddb.Config.Value.{
  Value, Items, Fields, list, dict, nil, cons, end, field, find_field,
}
use docker_devbox_ddb.Config.Merger.{
  is_wrapper, wrapped, clean, clean_field, clean_items, clean_fields,
}

unfoldable mutual
  -- No wrapper is left where `clean_merge_value_dicts` looks.
  pub IsClean : Value → Type 0
  IsClean (dict fs) = AreCleanFields fs
  IsClean (list xs) = AreCleanItems xs
  IsClean v = Unit

  pub IsCleanField : Value → Type 0
  IsCleanField (dict fs) = is_wrapper fs ≡ false
  IsCleanField (list xs) = AreCleanItems xs
  IsCleanField v = Unit

  pub AreCleanItems : Items → Type 0
  AreCleanItems nil = Unit
  AreCleanItems (cons x xs) = IsClean x × AreCleanItems xs

  pub AreCleanFields : Fields → Type 0
  AreCleanFields end = Unit
  AreCleanFields (field k v fs) = IsCleanField v × AreCleanFields fs

unfoldable mutual
  unfolding IsClean

  -- The value of each wrapper needs no cleaning itself.
  pub IsOnce : Value → Type 0
  IsOnce (dict fs) = AreOnceFields fs
  IsOnce (list xs) = AreOnceItems xs
  IsOnce v = Unit

  pub IsOnceField : Value → Type 0
  IsOnceField (dict fs) = is_wrapper fs ≡ true → IsCleanField (wrapped (find_field "value" fs))
  IsOnceField (list xs) = AreOnceItems xs
  IsOnceField v = Unit

  pub AreOnceItems : Items → Type 0
  AreOnceItems nil = Unit
  AreOnceItems (cons x xs) = IsOnce x × AreOnceItems xs

  pub AreOnceFields : Fields → Type 0
  AreOnceFields end = Unit
  AreOnceFields (field k v fs) = IsOnceField v × AreOnceFields fs

mutual
  unfolding IsClean IsOnce clean

  clean_value : (v : Value) → IsOnce v → IsClean (clean v)
  clean_value (dict fs) o = clean_all_fields fs o
  clean_value (list xs) o = clean_all_items xs o
  clean_value _ o = tt

  clean_one_field : (v : Value) → IsOnceField v → IsCleanField (clean_field v)
  clean_one_field (dict fs) o = elim (Bool-cases (is_wrapper fs)) [
    | inl yes_wrapper ↦ rw yes_wrapper (o yes_wrapper)
    | inr other_dict ↦ rw other_dict other_dict
  ]
  clean_one_field (list xs) o = clean_all_items xs o
  clean_one_field _ o = tt

  clean_all_items : (xs : Items) → AreOnceItems xs → AreCleanItems (clean_items xs)
  clean_all_items nil o = tt
  clean_all_items (cons x xs) o = (clean_value x o.0, clean_all_items xs o.1)

  clean_all_fields : (fs : Fields) → AreOnceFields fs → AreCleanFields (clean_fields fs)
  clean_all_fields end o = tt
  clean_all_fields (field k v fs) o = (clean_one_field v o.0, clean_all_fields fs o.1)

-- Cleaning leaves no wrapper where it looks, if no wrapper holds another one.
pub clean-IsClean : (v : Value) → IsOnce v → IsClean (clean v)
clean-IsClean v o = clean_value v o

mutual
  unfolding IsClean clean

  keep_value : (v : Value) → IsClean v → clean v ≡ v
  keep_value (dict fs) c = ap dict (keep_fields fs c)
  keep_value (list xs) c = ap list (keep_items xs c)
  keep_value _ c = refl

  keep_field : (v : Value) → IsCleanField v → clean_field v ≡ v
  keep_field (dict fs) c = rw c
  keep_field (list xs) c = ap list (keep_items xs c)
  keep_field _ c = refl

  keep_items : (xs : Items) → AreCleanItems xs → clean_items xs ≡ xs
  keep_items nil c = refl
  keep_items (cons x xs) c = ap₂ cons (keep_value x c.0) (keep_items xs c.1)

  keep_fields : (fs : Fields) → AreCleanFields fs → clean_fields fs ≡ fs
  keep_fields end c = refl
  keep_fields (field k v fs) c = ap₂ (field k) (keep_field v c.0) (keep_fields fs c.1)

-- Where no wrapper holds another one, cleaning a second time changes nothing.
pub clean_idem : (v : Value) → IsOnce v → clean (clean v) ≡ clean v
clean_idem v o = keep_value (clean v) (clean-IsClean v o)
