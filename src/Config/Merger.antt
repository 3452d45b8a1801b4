-- ===== src/Config/Merger.antt =====
-- ddb/config/merger.py: the list strategies that ddb adds to deepmerge, the strategy for values that
-- say how to be merged, and the removal of such wrappers. deepmerge's own strategies and Python's `==` on
-- values are parameters.
pub mod Insert
pub mod Wrapper
mod Samples
use docker_devbox_ddb.Prelude.{
  ℕ, zero, suc, ◌-◌, ◌+◌, String, Bool, true, false, not, ◌&&◌, ◌||◌, Option, none, some, List, [],
  ◌∷◌, ◌++◌, ◌==◌, if◌then◌else◌, length, Result, ok, err, select, reverse,
}
use docker_devbox_ddb.Config.Value.{
  ℤ, pos, negsuc, Value, Items, Fields, null, bool, int, str, other, list, dict, nil, cons, end,
  field, find_field, has_field,
}

-- `ValueError` of a strategy name that deepmerge does not know, `IndexError` of `nxt.pop(0)`, and
-- `TypeError` of an index that is no integer
pub data MergeError : Type 0 where
  unknown_strategy : String → MergeError
  no_index not_an_index : MergeError

-- The index at which `list.insert(idx, item)` puts the item
unfoldable pub position {ℓ} : {A : Type ℓ} → ℤ → List A → ℕ
position (pos n) base = n
position (negsuc n) base = length base - suc n

unfoldable pub insert_at {ℓ} : {A : Type ℓ} → ℕ → A → List A → List A
insert_at n x [] = x ∷ []
insert_at zero x (y ∷ ys) = x ∷ y ∷ ys
insert_at (suc n) x (y ∷ ys) = y ∷ insert_at n x ys

-- `for item in nxt: ret.insert(idx, item)`
unfoldable pub insert_each {ℓ} : {A : Type ℓ} → ℤ → List A → List A → List A
insert_each idx [] ret = ret
insert_each idx (x ∷ nxt) ret = insert_each idx nxt (insert_at (position idx ret) x ret)

-- The rest of `strategy_insert`, behind `idx = nxt.pop(0)`
unfoldable pub insert_from {ℓ} : {A : Type ℓ} → ℤ → List A → List A → List A
unfolding position insert_at insert_each
insert_from (pos n) nxt base = insert_each (pos n) (reverse nxt) base
insert_from (negsuc n) nxt base = insert_each (negsuc n) nxt base

abbrev pub items_list : Items → List Value
items_list nil = []
items_list (cons x xs) = x ∷ items_list xs

abbrev pub list_items : List Value → Items
list_items [] = nil
list_items (x ∷ xs) = cons x (list_items xs)

module _ (same : Value → Value → Bool) where
  unfoldable pub is_in : List Value → Value → Bool
  is_in [] x = false
  is_in (y ∷ ys) x = same y x || is_in ys x

  -- `[item for item in nxt if item not in base]`
  unfoldable pub missing : List Value → List Value → List Value
  unfolding is_in
  missing base nxt = select (λ x. not (is_in base x)) nxt

  -- The four strategies, over deepmerge's `append` and `prepend`
  pub record ListStrategies : Type 0 where
    pub append : List Value → List Value → List Value
    pub prepend : List Value → List Value → List Value
    pub named : String → Option (List Value → List Value → List Value)

  abbrev pub with_index :
      (ℤ → List Value → List Value) → List Value → Result MergeError (List Value)
  with_index f [] = err no_index
  with_index f (int idx ∷ nxt) = ok (f idx nxt)
  with_index f (bool b ∷ nxt) = ok (f (pos (if b then 1 else 0)) nxt)
  with_index f (x ∷ nxt) = err not_an_index

  unfoldable pub append_if_missing : ListStrategies → List Value → List Value → List Value
  unfolding missing
  append_if_missing lib base nxt = lib.append base (missing base nxt)

  unfoldable pub prepend_if_missing : ListStrategies → List Value → List Value → List Value
  unfolding missing
  prepend_if_missing lib base nxt = lib.prepend base (missing base nxt)

  unfoldable pub insert_strategy : List Value → List Value → Result MergeError (List Value)
  insert_strategy base nxt = with_index (λ idx rest. insert_from idx rest base) nxt

  unfoldable pub insert_if_missing : List Value → List Value → Result MergeError (List Value)
  unfolding missing
  insert_if_missing base nxt = with_index (λ idx rest. insert_from idx (missing base rest) base) nxt

  abbrev pub library_strategy :
      Option (List Value → List Value → List Value)
      → String
      → List Value
      → List Value
      → Result MergeError (List Value)
  library_strategy none name base nxt = err (unknown_strategy name)
  library_strategy (some f) name base nxt = ok (f base nxt)

  -- `ExtendedListStrategies._expand_strategy(name)`, at its arguments
  unfoldable pub expand_list :
      ListStrategies → String → List Value → List Value → Result MergeError (List Value)
  expand_list lib name base nxt =
      if name == "append_if_missing"
      then ok (append_if_missing lib base nxt)
      else if name == "prepend_if_missing"
      then ok (prepend_if_missing lib base nxt)
      else if name == "insert_if_missing"
      then insert_if_missing base nxt
      else if name == "insert"
      then insert_strategy base nxt
      else library_strategy (lib.named name) name base nxt

-- `isinstance(value, dict) and 'merge' in value and 'value' in value`
abbrev pub is_wrapper : Fields → Bool
is_wrapper fs = has_field "merge" fs && has_field "value" fs

abbrev pub wrapped : Option Value → Value
wrapped none = null
wrapped (some v) = v

-- deepmerge's `strategy_override` for conflicts, and its dictionary strategies by name
pub record DictStrategies : Type 0 where
  pub override : Value → Value → Value
  pub named_dict : String → Option (Fields → Fields → Fields)

abbrev pub apply_dict :
    Option (Fields → Fields → Fields) → String → Fields → Fields → Result MergeError Value
apply_dict none name base nxt = err (unknown_strategy name)
apply_dict (some f) name base nxt = ok (dict (f base nxt))

abbrev pub as_list : Result MergeError (List Value) → Result MergeError Value
as_list (ok xs) = ok (list (list_items xs))
as_list (err x) = err x

module _ (same : Value → Value → Bool) (lists : ListStrategies same) (dicts : DictStrategies) where
  -- The tests inside `'merge' in nxt and 'value' in nxt`, on `merge`, `value` and `base`
  unfoldable pub merge_wrapped : Value → Value → Value → Fields → Result MergeError Value
  unfolding expand_list
  merge_wrapped (str name) (list value) (list base) nxt =
      as_list (expand_list same lists name (items_list base) (items_list value))
  merge_wrapped (str name) (dict value) (dict base) nxt =
      apply_dict (dicts.named_dict name) name base value
  merge_wrapped merge value base nxt = ok (dicts.override base (dict nxt))

  -- `_type_conflict_strategy`
  unfoldable pub type_conflict_strategy : Value → Value → Result MergeError Value
  unfolding merge_wrapped
  type_conflict_strategy base (dict nxt) =
      if is_wrapper nxt
      then merge_wrapped (wrapped (find_field "merge" nxt)) (wrapped (find_field "value" nxt)) base
          nxt
      else ok (dicts.override base (dict nxt))
  type_conflict_strategy base nxt = ok (dicts.override base nxt)

unfoldable mutual
  -- `clean_merge_value_dicts(result)`
  pub clean : Value → Value
  clean (dict fs) = dict (clean_fields fs)
  clean (list xs) = list (clean_items xs)
  clean v = v

  -- What a field of a dictionary becomes
  pub clean_field : Value → Value
  clean_field (dict fs) = if is_wrapper fs then wrapped (find_field "value" fs) else dict fs
  clean_field (list xs) = list (clean_items xs)
  clean_field v = v

  pub clean_items : Items → Items
  clean_items nil = nil
  clean_items (cons x xs) = cons (clean x) (clean_items xs)

  pub clean_fields : Fields → Fields
  clean_fields end = end
  clean_fields (field k v fs) = field k (clean_field v) (clean_fields fs)
