-- ===== src/Config/Flatten/Leaves.antt =====
-- ddb/config/flatten.py: the dictionary that is built step by step holds the leaves of the
-- configuration, the last one where two have one path.
use docker_devbox_ddb.Prelude.{
  ℕ, suc, String, ◌≡◌, refl, sym, ap, ◌∙◌, ◌||◌, Option, none, some, ◌==◌, if◌then◌else◌, List, [],
  ◌∷◌, ◌++◌, Bool-cases, inl, inr,
}
use docker_devbox_ddb.Dict.{Dict, insert, lookup, lookup-insert}
use docker_devbox_ddb.Config.Value.{Value, Items, Fields, list, dict, nil, cons, end, field}
use docker_devbox_ddb.Config.Flatten.{
  Format, field_key, item_key, stops, is_kept, flatten_value, flatten_items, flatten_fields,
  flatten,
}

module _ {V : Type 0} where
  -- `output[key] = value` for each pair in turn
  unfoldable pub insert_all : List (String × V) → Dict V → Dict V
  insert_all [] output = output
  insert_all ((k, v) ∷ leaves) output = insert_all leaves (insert k v output)

  -- What the last pair of a key gives, or else `before`
  unfoldable pub last_of : String → List (String × V) → Option V → Option V
  last_of k [] before = before
  last_of k ((j, v) ∷ leaves) before = last_of k leaves (if j == k then some v else before)

  insert_all-append :
      (xs ys : List (String × V)) (output : Dict V)
      → insert_all (xs ++ ys) output ≡ insert_all ys (insert_all xs output)
  unfolding insert_all
  insert_all-append [] ys output = refl
  insert_all-append ((k, v) ∷ xs) ys output = insert_all-append xs ys (insert k v output)

  lookup-insert_all :
      (k : String) (leaves : List (String × V)) (output : Dict V)
      → lookup k (insert_all leaves output) ≡ last_of k leaves (lookup k output)
  unfolding insert_all last_of
  lookup-insert_all k [] output = refl
  lookup-insert_all k ((j, v) ∷ leaves) output =
      lookup-insert_all k leaves (insert j v output)
      ∙ ap (last_of k leaves) (lookup-insert j v output k)

module _ {V : Type 0} (format : Format V) where
  open format use {value_transformer}

  unfoldable mutual
    -- The values that are not taken apart, with their paths, in the order of the data
    pub leaves_of : String → Value → List (String × V)
    leaves_of prefix (dict fs) =
        if stops format prefix
        then (prefix, value_transformer (dict fs)) ∷ []
        else leaves_of_fields prefix fs
    leaves_of prefix (list xs) =
        if stops format prefix || is_kept format xs
        then (prefix, value_transformer (list xs)) ∷ []
        else leaves_of_items prefix 0 xs
    leaves_of prefix value = (prefix, value_transformer value) ∷ []

    pub leaves_of_items : String → ℕ → Items → List (String × V)
    leaves_of_items prefix i nil = []
    leaves_of_items prefix i (cons x xs) =
        leaves_of (item_key format prefix i) x ++ leaves_of_items prefix (suc i) xs

    pub leaves_of_fields : String → Fields → List (String × V)
    leaves_of_fields prefix end = []
    leaves_of_fields prefix (field name value fs) =
        leaves_of (field_key format prefix name) value ++ leaves_of_fields prefix fs

  mutual
    unfolding flatten_value leaves_of insert_all

    value-eq-leaves :
        (value : Value) (prefix : String) (output : Dict V)
        → flatten_value format prefix value output ≡ insert_all (leaves_of prefix value) output
    value-eq-leaves (dict fs) prefix output = elim (Bool-cases (stops format prefix)) [
      | inl stop ↦ rw stop
      | inr go ↦ rw go (fields-eq-leaves fs prefix output)
    ]
    value-eq-leaves (list xs) prefix output =
        elim (Bool-cases (stops format prefix || is_kept format xs)) [
          | inl stop ↦ rw stop
          | inr go ↦ rw go (items-eq-leaves xs prefix 0 output)
        ]
    value-eq-leaves _ prefix output = refl

    items-eq-leaves :
        (xs : Items) (prefix : String) (i : ℕ) (output : Dict V)
        → flatten_items format prefix i xs output ≡ insert_all (leaves_of_items prefix i xs) output
    items-eq-leaves nil prefix i output = refl
    items-eq-leaves (cons x xs) prefix i output =
        items-eq-leaves xs prefix (suc i) (flatten_value format (item_key format prefix i) x output)
        ∙ ap (insert_all (leaves_of_items prefix (suc i) xs))
            (value-eq-leaves x (item_key format prefix i) output)
        ∙ sym (
            insert_all-append (leaves_of (item_key format prefix i) x)
              (leaves_of_items prefix (suc i) xs) output)

    fields-eq-leaves :
        (fs : Fields) (prefix : String) (output : Dict V)
        → flatten_fields format prefix fs output ≡ insert_all (leaves_of_fields prefix fs) output
    fields-eq-leaves end prefix output = refl
    fields-eq-leaves (field name value fs) prefix output =
        fields-eq-leaves fs prefix
          (flatten_value format (field_key format prefix name) value output)
        ∙ ap (insert_all (leaves_of_fields prefix fs))
            (value-eq-leaves value (field_key format prefix name) output)
        ∙ sym (
            insert_all-append (leaves_of (field_key format prefix name) value)
              (leaves_of_fields prefix fs) output)

  -- The value of a path in the flat dictionary is the last leaf of that path; a path that no leaf
  -- has is not in it.
  pub lookup-flatten :
      (prefix : String) (fs : Fields) (k : String)
      → lookup k (flatten format (some prefix) fs) ≡ last_of k (leaves_of prefix (dict fs)) none
  unfolding flatten lookup
  lookup-flatten prefix fs k =
      ap (lookup k) (value-eq-leaves (dict fs) prefix [])
      ∙ lookup-insert_all k (leaves_of prefix (dict fs)) []
