-- ===== src/Config/Value.antt =====
-- The data that a YAML file of the configuration gives: Python's `None`, booleans, integers, texts,
-- lists and dictionaries. A date is held by its text (`other`), and there are no floats.
use docker_devbox_ddb.Prelude.{
  ℕ, zero, String, ◌≡◌, refl, Bool, true, false, not, Option, none, some, ◌==◌, eq_iff, arith,
  if◌then◌else◌, is_some,
}

-- `negsuc n` is -(n + 1).
pub data ℤ : Type 0 where
  pos negsuc : ℕ → ℤ

mutual
  pub data Value : Type 0 where
    null : Value
    bool : Bool → Value
    int : ℤ → Value
    str other : String → Value
    list : Items → Value
    dict : Fields → Value

  pub data Items : Type 0 where
    nil : Items
    cons : Value → Items → Items

  pub data Fields : Type 0 where
    end : Fields
    field : String → Value → Fields → Fields

-- `bool(value)`
unfoldable pub truthy : Value → Bool
truthy null = false
truthy (bool b) = b
truthy (int (pos zero)) = false
truthy (int _) = true
truthy (str s) = not (s == "")
truthy (other s) = true
truthy (list nil) = false
truthy (list (cons x xs)) = true
truthy (dict end) = false
truthy (dict (field k v fs)) = true

unfoldable pub is_bool : Value → Bool
is_bool (bool b) = true
is_bool _ = false

-- `d.get(k)` and `k in d`
unfoldable pub find_field : String → Fields → Option Value
find_field k end = none
find_field k (field j v fs) = if j == k then some v else find_field k fs

abbrev pub has_field : String → Fields → Bool
has_field k fs = is_some (find_field k fs)

-- `d[k] = v`
unfoldable pub put_field : String → Value → Fields → Fields
put_field k v end = field k v end
put_field k v (field j w fs) = if j == k then field j v fs else field j w (put_field k v fs)

-- `d.pop(k)` of a key that is there
unfoldable pub drop_field : String → Fields → Fields
drop_field k end = end
drop_field k (field j w fs) = if j == k then fs else field j w (drop_field k fs)

pub find_field-put_field :
    (k : String) (v : Value) (fs : Fields) (j : String)
    → find_field j (put_field k v fs) ≡ (if k == j then some v else find_field j fs)
unfolding find_field put_field
find_field-put_field k v end j = refl
find_field-put_field k v (field i w fs) j =
    ground (arith, eq_iff k j, eq_iff i k, eq_iff i j, find_field-put_field k v fs j)
