-- ===== src/Removal.antt =====
-- ddb/cache/removal.py, class `RemovalCacheSupport`: which values of an earlier run are not set again. A
-- Python set is held by a list without doubles, and the generator of `get_removed` is run to its end.
pub mod Round
mod Samples
use docker_devbox_ddb.Prelude.{
  String, Bool, true, false, not, List, [], ◌∷◌, ◌++◌, map, Result, ok, err, Eq, contains, select,
  if◌then◌else◌, eq_string,
}
use docker_devbox_ddb.Dict.{Dict, lookup, insert, lookup_or}
use docker_devbox_ddb.Cache.{Cache, set}

-- `self.type = set` makes `defaultdict(set)`: a missing key stands for the empty set.
pub record RemovalCache (V : Type 0) : Type 0 where
  pub keys : List String
  pub cached : Dict (List V)
  pub previous : Dict (List V)
  pub current : Dict (List V)

-- The `ValueError` of a key that is not supported
pub data RemovalError : Type 0 where
  unsupported_key : String → RemovalError

module _ {V : Type 0} where
  unfoldable pub new_removal_cache : List String → RemovalCache V
  new_removal_cache keys = record { keys = keys; cached = []; previous = []; current = [] }

  -- `for key in self.keys: d[key] = f(key)`
  unfoldable pub fill : List String → (String → List V) → Dict (List V) → Dict (List V)
  fill [] f d = d
  fill (key ∷ keys) f d = fill keys f (insert key (f key) d)

  -- `prepare`
  unfoldable pub prepare : Cache (List V) → RemovalCache V → RemovalCache V
  unfolding fill
  prepare cache r = record r {
    cached = fill r.keys (λ key. lookup_or key cache.entries []) r.cached;
    previous = fill r.keys (λ key. lookup_or key cache.entries []) r.previous;
    current = fill r.keys (λ _. []) r.current;
  }

  -- `value_set.add(value)`
  unfoldable pub add : ⦃e : Eq V⦄ → List V → V → List V
  add values value = if contains values value then values else (values ++ value ∷ [])

  abbrev pub add_at : ⦃e : Eq V⦄ → String → V → Dict (List V) → Dict (List V)
  add_at key value d = insert key (add (lookup_or key d []) value) d

  -- `set_current_value`
  unfoldable pub set_current_value :
      ⦃e : Eq V⦄ → String → V → RemovalCache V → Result RemovalError (RemovalCache V)
  set_current_value key value r =
      if contains r.keys key
      then ok
          (record r { cached = add_at key value r.cached; current = add_at key value r.current })
      else err (unsupported_key key)

  -- `self.previous[key] - self.current[key]`
  unfoldable pub difference : ⦃e : Eq V⦄ → List V → List V → List V
  difference previous current = select (λ v. not (contains current v)) previous

  -- The loop of `get_removed`: what it yields, and the cache behind it
  unfoldable pub removed_of :
      ⦃e : Eq V⦄
      → Dict (List V)
      → Dict (List V)
      → List String
      → Cache (List V)
      → List (String × V) × Cache (List V)
  unfolding difference set
  removed_of previous current [] cache = ([], cache)
  removed_of previous current (key ∷ keys) cache =
      let rest = removed_of previous current keys (set key (lookup_or key current []) cache) in
      (
        map (λ v. (key, v)) (difference (lookup_or key previous []) (lookup_or key current []))
            ++ rest.0,
        rest.1,
      )

  unfoldable pub get_removed :
      ⦃e : Eq V⦄ → RemovalCache V → Cache (List V) → List (String × V) × Cache (List V)
  unfolding removed_of
  get_removed r cache = removed_of r.previous r.current r.keys cache
