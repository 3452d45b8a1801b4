-- ===== src/Registry.antt =====
-- ddb/registry.py, class `Registry`: the objects of a kind by their unique name, in the order of
-- registration, with an optional cache behind them. The definitions; the children prove.
pub mod Validity
pub mod Laws
pub mod Mirror
pub mod Restart
pub mod History
mod Samples
use docker_devbox_ddb.Prelude.{
  String, ◌≡◌, Bool, true, false, not, ◌&&◌, ◌||◌, Option, none, some, List, [], ◌∷◌, ◌++◌, ◌==◌,
  Eq, remove?, Result, ok, err, if◌then◌else◌, ℕ,
}
use docker_devbox_ddb.Dict.{Dict, lookup, insert, remove, has_key}
use docker_devbox_ddb.Cache
use docker_devbox_ddb.Cache.{Cache, write_back, forget}

-- The `ValueError`s of registry.py, and the one of `list.remove`.
pub data RegistryError : Type 0 where
  no_name : RegistryError
  not_an_instance already_registered not_registered : String → RegistryError
  not_in_list : RegistryError

pub record Registry (A : Type 0) : Type 0 where
  pub objects : List A
  pub objects_dict : Dict A
  pub cache : Option (Cache A)

-- `Registry.__init__`
unfoldable pub new_registry : {A : Type 0} → Registry A
new_registry = record { objects = []; objects_dict = []; cache = none }

-- The class test `isinstance(obj, self._clazz)`, and `obj.name` for the objects that have one.
pub record ObjectClass (A : Type 0) : Type 0 where
  pub is_instance : A → Bool
  pub name_of : A → Option String

module _ {A : Type 0} ⦃e : Eq A⦄ where
  unfoldable pub register_impl : Registry A → String → A → Registry A × Result RegistryError A
  register_impl r name obj =
      if has_key name r.objects_dict then (r, err (already_registered name)) else (
        record {
          objects_dict = insert name obj r.objects_dict;
          objects = r.objects ++ obj ∷ [];
          cache = elim r.cache [ none ↦ none | some c ↦ some (write_back name obj c) ];
        },
        ok obj,
      )

  -- The name that is given, unless it is `None` or empty; else the object's own.
  abbrev pub effective_name : ObjectClass A → A → Option String → Option String
  effective_name clazz obj none = clazz.name_of obj
  effective_name clazz obj (some name) = if name == "" then clazz.name_of obj else some name

  abbrev pub register_as :
      ObjectClass A → Registry A → A → Option String → Registry A × Result RegistryError A
  register_as clazz r obj none = (r, err no_name)
  register_as clazz r obj (some name) =
      if clazz.is_instance obj then register_impl r name obj else (r, err (not_an_instance name))

  unfoldable pub register :
      ObjectClass A → Registry A → A → Option String → Registry A × Result RegistryError A
  register clazz r obj name = register_as clazz r obj (effective_name clazz obj name)

  -- The loop of `set_cache`: an exception of `register` ends it.
  unfoldable pub register_entries :
      ObjectClass A → Registry A → Dict A → Registry A × Result RegistryError (Unit {0})
  register_entries clazz r [] = (r, ok tt)
  register_entries clazz r ((key, value) ∷ entries) =
      let (r', outcome) = register clazz r value (some key) in
      elim outcome [ ok obj ↦ register_entries clazz r' entries | err x ↦ (r', err x) ]

  unfoldable pub set_cache :
      ObjectClass A → Registry A → Option (Cache A) → Registry A × Result RegistryError (Unit {0})
  unfolding register_entries
  set_cache clazz r none = (record r { cache = none }, ok tt)
  set_cache clazz r (some c) = register_entries clazz (record r { cache = some c }) c.entries

  unfoldable pub has : Registry A → String → Option A → Bool
  has r name none = has_key name r.objects_dict
  has r name (some obj) = elim (lookup name r.objects_dict) [ none ↦ false | some o ↦ e.beq o obj ]

  abbrev pub is_asked : A → Option A → Bool
  is_asked item none = true
  is_asked item (some obj) = e.beq item obj

  -- `some item` for `True`, where `callback(item)` has been called; `none` for `False`.
  unfoldable pub unregister_impl :
      Registry A → String → A → Option A → Registry A × Result RegistryError (Option A)
  unregister_impl r name item obj =
      if is_asked item obj
      then elim (remove? item r.objects) [
        | none ↦ (record r { objects_dict = remove name r.objects_dict }, err not_in_list)
        | some left ↦ (
          record {
            objects_dict = remove name r.objects_dict;
            objects = left;
            cache = elim r.cache [ none ↦ none | some c ↦ some (forget name c) ];
          },
          ok (some item),
        )
      ]
      else (r, ok none)

  unfoldable pub unregister :
      Registry A → String → Option A → Registry A × Result RegistryError (Option A)
  unfolding unregister_impl
  unregister r name obj = elim (lookup name r.objects_dict) [
    | none ↦ (r, err (not_registered name))
    | some item ↦ unregister_impl r name item obj
  ]

  unfoldable pub get : Registry A → String → Result RegistryError A
  get r name = elim (lookup name r.objects_dict) [
    | none ↦ err (not_registered name)
    | some obj ↦ ok obj
  ]

  unfoldable pub all : Registry A → List A
  all r = r.objects

  unfoldable pub clear : Registry A → Registry A
  clear r = record {
    objects = [];
    objects_dict = [];
    cache = elim r.cache [ none ↦ none | some c ↦ some (Cache.clear c) ];
  }

  -- The cache that was closed is handed out, to see what it keeps.
  unfoldable pub close : Registry A → Registry A × Option (Cache A)
  unfolding clear
  close r = (
    clear (record r { cache = none }),
    elim r.cache [ none ↦ none | some c ↦ some (Cache.flush c) ],
  )
