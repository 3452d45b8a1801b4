-- ===== src/Bootstrap.antt =====
-- ddb/feature/bootstrap.py: the features in the order of their dependencies. The topological sort of the
-- third-party `toposort` and the features of entry points are parameters. Python sets are lists without
-- doubles.
pub mod Order
mod Samples
use Prim.Native.String.{len, slice}
use docker_devbox_ddb.Prelude.{
  ◌-◌, String, Bool, true, false, not, ◌&&◌, Option, none, some, List, [], ◌∷◌, ◌++◌, map, select,
  contains, Result, ok, err, ◌>>=◌, ◌==◌, if◌then◌else◌, leb, eq_string,
}
use docker_devbox_ddb.Dict.{Dict, lookup, insert, lookup_or, has_key}

pub record Feature : Type 0 where
  pub name : String
  pub dependencies : List String

-- The `ValueError` of a feature and its missing dependency, and toposort's `CircularDependencyError`
pub data BootstrapError : Type 0 where
  missing : String → String → BootstrapError
  circular : BootstrapError

-- `text.endswith(suffix)`
abbrev pub ends_with : String → String → Bool
ends_with text suffix =
    leb (len suffix) (len text) && slice text (len text - len suffix) (len text) == suffix

-- `dependency_item.endswith('[optional]')`
unfoldable pub is_optional : String → Bool
is_optional item = ends_with item "[optional]"

-- The item without its `[optional]`
unfoldable pub dependency_name : String → String
unfolding is_optional
dependency_name item = if is_optional item then slice item 0 (len item - len "[optional]") else item

-- `toposort_data[name]` and `required_dependencies[name]` of `_prepare_dependencies_data`
abbrev pub dependencies_of : Feature → List String
dependencies_of f = map dependency_name f.dependencies

abbrev pub required_of : Feature → List String
required_of f = select (λ item. not (is_optional item)) f.dependencies

unfoldable pub map_values {ℓ} : {A B : Type ℓ} → (A → B) → Dict A → Dict B
map_values f [] = []
map_values f ((k, a) ∷ d) = (k, f a) ∷ map_values f d

-- The inner loop of `_check_missing_dependencies`
unfoldable pub check_required :
    Dict Feature → String → List String → Result BootstrapError (Unit {0})
check_required features name [] = ok tt
check_required features name (item ∷ items) =
    if has_key item features then check_required features name items else err (missing name item)

-- `_check_missing_dependencies`
unfoldable pub check_missing_dependencies :
    Dict Feature → Dict (List String) → Result BootstrapError (Unit {0})
unfolding check_required
check_missing_dependencies features [] = ok tt
check_missing_dependencies features ((name, items) ∷ required) =
    check_required features name items >>= (λ _. check_missing_dependencies features required)

-- `toposort_data[feat].add(feat_dependency)`, for each of them, on a set that is made if it is missing
unfoldable pub add_each : List String → List String → List String
add_each [] set = set
add_each (d ∷ ds) set = add_each ds (if contains set d then set else (set ++ d ∷ []))

-- The loop over `config.data.get('dependencies')`
unfoldable pub add_configured : Dict (List String) → Dict (List String) → Dict (List String)
unfolding add_each
add_configured [] edges = edges
add_configured ((name, ds) ∷ configured) edges =
    add_configured configured (insert name (add_each ds (lookup_or name edges [])) edges)

-- `{f.name: f for f in available_features}`, and those of the entry points
unfoldable pub by_name : List Feature → Dict Feature → Dict Feature
by_name [] found = found
by_name (f ∷ features) found = by_name features (insert f.name f found)

abbrev pub keep_found : Option Feature → List Feature → List Feature
keep_found none fs = fs
keep_found (some f) fs = f ∷ fs

-- The features of the sorted names; a name that is no feature is passed over.
unfoldable pub features_of : Dict Feature → List String → List Feature
features_of features [] = []
features_of features (name ∷ names) = keep_found (lookup name features) (features_of features names)

abbrev pub sorted_features :
    Dict Feature → Option (List String) → Result BootstrapError (List Feature)
sorted_features features none = err circular
sorted_features features (some names) = ok (features_of features names)

-- `toposort_data`, with the configured dependencies
abbrev pub toposort_data : Dict Feature → Dict (List String) → Dict (List String)
toposort_data features configured = add_configured configured (map_values dependencies_of features)

-- `get_sorted_features`
unfoldable pub get_sorted_features :
    (Dict (List String) → Option (List String))
    → List Feature
    → Dict (List String)
    → Result BootstrapError (List Feature)
unfolding by_name check_missing_dependencies add_configured map_values
get_sorted_features toposort_flatten available configured =
    let features = by_name available [] in
    check_missing_dependencies features (map_values required_of features)
    >>= (λ _. sorted_features features (toposort_flatten (toposort_data features configured)))
