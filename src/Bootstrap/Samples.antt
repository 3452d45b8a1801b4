-- ===== src/Bootstrap/Samples.antt =====
-- Two features, of which the first depends on the second by an optional dependency.
use mathlib.Core.Path.{ap₂}
use docker_devbox_ddb.Prelude.{
  String, true, false, Option, some, List, [], ◌∷◌, contains, select, ok, err, ◌==◌, ◌≡◌, ◌≢◌, refl,
  sym, ap, ◌∙◌, ◌||◌, Bool-cases, inl, inr, eq_iff, arith, eq_string,
}
use docker_devbox_ddb.Dict.{Dict, lookup, insert, has_key}
use docker_devbox_ddb.Bootstrap.{
  Feature, is_optional, dependency_name, by_name, toposort_data, add_configured, map_values,
  get_sorted_features, features_of, check_missing_dependencies, check_required, missing,
}
use docker_devbox_ddb.Bootstrap.Order.{IsBefore, get_sorted_features-IsBefore}

abbrev jinja : Feature
jinja = record { name = "jinja"; dependencies = "file[optional]" ∷ [] }

abbrev file_feature : Feature
file_feature = record { name = "file"; dependencies = [] }

abbrev broken : Feature
broken = record { name = "broken"; dependencies = "core" ∷ [] }

abbrev in_sample_order : Dict (List String) → Option (List String)
in_sample_order edges = some ("file" ∷ "jinja" ∷ [])

abbrev sample_edges : Dict (List String)
sample_edges = ("jinja", "file" ∷ []) ∷ ("file", []) ∷ []

sample_toposort_data : toposort_data (by_name (jinja ∷ file_feature ∷ []) []) [] ≡ sample_edges
unfolding by_name insert add_configured map_values dependency_name is_optional
sample_toposort_data = refl

sample_sorted :
    get_sorted_features in_sample_order (jinja ∷ file_feature ∷ []) []
    ≡ ok (file_feature ∷ jinja ∷ [])
unfolding get_sorted_features by_name insert add_configured map_values is_optional lookup
    features_of check_missing_dependencies check_required select
sample_sorted = refl

broken_feature :
    get_sorted_features in_sample_order (broken ∷ []) [] ≡ err (missing "broken" "core")
unfolding get_sorted_features by_name insert add_configured map_values is_optional lookup
    features_of check_missing_dependencies check_required select
broken_feature = refl

sample_edges-IsBefore :
    (names : List String) (k d : String) (ds : List String)
    → in_sample_order sample_edges ≡ some names
    → lookup k sample_edges ≡ some ds
    → contains ds d ≡ true
    → d ≢ k
    → IsBefore d k names
unfolding lookup contains
sample_edges-IsBefore names k d ds hn hk hd ne = elim (Bool-cases ("jinja" == k)) [
  | inl is_jinja ↦
      let at_jinja : "jinja" ≡ k = ground (arith, eq_iff "jinja" k) in
      let needs : ds ≡ "file" ∷ [] = ground (arith, eq_iff "jinja" k) in
      let is_file : ("file" == d || false) ≡ true =
        sym (ap (λ (l : List String). contains l d) needs) ∙ hd in
      let on_file : "file" ≡ d = ground (arith, eq_iff "file" d) in
      let sorted : names ≡ "file" ∷ "jinja" ∷ [] = ground arith in
      ([], [], [], sorted ∙ ap₂ (λ (x y : String). x ∷ y ∷ []) on_file at_jinja)
  | inr other ↦
      let needs : ds ≡ [] = ground arith in
      let held : false ≡ true = sym (ap (λ (l : List String). contains l d) needs) ∙ hd in
      absurd (ground arith)
]

sample_name : (dependency_name "file[optional]" ≡ "file")
unfolding dependency_name is_optional
sample_name = refl

found_jinja : lookup "jinja" (by_name (jinja ∷ file_feature ∷ []) []) ≡ some jinja
unfolding lookup by_name insert
found_jinja = refl

holds_file : contains {A = String} ("file[optional]" ∷ []) "file[optional]" ≡ true
unfolding contains
holds_file = refl

file_needs_nothing :
    (is_optional "file[optional]" ≡ true)
    × (lookup "file" (by_name (jinja ∷ file_feature ∷ []) []) ≡ some file_feature)
unfolding is_optional lookup by_name insert
file_needs_nothing = (refl, refl)

get_sorted_features-IsBefore_example :
    (is_optional "file[optional]" ≡ false
      → has_key "file[optional]" (by_name (jinja ∷ file_feature ∷ []) []) ≡ true)
    × (dependency_name "file[optional]" ≢ "jinja"
        → (g : Feature)
        → lookup (dependency_name "file[optional]") (by_name (jinja ∷ file_feature ∷ []) [])
          ≡ some g
        → IsBefore g jinja (file_feature ∷ jinja ∷ []))
unfolding add_configured map_values by_name insert dependency_name
get_sorted_features-IsBefore_example =
    get_sorted_features-IsBefore in_sample_order (jinja ∷ file_feature ∷ []) []
      (file_feature ∷ jinja ∷ []) sample_edges-IsBefore sample_sorted "jinja" "file[optional]" jinja
      found_jinja holds_file
