-- ===== src/Templates.antt =====
-- ddb/utils/file.py, class `TemplateFinder`: the target of a template's source. `os.path.splitext`, and the
-- patterns that filter a source, are parameters.
pub mod Priority
mod Samples
use Prim.Native.String.{◌++◌ as append, len, slice}
use text.Mathlib.Text.{starts_with}
use docker_devbox_ddb.Prelude.{
  ℕ, zero, suc, ◌-◌, String, Bool, true, false, not, ◌&&◌, ◌||◌, Option, none, some, List, [], ◌∷◌,
  contains, ◌==◌, if◌then◌else◌, leb, eq_string,
}
use docker_devbox_ddb.Dict.{Dict, lookup, has_key}
use docker_devbox_ddb.Bootstrap.{ends_with}

pub record Finder : Type 0 where
  pub suffixes : List String
  pub skip_processed_sources : Bool
  pub skip_processed_targets : Bool

-- `list.index(x)` of an `x` that is in the list
unfoldable pub index : List String → String → ℕ
index [] x = zero
index (y ∷ ys) x = let rest = index ys x in if y == x then zero else suc rest

-- The loop over the suffixes of `_get_target_and_suffix`
unfoldable pub try_suffixes : String → String → String → List String → Option (String × String)
try_suffixes candidate basename ext [] = none
try_suffixes candidate basename ext (suffix ∷ suffixes) =
    if ends_with basename suffix
    then some (append (slice candidate 0 (len basename - len suffix)) ext, suffix)
    else try_suffixes candidate basename ext suffixes

-- `_get_target_and_suffix`, on what `os.path.splitext` gives; a name that is all extension is taken as
-- an extension.
unfoldable pub target_of_parts : String → String → String → List String → Option (String × String)
unfolding try_suffixes
target_of_parts candidate basename ext suffixes =
    if contains suffixes ext
    then some (basename, ext)
    else if ext == "" && starts_with basename "."
    then try_suffixes candidate "" basename suffixes
    else try_suffixes candidate basename ext suffixes

-- `previous_suffix not in self.suffixes or index(previous_suffix) <= index(suffix)`
abbrev pub keeps_previous : List String → String → Option (String × String) → Bool
keeps_previous suffixes suffix none = true
keeps_previous suffixes suffix (some (_, previous)) =
    not (contains suffixes previous) || leb (index suffixes previous) (index suffixes suffix)

module _ (splitext : String → String × String) (is_source_filtered : String → Bool) where
  unfoldable pub get_target_and_suffix : String → List String → Option (String × String)
  unfolding target_of_parts
  get_target_and_suffix candidate suffixes =
      target_of_parts candidate (splitext candidate).0 (splitext candidate).1 suffixes

  -- The test of an earlier source of the same target
  abbrev pub is_taken : Finder → String → Option String → Bool
  is_taken finder suffix none = false
  is_taken finder suffix (some previous) =
      keeps_previous finder.suffixes suffix (get_target_and_suffix previous finder.suffixes)

  abbrev pub free_target : Finder → Dict String → Option (String × String) → Option String
  free_target finder processed_targets none = none
  free_target finder processed_targets (some (target, suffix)) =
      if finder.skip_processed_targets && is_taken finder suffix (lookup target processed_targets)
      then none
      else some target

  -- `get_target(source, check)`, with the context's two dictionaries
  unfoldable pub get_target : Finder → Dict String → Dict String → Bool → String → Option String
  unfolding get_target_and_suffix
  get_target finder processed_sources processed_targets check source =
      if check && is_source_filtered source
      then none
      else if finder.skip_processed_sources && has_key source processed_sources
      then none
      else free_target finder processed_targets (get_target_and_suffix source finder.suffixes)
