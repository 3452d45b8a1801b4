-- ===== src/Config/Search.antt =====
-- ddb/config/config.py: which files the configuration is read from. The operating system's paths are
-- a parameter; a path has finitely many proper ancestors.
pub mod Nearest
mod Samples
use Prim.Native.String.{◌++◌}
use docker_devbox_ddb.Prelude.{
  ℕ, zero, suc, ◌<◌, String, Bool, true, false, ◌&&◌, Option, none, some, List, [], ◌∷◌, ◌==◌,
  if◌then◌else◌, is_some, ◌≡◌, ◌⊎◌,
}

pub record FilePaths : Type 0 where
  pub join : String → String → String
  pub parent : String → String
  pub abspath : String → String
  pub ends_with : String → String → Bool
  pub depth : String → ℕ
  pub parent_depth : (p : String) → (parent p ≡ p) ⊎ (depth (parent p) < depth p)

pub record ConfigPaths : Type 0 where
  pub ddb_home : String
  pub home : String
  pub project_home : String

module _ (paths : FilePaths) (exists : String → Bool) where
  -- The inner loop of `configuration_file`
  unfoldable pub try_extensions : String → String → List String → Option String
  try_extensions path basename [] = none
  try_extensions path basename (ext ∷ extensions) =
      if exists (paths.join path (basename ++ ("." ++ ext)))
      then some (paths.join path (basename ++ ("." ++ ext)))
      else try_extensions path basename extensions

  abbrev pub or_else : Option String → Option String → Option String
  or_else none o = o
  or_else (some f) o = some f

  unfoldable pub try_filenames : String → List String → List String → Option String
  unfolding try_extensions
  try_filenames path [] extensions = none
  try_filenames path (basename ∷ filenames) extensions =
      or_else (try_extensions path basename extensions) (try_filenames path filenames extensions)

  unfoldable pub configuration_file : String → List String → List String → Option String
  unfolding try_filenames
  configuration_file path filenames extensions =
      if path == "" then none else try_filenames path filenames extensions

  -- `self.files`, for one of the paths
  unfoldable pub files_of : String → String → List String → List String
  files_of path basename [] = []
  files_of path basename (ext ∷ extensions) =
      (if paths.ends_with basename ("." ++ ext) && exists (paths.join path basename)
        then paths.join path basename
        else paths.join path (basename ++ ("." ++ ext)))
      ∷ files_of path basename extensions

  module _ (filenames extensions : List String) where
    abbrev pub has_file : String → Bool
    has_file path = is_some (configuration_file path filenames extensions)

    -- The `while` loop of `get_default_config_paths`, from a candidate; `none` means that the fuel
    -- ran out.
    unfoldable pub search_from : ℕ → String → String → Option String
    search_from zero cwd candidate = none
    search_from (suc fuel) cwd candidate =
        let rest = search_from fuel cwd (paths.parent candidate) in
        if has_file candidate
        then some candidate
        else if paths.parent candidate == candidate
        then some cwd
        else rest

    abbrev pub given_or : Option String → String → String
    given_or none default = default
    given_or (some given) default = given

    abbrev pub given_text : Option String → Option String
    given_text none = none
    given_text (some given) = if given == "" then none else some given

    abbrev pub found_or : Option String → String → String
    found_or none default = default
    found_or (some found) default = found

    -- `project_home` before `abspath`: the variable's value, or the search's
    abbrev pub project_home_of : Option String → String → String
    project_home_of none cwd = found_or (search_from (suc (paths.depth cwd)) cwd cwd) cwd
    project_home_of (some given) cwd = given

    unfoldable pub get_default_config_paths :
        (String → Option String) → String → String → String → ConfigPaths
    unfolding search_from
    get_default_config_paths environ env_prefix cwd user_home =
        let home =
          given_or (environ (env_prefix ++ "_HOME")) (paths.join user_home ".docker-devbox") in
        record {
          ddb_home = given_or (environ (env_prefix ++ "_DDB_HOME")) (paths.join home "ddb");
          home = home;
          project_home =
              paths.abspath
                (project_home_of (given_text (environ (env_prefix ++ "_PROJECT_HOME"))) cwd);
        }
