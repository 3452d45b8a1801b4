-- ===== src/Shell/Environment.antt =====
-- ddb/feature/shell/actions.py: the environment that an activation script makes and a deactivation script
-- restores. A script is the list of its instructions on variables; the third-party difference of dictionaries,
-- the coding of the backup and the ignored variables are parameters.
pub mod Restored
mod Samples
use Prim.Native.String.{◌++◌ as append}
use docker_devbox_ddb.Prelude.{
  String, Bool, true, false, not, Option, none, some, List, [], ◌∷◌, ◌++◌, map, select, is_empty,
  ◌==◌, if◌then◌else◌, ◌≡◌, All,
}
use docker_devbox_ddb.Prelude.Sorting.{KeyOrder, sort_by}
use docker_devbox_ddb.Dict.{Dict, lookup, insert, remove, lookup_or}

-- `dictdiffer.diff`: what is added, changed and removed
pub data Difference : Type 0 where
  add : Dict String → Difference
  change : String → String → String → Difference
  removal : Dict String → Difference

-- What `set_environment_variable` and `remove_environment_variable` yield
pub data Instruction : Type 0 where
  set_variable : String → String → Instruction
  unset_variable : String → Instruction

-- A variable with its new value, `none` where it is removed
abbrev pub Variable : Type 0
Variable = String × Option String

abbrev pub added : Dict String → List Variable
added = map (λ (key, value). (key, some value))

abbrev pub removed : Dict String → List Variable
removed = map (λ (key, value). (key, none))

-- The loop over the difference
unfoldable pub variables_of : List Difference → List Variable
variables_of [] = []
variables_of (add items ∷ differences) = added items ++ variables_of differences
variables_of (change key old new ∷ differences) = (key, some new) ∷ variables_of differences
variables_of (removal items ∷ differences) = removed items ++ variables_of differences

pub record Shell : Type 0 where
  pub diff : Dict String → Dict String → List Difference
  pub text_order : KeyOrder String
  pub is_ignored : String → Bool
  pub sanitize_key : String → String
  pub encode : Dict String → String
  pub decode : String → Dict String
  pub before_environ_backup : Dict String → Dict String

-- The configuration: its variables, the prefix, the home, and the directories of the shims
pub record Project : Type 0 where
  pub config_environ : Dict String
  pub env_prefix : String
  pub project_home : String
  pub path_additions : List String
  pub prepend : Bool
  pub pathsep : String

-- What a script does to the variables of the shell
unfoldable pub evaluate : List Instruction → Dict String → Dict String
evaluate [] environ = environ
evaluate (set_variable key value ∷ instructions) environ =
    evaluate instructions (insert key value environ)
evaluate (unset_variable key ∷ instructions) environ = evaluate instructions (remove key environ)

-- `d.update(items)`
unfoldable pub update : Dict String → Dict String → Dict String
update d [] = d
update d ((key, value) ∷ items) = update (insert key value d) items

module _ (shell : Shell) where
  open shell use {diff, text_order, is_ignored, sanitize_key, encode, decode, before_environ_backup}

  abbrev pub instruction_of : Variable → Instruction
  instruction_of (key, none) = unset_variable (sanitize_key key)
  instruction_of (key, some value) = set_variable (sanitize_key key) value

  -- `apply_diff_to_shell`
  unfoldable pub apply_diff_to_shell : Dict String → Dict String → List Instruction
  unfolding variables_of
  apply_diff_to_shell source target = map instruction_of (
      select (λ v. not (is_ignored v.0))
        (sort_by text_order (λ v. v.0) (variables_of (diff source target))))

  module _ (project : Project) where
    open project use {config_environ, env_prefix, project_home, path_additions, prepend, pathsep}

    -- `_env_environ_backup`
    abbrev pub backup_key : String
    backup_key = append env_prefix "_SHELL_ENVIRON_BACKUP"

    -- The loop of `add_to_system_path`
    unfoldable pub extended_path : List String → String → String
    extended_path [] system_path = system_path
    extended_path (path ∷ paths) system_path = extended_path paths (
        if prepend
        then append path (append pathsep system_path)
        else append system_path (append pathsep path))

    abbrev pub add_to_system_path : Dict String → List Instruction
    add_to_system_path environ =
        set_variable (sanitize_key "PATH")
          (extended_path path_additions (lookup_or "PATH" environ ""))
        ∷ []

    -- The environment of the process that makes the script
    unfoldable pub activated_environ : Dict String → Dict String
    unfolding update
    activated_environ initial =
        insert (append env_prefix "_PROJECT_HOME") project_home (
          insert backup_key (encode (before_environ_backup initial))
            (update initial config_environ))

    -- `ActivateAction.execute` behind its check: the script, for the environment of the shell
    unfoldable pub activate : Dict String → List Instruction
    unfolding apply_diff_to_shell activated_environ extended_path
    activate initial =
        apply_diff_to_shell initial (activated_environ initial)
        ++ (if is_empty path_additions then [] else add_to_system_path (activated_environ initial))

    abbrev pub restore : Dict String → Option String → List Instruction
    restore environ none = []
    restore environ (some encoded) =
        if encoded == "" then [] else apply_diff_to_shell environ (decode encoded)

    -- `DeactivateAction.execute` behind its check
    unfoldable pub deactivate : Dict String → List Instruction
    unfolding apply_diff_to_shell
    deactivate environ = restore environ (lookup backup_key environ)
