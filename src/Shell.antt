-- ===== src/Shell.antt =====
-- ddb/feature/shell/actions.py: where shims go, and whether a project may be activated.
-- `os.path.isabs` and `os.path.join` are parameters; texts that would be logged are left out.
pub mod Environment
pub mod Shims
mod Samples
use text.Mathlib.Text.{starts_with}
use docker_devbox_ddb.Prelude.{
  String, Bool, true, false, not, ◌&&◌, ◌||◌, Option, none, some, List, [], ◌∷◌, ◌==◌,
  if◌then◌else◌, Result, ok, err,
}
use docker_devbox_ddb.Dict.{Dict, lookup}

pub record OsPath : Type 0 where
  pub is_absolute : String → Bool
  pub join : String → String → String

-- `not forbidden or not directory.startswith(forbidden)`
abbrev pub is_outside : String → Option String → Bool
is_outside directory none = true
is_outside directory (some forbidden) = forbidden == "" || not (starts_with directory forbidden)

unfoldable pub is_allowed : String → Option String → String → Bool
is_allowed prefix forbidden directory =
    starts_with directory prefix && is_outside directory forbidden

module _ (os_path : OsPath) where
  unfoldable pub absolute : String → String → String
  absolute project_home directory =
      if os_path.is_absolute directory then directory else os_path.join project_home directory

  -- The loop of `get_shims_path`
  unfoldable pub first_allowed : String → String → Option String → List String → Option String
  unfolding absolute is_allowed
  first_allowed project_home prefix forbidden [] = none
  first_allowed project_home prefix forbidden (directory ∷ directories) =
      if is_allowed prefix forbidden (absolute project_home directory)
      then some (absolute project_home directory)
      else first_allowed project_home prefix forbidden directories

  -- `get_shims_path(global_)`, with the directories of the configuration and the two homes
  unfoldable pub get_shims_path : List String → String → String → Bool → Option String
  unfolding first_allowed
  get_shims_path directories home project_home global =
      if global
      then first_allowed project_home home (some project_home) directories
      else first_allowed project_home project_home none directories

-- The three exceptions of `check_activated`, and the `AttributeError` of `config.args.force`
pub data ShellError : Type 0 where
  is_activated is_not_activated no_attribute : ShellError
  another_activated : String → ShellError

abbrev pub check_home : Option String → String → Bool → Result ShellError Bool
check_home none project_home do_raise = if do_raise then err is_not_activated else ok false
check_home (some other) project_home do_raise =
    if other == project_home
    then ok true
    else if do_raise
    then err (another_activated other)
    else ok false

-- `check_activated(do_raise)`
unfoldable pub check_activated : Dict String → String → String → Bool → Result ShellError Bool
check_activated environ project_home_key project_home do_raise =
    check_home (lookup project_home_key environ) project_home do_raise

-- `'force' not in config.args or not config.args.force`
abbrev pub is_unforced : Option Bool → Bool
is_unforced none = true
is_unforced (some force) = not force

-- `if config.args.force`, behind a check that did not raise: whether to deactivate first
abbrev pub force_activation : Option Bool → Result ShellError Bool
force_activation none = err no_attribute
force_activation (some force) = if force then ok true else err is_activated

abbrev pub after_check : Option Bool → Result ShellError Bool → Result ShellError Bool
after_check force (ok checked) = force_activation force
after_check force (err is_not_activated) = ok false
after_check force (err x) = err x

-- The `try` of `ActivateAction.execute`: the exception that ends it, or whether the shell is deactivated
-- before it is activated
unfoldable pub start_activation :
    Dict String → String → String → Option Bool → Result ShellError Bool
unfolding check_activated
start_activation environ project_home_key project_home force =
    after_check force (check_activated environ project_home_key project_home (is_unforced force))
