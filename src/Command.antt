-- ===== src/Command.antt =====
-- ddb/command/command.py: the execution of a command, with its hook, its parent's execution and the
-- phases of its life cycle. A parent is a command, or the name of one that is looked up when the
-- command is executed.
pub mod Lineage
mod Samples
use docker_devbox_ddb.Prelude.{
  ℕ, zero, suc, String, Bool, true, false, Option, none, some, List, [], ◌∷◌, ◌==◌, Result, ok, err,
  if◌then◌else◌,
}
use docker_devbox_ddb.Prelude.Exec.{Exec, and_then, for_each, try_finally, raise, ◌>>◌}
use docker_devbox_ddb.Dict.{Dict, lookup}
use docker_devbox_ddb.Phase.{App, Phase}

mutual
  -- `DefaultCommand` and `LifecycleCommand`: `before` names the function of `before_execute`, and a
  -- plain command has no phases.
  pub data Command : Type 0 where
    command : String → Option String → Parent → List Phase → Command

  pub data Parent : Type 0 where
    no_parent : Parent
    given : Command → Parent
    named : String → Parent

abbrev pub name_of : Command → String
name_of (command name before above lifecycle) = name

abbrev pub before_of : Command → Option String
before_of (command name before above lifecycle) = before

abbrev pub parent_of : Command → Parent
parent_of (command name before above lifecycle) = above

abbrev pub lifecycle_of : Command → List Phase
lifecycle_of (command name before above lifecycle) = lifecycle

-- The property `parent`: no parent, a command, or the name of no command
pub data Resolved : Type 0 where
  alone : Resolved
  child_of : Command → Resolved
  unknown : Resolved

abbrev pub registered : Option Command → Resolved
registered none = unknown
registered (some c) = child_of c

unfoldable pub resolve : Dict Command → Parent → Resolved
resolve commands no_parent = alone
resolve commands (given c) = child_of c
resolve commands (named n) = if n == "" then alone else registered (lookup n commands)

-- What the calls of a command do: the hooks, the phases (`execute_phase`), and the exceptions of a
-- parent that is not registered and of a recursion without end
pub record Program (W E : Type 0) : Type 0 where
  pub hook : String → Exec (App W) E Unit
  pub phase : Phase → Exec (App W) E Unit
  pub not_found : E
  pub recursion_error : E

module _ {W E : Type 0} (program : Program W E) (commands : Dict Command) where
  open program use {hook, phase, not_found, recursion_error}

  -- `if self.before_execute: self.before_execute()`
  abbrev pub run_hook : Option String → Exec (App W) E Unit
  run_hook none s = (s, ok tt)
  run_hook (some b) s = hook b s

  abbrev pub run_before : Command → Exec (App W) E Unit
  run_before c = run_hook (before_of c)

  abbrev pub run_phases : Command → Exec (App W) E Unit
  run_phases c = for_each phase (lifecycle_of c)

  -- `if self.parent: self.parent.execute()`
  abbrev pub run_parent : Resolved → (Command → Exec (App W) E Unit) → Exec (App W) E Unit
  run_parent alone run s = (s, ok tt)
  run_parent (child_of p) run s = run p s
  run_parent unknown run s = (s, err not_found)

  -- `execute`. The fuel is the depth of Python's stack of calls, each parent being one deeper.
  unfoldable pub execute : ℕ → Command → Exec (App W) E Unit
  execute zero c s = (s, err recursion_error)
  execute (suc fuel) c s =
      ((run_before c >> run_parent (resolve commands (parent_of c)) (execute fuel)) >> run_phases c)
        s

  abbrev pub enter_command : Command → App W → App W
  enter_command c s = record s { command = some (name_of c) }

  abbrev pub leave_command : App W → App W
  leave_command s = record s { command = none }

  -- `execute_command`
  unfoldable pub execute_command : ℕ → Command → Exec (App W) E Unit
  execute_command fuel c s = try_finally (execute fuel c) leave_command (enter_command c s)
