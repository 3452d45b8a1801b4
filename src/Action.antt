-- ===== src/Action.antt =====
-- ddb/action/runner.py and ddb/action/runnerfactory.py: how an event runs an action. The state is
-- the context, the actions that were initialised, and the rest of the world, which an action changes.
pub mod Outcomes
pub mod Stack
pub mod Initialization
mod Samples
use docker_devbox_ddb.Prelude.{
  drop_last, String, Bool, true, false, ◌||◌, Option, none, some, List, [], ◌∷◌, ◌++◌, Result, ok,
  err, contains, eq_string, if◌then◌else◌,
}
use docker_devbox_ddb.Prelude.Exec.{Exec, pure, raise, modify, ◌>>=◌, ◌>>◌, and_then}
use docker_devbox_ddb.Context.{Context, StackItem}

-- `isinstance(exception, FailFastError)`; `exception.stderr` of a `CalledProcessError`, which may be
-- `None`; and the `AttributeError` that `None.decode` raises.
pub record ExceptionClass (X : Type 0) : Type 0 where
  pub is_fail_fast : X → Bool
  pub stderr : X → Option (Option String)
  pub attribute_error : X

pub record World (C X W : Type 0) : Type 0 where
  pub context : Context C X
  pub initialized : List String
  pub rest : W

-- What an event processor answers: `False` or `None`, a pair of new arguments, or anything else.
pub data Response (P : Type 0) : Type 0 where
  refused kept : Response P
  replaced : P → Response P

-- `ActionEventBindingRunner`, at the arguments `P` of its event
pub record Runner (C X W P : Type 0) : Type 0 where
  pub action : String
  pub event_name : String
  pub to_call : P → Exec (World C X W) X (Unit {0})
  pub callable : P → C
  pub event_processor : Option (P → Exec (World C X W) X (Response P))
  pub fail_fast : Bool

-- The last `if` of `_handle_exception`. Without output on `stderr` it decodes `stderr` again.
abbrev pub report_output :
    {X : Type 0} → ExceptionClass X → Option (Option String) → Result X (Unit {0})
report_output class none = ok tt
report_output class (some (some text)) = ok tt
report_output class (some none) = err class.attribute_error

module _ {C X W : Type 0} where
  unfoldable pub push : StackItem C → World C X W → World C X W
  push item s = record s { context = record (s.context) { stack = s.context.stack ++ item ∷ [] } }

  -- `if context.stack: context.stack.pop()`
  unfoldable pub pop : World C X W → World C X W
  pop s = record s { context = record (s.context) { stack = drop_last s.context.stack } }

  unfoldable pub mark_initialized : String → World C X W → World C X W
  mark_initialized action s = record s { initialized = action ∷ s.initialized }

  -- `_handle_exception`, without what it writes to the log
  unfoldable pub handle_exception : ExceptionClass X → X → Exec (World C X W) X (Unit {0})
  handle_exception class x s = (
    record s { context = record (s.context) { exceptions = s.context.exceptions ++ x ∷ [] } },
    report_output class (class.stderr x),
  )

  -- The end of the `except` block, after `_handle_exception`, and the `finally` block
  unfoldable pub end_failed :
      ExceptionClass X → Bool → X → Result X (Unit {0}) → Exec (World C X W) X (Option Bool)
  end_failed class fail_fast x (err y) s = (pop s, err y)
  end_failed class fail_fast x (ok u) s =
      if fail_fast || class.is_fail_fast x then (pop s, err x) else (pop s, ok (some false))

  -- From the outcome of `self._execute_action` to the end of `run`
  unfoldable pub settle :
      ExceptionClass X → Bool → Result X (Unit {0}) → Exec (World C X W) X (Option Bool)
  unfolding end_failed
  settle class fail_fast (ok u) s = (pop s, ok (some true))
  settle class fail_fast (err x) s =
      let (s', r) = handle_exception class x s in end_failed class fail_fast x r s'

module _ {C X W P : Type 0} (class : ExceptionClass X) where
  -- `run` below its processor, at the final arguments
  unfoldable pub run_call : Runner C X W P → P → Exec (World C X W) X (Option Bool)
  run_call r args s =
      let (s', outcome) = r.to_call args (
        push (record { event_name = r.event_name; action = r.action; to_call = r.callable args })
          s) in
      settle class r.fail_fast outcome s'

  abbrev pub answer : Runner C X W P → P → Response P → Exec (World C X W) X (Option Bool)
  answer r args refused s = (s, ok none)
  answer r args kept s = run_call r args s
  answer r args (replaced args') s = run_call r args' s

  abbrev pub process :
      Option (P → Exec (World C X W) X (Response P)) → P → Exec (World C X W) X (Response P)
  process none args s = (s, ok kept)
  process (some p) args s = p args s

  -- `ActionEventBindingRunner.run`: `none` for its `None`
  unfoldable pub run : Runner C X W P → P → Exec (World C X W) X (Option Bool)
  run r args = process r.event_processor args >>= answer r args

  -- `InitializableActionEventBindingRunner.run`
  unfoldable pub run_initializable :
      (String → Exec (World C X W) X (Unit {0}))
      → Runner C X W P
      → P
      → Exec (World C X W) X (Option Bool)
  run_initializable initialize r args s =
      if contains s.initialized r.action
      then run r args s
      else (initialize r.action >> modify (mark_initialized r.action) >> run r args) s
