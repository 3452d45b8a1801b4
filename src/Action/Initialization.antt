-- ===== src/Action/Initialization.antt =====
-- ddb/action/runner.py, class `InitializableActionEventBindingRunner`: an action is initialised once.
use docker_devbox_ddb.Prelude.{
  String, true, false, ok, err, contains, eq_string, ◌≡◌, refl, eq_refl,
}
use docker_devbox_ddb.Prelude.Exec.{Exec}
use docker_devbox_ddb.Action.{
  ExceptionClass, World, Runner, run, mark_initialized, run_initializable,
}

module _ {C X W P : Type 0} (class : ExceptionClass X)
    (initialize : String → Exec (World C X W) X (Unit {0})) (r : Runner C X W P) where
  -- No run of the runner takes its action back to the state before its initialisation.
  pub record KeepsInitialized : Type 0 where
    pub at :
        (args : P) (s : World C X W)
        → contains s.initialized r.action ≡ true
        → contains (run class r args s).0.initialized r.action ≡ true

  run_of_initialized :
      (args : P) (s : World C X W)
      → contains s.initialized r.action ≡ true
      → run_initializable class initialize r args s ≡ run class r args s
  unfolding run_initializable
  run_of_initialized args s done = rw done

  -- The first run of an action that is not initialised, whose initialisation returns, is a run of
  -- the runner behind the initialisation, and each run right after it is a run of the runner alone,
  -- if the runner itself takes no action off the initialised ones.
  pub run_initializable_once :
      (args : P) (s s' : World C X W)
      → KeepsInitialized
      → contains s.initialized r.action ≡ false
      → initialize r.action s ≡ (s', ok tt)
      → (run_initializable class initialize r args s
          ≡ run class r args (mark_initialized r.action s'))
        × ((args' : P)
            → run_initializable class initialize r args'
                (run_initializable class initialize r args s).0
              ≡ run class r args' (run_initializable class initialize r args s).0)
  run_initializable_once args s s' keeps fresh initialised = (
    first,
    λ args'.
        run_of_initialized args' _ (rw first (keeps.at args (mark_initialized r.action s') marked)),
  )
    where
      first :
          run_initializable class initialize r args s
          ≡ run class r args (mark_initialized r.action s')
      first = unfold run_initializable in rw (fresh, initialised) refl

      marked : contains (mark_initialized r.action s').initialized r.action ≡ true
      marked = unfold mark_initialized contains in rw eq_refl refl

  -- An initialisation that raises ends the run by its exception, and the runner is not called.
  pub run_initializable_raises :
      (args : P) (s s' : World C X W) (x : X)
      → contains s.initialized r.action ≡ false
      → initialize r.action s ≡ (s', err x)
      → run_initializable class initialize r args s ≡ (s', err x)
  unfolding run_initializable
  run_initializable_raises args s s' x fresh failed = rw (fresh, failed) refl
