-- ===== src/Action/Outcomes.antt =====
-- ddb/action/runner.py: what a run returns, raises and records, for every outcome of the action.
use docker_devbox_ddb.Prelude.{
  Bool, true, false, ◌||◌, Option, none, some, List, [], ◌∷◌, ◌++◌, Result, ok, err, eq_string,
  if◌then◌else◌, ◌≡◌, refl, sym, append-nil, ◌∙◌, ap, Bool-cases, inl, inr,
}
use docker_devbox_ddb.Action.{
  ExceptionClass, World, Runner, push, pop, handle_exception, end_failed, settle, run_call, answer,
  run, report_output,
}

-- The context as the callable of a runner finds it
abbrev pub entered : {C X W P : Type 0} → Runner C X W P → P → World C X W → World C X W
entered r args =
    push (record { event_name = r.event_name; action = r.action; to_call = r.callable args })

-- What `run` answers after the exception `x`, by what its report answered.
abbrev pub after_report :
    {X : Type 0} → ExceptionClass X → Bool → X → Result X (Unit {0}) → Result X (Option Bool)
after_report class fail_fast x (err y) = err y
after_report class fail_fast x (ok u) =
    if fail_fast || class.is_fail_fast x then err x else ok (some false)

-- What `run` answers to the outcome of the callable.
abbrev pub expected_outcome :
    {X : Type 0} → ExceptionClass X → Bool → Result X (Unit {0}) → Result X (Option Bool)
expected_outcome class fail_fast (ok u) = ok (some true)
expected_outcome class fail_fast (err x) =
    after_report class fail_fast x (report_output class (class.stderr x))

abbrev pub raised : {X : Type 0} → Result X (Unit {0}) → List X
raised (ok u) = []
raised (err x) = x ∷ []

-- The answer, the exceptions and the rest of the world after `settle`.
abbrev Settled :
    {C X W : Type 0}
    → Result X (Option Bool)
    → List X
    → W
    → World C X W × Result X (Option Bool)
    → Type 0
Settled answer exceptions rest (s, r) =
    (r ≡ answer) × (s.context.exceptions ≡ exceptions) × (s.rest ≡ rest)

module _ {C X W : Type 0} (class : ExceptionClass X) where
  end_failed_lem :
      (fail_fast : Bool) (x : X) (r : Result X (Unit {0})) (s : World C X W)
      → Settled
          (after_report class fail_fast x r)
          s.context.exceptions
          s.rest
          (end_failed class fail_fast x r s)
  unfolding end_failed pop
  end_failed_lem fail_fast x (err y) s = (refl, refl, refl)
  end_failed_lem fail_fast x (ok u) s = elim (Bool-cases (fail_fast || class.is_fail_fast x)) [
    | inl yes_raise ↦ rw yes_raise (refl, refl, refl)
    | inr swallowed ↦ rw swallowed (refl, refl, refl)
  ]

  settle_lem :
      (fail_fast : Bool) (outcome : Result X (Unit {0})) (s : World C X W)
      → Settled
          (expected_outcome class fail_fast outcome)
          (s.context.exceptions ++ raised outcome)
          s.rest
          (settle class fail_fast outcome s)
  unfolding settle handle_exception pop
  settle_lem fail_fast (ok u) s = (refl, sym (append-nil s.context.exceptions), refl)
  settle_lem fail_fast (err x) s =
      end_failed_lem fail_fast x (report_output class (class.stderr x))
        (handle_exception class x s).0

module _ {C X W P : Type 0} (class : ExceptionClass X) where
  pub run-outcome :
      (r : Runner C X W P) (args : P) (s : World C X W)
      → r.event_processor ≡ none
      → ((run class r args s).1
          ≡ expected_outcome class r.fail_fast (r.to_call args (entered r args s)).1)
        × ((run class r args s).0.context.exceptions
            ≡ (r.to_call args (entered r args s)).0.context.exceptions
              ++ raised (r.to_call args (entered r args s)).1)
        × ((run class r args s).0.rest ≡ (r.to_call args (entered r args s)).0.rest)
  unfolding run run_call
  run-outcome r args s direct = rw direct (
      settle_lem class r.fail_fast (r.to_call args (entered r args s)).1
        (r.to_call args (entered r args s)).0)

  -- A `CalledProcessError` without `stderr` ends a run with no processor by an `AttributeError`,
  -- whether or not the runner fails fast.
  pub run-output_less :
      (r : Runner C X W P) (args : P) (s : World C X W) (x : X)
      → r.event_processor ≡ none
      → (r.to_call args (entered r args s)).1 ≡ err x
      → class.stderr x ≡ some none
      → (run class r args s).1 ≡ err class.attribute_error
  run-output_less r args s x direct failed silent =
      (run-outcome r args s direct).0
      ∙ ap (expected_outcome class r.fail_fast) failed
      ∙ ap (λ o. after_report class r.fail_fast x (report_output class o)) silent
