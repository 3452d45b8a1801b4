-- ===== src/Run/Options.antt =====
-- ddb/feature/docker/binaries.py: the condition of a binary's options.
use docker_devbox_ddb.Prelude.{
  String, Bool, true, false, none, some, List, ◌>>=◌, if◌then◌else◌, ◌≡◌, refl, Result-cases, inl,
  inr,
}
use docker_devbox_ddb.Run.{DockerBinary, Evaluator, Host, added_options, start_params, command}

-- The binary with its options where they are to be added, and no condition
abbrev pub with_options : Bool → DockerBinary → DockerBinary
with_options holds b = record b {
  options = if holds then b.options else none;
  options_condition = none;
}

-- A binary whose options have a condition has the command of the binary with these options and without
-- the condition where the condition holds, and of the binary without options where it does not; where it
-- raises, so does the command.
pub command-condition :
    {X : Type 0} (evaluator : Evaluator X) (host : Host) (b : DockerBinary)
    (options condition : String) (args : List String)
    → b.options ≡ some options
    → b.options_condition ≡ some condition
    → command evaluator host b args ≡ (
        evaluator.simple_eval condition args
        >>= (λ holds. command evaluator host (with_options holds b) args))
unfolding command added_options start_params
command-condition evaluator host b options condition args o c =
    elim (Result-cases (evaluator.simple_eval condition args)) [
      | inl (true, e) ↦ rw (o, c, e) refl
      | inl (false, e) ↦ rw (o, c, e) refl
      | inr (x, e) ↦ rw (o, c, e) refl
    ]
