-- ===== src/Action/Stack.antt =====
-- ddb/action/runner.py: the context's stack after a run is the one before it, whatever was raised.
use docker_devbox_ddb.Prelude.{
  drop_last, drop_last-snoc, Bool, ◌||◌, Result, ok, err, eq_string, ◌≡◌, refl, ◌∙◌, ap, Bool-cases,
  inl, inr,
}
use docker_devbox_ddb.Prelude.Exec.{Exec, and_then}
use docker_devbox_ddb.Context.{StackItem}
use docker_devbox_ddb.Action.{
  ExceptionClass, World, Response, refused, kept, replaced, Runner, push, pop, handle_exception,
  end_failed, settle, run_call, answer, process, run,
}

-- A call that leaves the stack as it finds it.
pub record IsBalanced {C X W A : Type 0} (m : Exec (World C X W) X A) : Type 0 where
  pub at : (s : World C X W) → (m s).0.context.stack ≡ s.context.stack

module _ {C X W : Type 0} (class : ExceptionClass X) where
  end_failed-stack :
      (fail_fast : Bool) (x : X) (r : Result X (Unit {0})) (s : World C X W)
      → (end_failed class fail_fast x r s).0.context.stack ≡ drop_last s.context.stack
  unfolding end_failed pop
  end_failed-stack fail_fast x (err y) s = refl
  end_failed-stack fail_fast x (ok u) s = elim (Bool-cases (fail_fast || class.is_fail_fast x)) [
    | inl raised ↦ rw raised
    | inr swallowed ↦ rw swallowed
  ]

  settle-stack :
      (fail_fast : Bool) (outcome : Result X (Unit {0})) (s : World C X W)
      → (settle class fail_fast outcome s).0.context.stack ≡ drop_last s.context.stack
  unfolding settle pop handle_exception
  settle-stack fail_fast (ok u) s = refl
  settle-stack fail_fast (err x) s =
      end_failed-stack fail_fast x (handle_exception class x s).1 (handle_exception class x s).0

module _ {C X W P : Type 0} (class : ExceptionClass X) where
  run_call-IsBalanced :
      (r : Runner C X W P) (args : P)
      → IsBalanced (r.to_call args)
      → IsBalanced (run_call class r args)
  unfolding run_call push
  run_call-IsBalanced r args b = record {
    at = λ s.
        let item : StackItem C = record {
          event_name = r.event_name;
          action = r.action;
          to_call = r.callable args;
        } in
        settle-stack class r.fail_fast (r.to_call args (push item s)).1
          (r.to_call args (push item s)).0
        ∙ ap drop_last (b.at (push item s))
        ∙ drop_last-snoc s.context.stack item;
  }

  -- What the processor of a runner and its callable must do with the stack: leave it as it is.
  pub record Balances (r : Runner C X W P) : Type 0 where
    pub calls : (args : P) → IsBalanced (r.to_call args)
    pub processes : (args : P) → IsBalanced (process class r.event_processor args)

  -- If the callable and the event processor leave the stack as they find it, so does a run, whether
  -- it is refused, returns, or raises.
  pub run-IsBalanced : (r : Runner C X W P) (args : P) → Balances r → IsBalanced (run class r args)
  unfolding run
  run-IsBalanced r args b = record {
    at = λ s. go s (process class r.event_processor args s).1 ∙ (b.processes args).at s;
  }
    where
      go :
          (s : World C X W) (response : Result X (Response P))
          → (and_then response
              (answer class r args)
              (process class r.event_processor args s).0).0.context.stack
            ≡ (process class r.event_processor args s).0.context.stack
      go s (err y) = refl
      go s (ok refused) = refl
      go s (ok kept) = (run_call-IsBalanced r args (b.calls args)).at _
      go s (ok (replaced args')) = (run_call-IsBalanced r args' (b.calls args')).at _
