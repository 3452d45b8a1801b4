-- ===== src/Action/Samples.antt =====
-- An action that writes a file name down, and one that fails as a command does.
use docker_devbox_ddb.Prelude.{
  String, Bool, true, false, none, some, List, [], ◌∷◌, ◌++◌, Result, ok, err, contains, eq_string,
  if◌then◌else◌, ◌≡◌, refl, ◌==◌, Bool-cases, inl, inr,
}
use docker_devbox_ddb.Prelude.Exec.{Exec}
use docker_devbox_ddb.Context.{StackItem, reset}
use docker_devbox_ddb.Action.{
  ExceptionClass, World, Runner, run, run_call, settle, push, pop, handle_exception, end_failed,
}
use docker_devbox_ddb.Action.Stack.{IsBalanced, Balances, run-IsBalanced}
use docker_devbox_ddb.Action.Outcomes.{run-output_less}
use docker_devbox_ddb.Action.Initialization.{KeepsInitialized}

-- "command" is a `CalledProcessError` with no output.
abbrev errors : ExceptionClass String
errors = record {
  is_fail_fast = λ x. x == "fast";
  stderr = λ x. if x == "command" then some none else none;
  attribute_error = "no decode";
}

abbrev State : Type 0
State = World String String (List String)

abbrev start : State
unfolding reset
start = record { context = reset; initialized = []; rest = [] }

abbrev write : String → Exec State String (Unit {0})
write file s =
    if file == "bad" then (s, err "command") else (record s { rest = s.rest ++ file ∷ [] }, ok tt)

abbrev writer : Runner String String (List String) String
writer = record {
  action = "write";
  event_name = "file:found";
  to_call = write;
  callable = λ file. file;
  event_processor = none;
  fail_fast = false;
}

written : (run errors writer "a" start).0.rest ≡ "a" ∷ []
unfolding run run_call settle push pop reset
written = refl

write-IsBalanced : (file : String) → IsBalanced (write file)
write-IsBalanced file = record { at = λ s. same s (file == "bad") }
  where
    same :
        (s : State) (b : Bool)
        → (◌≡◌ {A = List (StackItem String)}
            (if◌then◌else◌ {A = State × Result String (Unit {0})} b
              (s, err "command")
              (record s { rest = s.rest ++ file ∷ [] }, ok tt)).0.context.stack
            s.context.stack)
    same s true = refl
    same s false = refl

writer-Balances : Balances errors writer
writer-Balances = record { calls = write-IsBalanced; processes = λ file. record { at = λ s. refl } }

run-IsBalanced_example : IsBalanced (run errors writer "bad")
run-IsBalanced_example = run-IsBalanced errors writer "bad" writer-Balances

run-output_less_example : (run errors writer "bad" start).1 ≡ err "no decode"
run-output_less_example = run-output_less errors writer "bad" start "command" refl refl refl

abbrev set_up : String → Exec State String (Unit {0})
set_up action s = (record s { rest = "set up" ∷ [] }, ok tt)

writer-KeepsInitialized : KeepsInitialized errors set_up writer
unfolding run run_call settle push pop handle_exception end_failed
writer-KeepsInitialized = record {
  at = λ file s h. elim (Bool-cases (file == "bad")) [ inl bad ↦ rw bad h | inr good ↦ rw good h ];
}

nothing_initialized : contains start.initialized "write" ≡ false
unfolding contains start
nothing_initialized = refl
