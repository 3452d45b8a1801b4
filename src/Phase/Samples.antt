-- ===== src/Phase/Samples.antt =====
-- A phase with one listener, which notes its name.
use docker_devbox_ddb.Prelude.{String, true, false, none, List, [], ◌∷◌, ◌++◌, ok, err, ◌≡◌, refl}
use docker_devbox_ddb.Prelude.Exec.{Exec, for_each}
use docker_devbox_ddb.Dict.{lookup, insert}
use docker_devbox_ddb.Cache.{set, flush}
use docker_devbox_ddb.Bus.{Bus, Calls, emit, listeners_of}
use docker_devbox_ddb.Phase.{App, Phase, was_run, mark_run, execute, execute_phase}

abbrev Log : Type 0
Log = List String

abbrev note : String → Exec (App Log) String Unit
note l s = (record s { world = s.world ++ l ∷ [] }, ok tt)

abbrev calls : Calls String Unit (App Log) String
calls = record { named = λ l _. note l; any = λ l _ _. note l }

abbrev refusals : Calls String Unit (App Log) String
refusals = record { named = λ l _ s. (s, err l); any = λ l _ _ s. (s, err l) }

abbrev bus : Bus String
bus = record { named_listeners = ("phase:init", "core" ∷ []) ∷ []; listeners = [] }

abbrev init : Phase
init = record { name = "init"; run_once = true }

abbrev new_app : App Log
new_app = record {
  cache = record { entries = []; synced = [] };
  phase = none;
  command = none;
  world = [];
}

abbrev ran : App Log
ran = record {
  cache = record {
    entries = ("phase.runned.init", true) ∷ [];
    synced = ("phase.runned.init", true) ∷ [];
  };
  phase = none;
  command = none;
  world = "core" ∷ [];
}

first_run : execute calls bus init new_app ≡ (ran, ok tt)
unfolding execute was_run mark_run emit listeners_of for_each lookup insert set flush
first_run = refl

fresh : was_run init new_app ≡ false
unfolding was_run lookup
fresh = refl

refused : emit refusals bus "phase:init" tt new_app ≡ (new_app, err "core")
unfolding emit listeners_of for_each lookup
refused = refl

whole_phase : execute_phase calls bus init new_app ≡ (ran, ok tt)
unfolding execute_phase execute was_run mark_run emit listeners_of for_each lookup insert set flush
whole_phase = refl
