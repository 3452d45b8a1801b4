-- ===== src/Main/Watch/Samples.antt =====
-- One watcher, which notes its calls, and a stop event in the third wait.
use docker_devbox_ddb.Prelude.{
  ℕ, zero, suc, String, true, false, List, [], ◌∷◌, ◌++◌, ok, ◌≡◌, refl,
}
use docker_devbox_ddb.Prelude.Exec.{Exec, for_each}
use docker_devbox_ddb.Main.Watch.{
  Watching, Watchers, Waited, timed_out, stop_event, wait_until, handle_watch,
}

abbrev note : String → String → Exec (Watching (List String)) String Unit
note what watcher s = (record s { world = s.world ++ what ∷ watcher ∷ [] }, ok tt)

abbrev watchers : Watchers String (Watching (List String)) String
watchers = record {
  start_watching = note "start";
  stop_watching = note "stop";
  join_watching = note "join";
}

abbrev waits : ℕ → Waited
waits zero = timed_out
waits (suc zero) = timed_out
waits _ = stop_event

abbrev idle : Watching (List String)
idle = record { watching = false; is_started = false; world = [] }

whole_run : handle_watch watchers waits 3 ("file:walk" ∷ []) idle ≡ (
  record {
    watching = false;
    is_started = true;
    world = "start" ∷ "file:walk" ∷ "stop" ∷ "file:walk" ∷ "join" ∷ "file:walk" ∷ [];
  },
  ok true,
)
unfolding handle_watch wait_until for_each
whole_run = refl

still_watching : (handle_watch watchers waits 2 ("file:walk" ∷ []) idle).1 ≡ ok false
unfolding handle_watch wait_until for_each
still_watching = refl
