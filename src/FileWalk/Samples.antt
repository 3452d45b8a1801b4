-- ===== src/FileWalk/Samples.antt =====
-- Two cached files, of which one is there, and a new one; the world is what was told.
use docker_devbox_ddb.Prelude.{
  String, false, List, [], ◌∷◌, ◌++◌, ok, contains, select, ◌≡◌, refl, ◌==◌, eq_string,
}
use docker_devbox_ddb.Prelude.Exec.{Exec, for_each}
use docker_devbox_ddb.Dict.{insert, remove, has_key}
use docker_devbox_ddb.Cache.{Cache, set, pop, flush}
use docker_devbox_ddb.Context.{reset}
use docker_devbox_ddb.FileWalk.{
  Walk, Walker, on_world, set_found, check_cached, execute, Handlers, emit_if_not_filtered,
  on_change, moved, modified,
}
use docker_devbox_ddb.FileWalk.Gone.{execute-gone}

abbrev note : String → String → Exec (List String) String Unit
note what file w = (w ++ what ∷ file ∷ [], ok tt)

abbrev files : List String
files = "a" ∷ "c" ∷ []

abbrev walker : Walker (List String) String
walker = record {
  items = λ w. files;
  for_items = λ f. for_each f files;
  found = note "found";
  deleted = note "deleted";
}

abbrev before : Walk (List String)
before = record {
  cache = record { entries = ("a", tt) ∷ ("b", tt) ∷ []; synced = ("a", tt) ∷ ("b", tt) ∷ [] };
  world = [];
}

told_events : (execute walker before).0.world ≡ "deleted" ∷ "b" ∷ "found" ∷ "a" ∷ "found" ∷ "c" ∷ []
unfolding execute on_world set_found check_cached for_each set pop insert remove contains flush
told_events = refl

execute-gone_example :
    (cache : Cache (Unit {0})) × (execute walker before ≡ (
      record { cache = cache; world = "deleted" ∷ "b" ∷ "found" ∷ "a" ∷ "found" ∷ "c" ∷ [] },
      ok tt,
    ))
    × ((file : String) → has_key file cache.entries ≡ contains files file)
    × (cache.synced ≡ cache.entries)
unfolding for_each select contains
execute-gone_example =
    execute-gone walker before ("deleted" ∷ "b" ∷ [])
      ("deleted" ∷ "b" ∷ "found" ∷ "a" ∷ "found" ∷ "c" ∷ []) refl refl

abbrev handlers : Handlers String String (List String) String
handlers = record {
  is_source_filtered = λ file. file == "private";
  file_found = λ file (c, w). ((c, w ++ "found" ∷ file ∷ []), ok tt);
  file_deleted = λ file (c, w). ((c, w ++ "deleted" ∷ file ∷ []), ok tt);
}

moved_out : (on_change handlers (moved false "a" "private") (reset, [])).0.1 ≡ "deleted" ∷ "a" ∷ []
unfolding on_change emit_if_not_filtered
moved_out = refl

backup_ignored : (on_change handlers (modified false "a~") (reset, [])).0.1 ≡ []
unfolding on_change emit_if_not_filtered
backup_ignored = refl
