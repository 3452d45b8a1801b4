-- ===== src/FileWalk.antt =====
-- ddb/feature/file/actions.py: the walk over the project's files, with the events of files that were found or
-- are gone, and the handler of file changes in watch mode. The walker and the listeners are parameters.
pub mod Gone
mod Samples
use docker_devbox_ddb.Prelude.{
  String, Bool, true, false, not, ◌||◌, some, List, [], ◌∷◌, Result, ok, err, contains,
  if◌then◌else◌, eq_string,
}
use docker_devbox_ddb.Prelude.Exec.{Exec, pure, for_each, modify, and_then, ◌>>◌}
use docker_devbox_ddb.Dict.{keys}
use docker_devbox_ddb.Cache.{Cache, set, pop, flush}
use docker_devbox_ddb.Bootstrap.{ends_with}
use docker_devbox_ddb.Context.{Context, mark_as_unprocessed}

-- The cache "file", whose values are all `None`, and the rest
pub record Walk (W : Type 0) : Type 0 where
  pub cache : Cache (Unit {0})
  pub world : W

-- The walker and the events. A loop over the files may change what it still has to walk: `for_items` is
-- `for file in self.file_walker.items`.
pub record Walker (W X : Type 0) : Type 0 where
  pub items : W → List String
  pub for_items : (String → Exec W X Unit) → Exec W X Unit
  pub found : String → Exec W X Unit
  pub deleted : String → Exec W X Unit

-- `cache.set(file, None)` for each file
unfoldable pub set_found : List String → Cache (Unit {0}) → Cache (Unit {0})
unfolding set
set_found [] cache = cache
set_found (file ∷ files) cache = set_found files (set file tt cache)

module _ {W X : Type 0} where
  -- A call that leaves the cache alone
  unfoldable pub on_world : {A : Type 0} → Exec W X A → Exec (Walk W) X A
  on_world m s = let (w, r) = m s.world in (record s { world = w }, r)

module _ {W X : Type 0} (walker : Walker W X) where
  open walker use {items, for_items, found, deleted}

  -- The body of the loop over the cached files
  unfoldable pub check_cached : List String → String → Exec (Walk W) X Unit
  unfolding pop on_world
  check_cached found_files file s =
      if contains found_files file
      then (s, ok tt)
      else on_world (deleted file) (record s { cache = pop file s.cache })

  abbrev pub flush_cache : Walk W → Walk W
  flush_cache s = record s { cache = flush s.cache }

  abbrev pub walk_found : List String → Cache (Unit {0}) → Exec (Walk W) X Unit
  walk_found found_files cache s =
      (for_each (check_cached found_files) (keys cache.entries)
          >> (on_world (for_items found) >> modify flush_cache))
        (record s { cache = cache })

  -- `FileWalkAction.execute`
  unfoldable pub execute : Exec (Walk W) X Unit
  unfolding check_cached set_found
  execute s = walk_found (items s.world) (set_found (items s.world) s.cache) s

-- A change that watchdog tells of; the paths are relative to the working directory.
pub data Change : Type 0 where
  modified created deleted : Bool → String → Change
  moved : Bool → String → String → Change

-- The filter, and the events, on the context and the rest `W`
pub record Handlers (C Y W X : Type 0) : Type 0 where
  pub is_source_filtered : String → Bool
  pub file_found : String → Exec (Context C Y × W) X Unit
  pub file_deleted : String → Exec (Context C Y × W) X Unit

module _ {C Y W X : Type 0} (handlers : Handlers C Y W X) where
  open handlers use {is_source_filtered, file_found, file_deleted}

  unfoldable pub emit_if_not_filtered :
      (String → Exec (Context C Y × W) X Unit) → String → Exec (Context C Y × W) X Unit
  emit_if_not_filtered func file (c, w) =
      if ends_with file "~" || is_source_filtered file
      then ((c, w), ok tt)
      else func file (mark_as_unprocessed (some file) c, w)

  abbrev pub unless_directory : Bool → Exec (Context C Y × W) X Unit → Exec (Context C Y × W) X Unit
  unless_directory true m s = (s, ok tt)
  unless_directory false m s = m s

  -- `on_modified`, `on_created`, `on_deleted` and `on_moved`
  unfoldable pub on_change : Change → Exec (Context C Y × W) X Unit
  unfolding emit_if_not_filtered
  on_change (modified is_directory source) =
      unless_directory is_directory (emit_if_not_filtered file_found source)
  on_change (created is_directory source) =
      unless_directory is_directory (emit_if_not_filtered file_found source)
  on_change (deleted is_directory source) =
      unless_directory is_directory (emit_if_not_filtered file_deleted source)
  on_change (moved is_directory source destination) =
      unless_directory is_directory
        (emit_if_not_filtered file_found destination >> emit_if_not_filtered file_deleted source)
