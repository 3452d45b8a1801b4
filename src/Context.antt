-- ===== src/Context.antt =====
-- ddb/context/context.py, class `Context`: what is being executed, the exceptions of the run, and
-- the files that were processed, by source and by target.
pub mod Processed
mod Samples
use docker_devbox_ddb.Prelude.{
  last?, String, Bool, true, false, not, ◌&&◌, Option, none, some, List, [], ◌∷◌, ◌++◌, ◌==◌,
  if◌then◌else◌,
}
use docker_devbox_ddb.Dict.{Dict, lookup, insert, remove, has_key}

-- `ContextStackItem`, over the callables and arguments of the program
pub record StackItem (C : Type 0) : Type 0 where
  pub event_name : String
  pub action : String
  pub to_call : C

pub record Context (C X : Type 0) : Type 0 where
  pub phase : Option String
  pub command : Option String
  pub stack : List (StackItem C)
  pub watching : Bool
  pub exceptions : List X
  pub processed_sources : Dict String
  pub processed_targets : Dict String

-- `if linked in links: links.pop(linked)`
abbrev pub pop_link : Option String → Dict String → Dict String
pop_link none links = links
pop_link (some linked) links = if has_key linked links then remove linked links else links

module _ {C X : Type 0} where
  -- `Context.__init__` and `reset`
  unfoldable pub reset : Context C X
  reset = record {
    phase = none;
    command = none;
    stack = [];
    watching = false;
    exceptions = [];
    processed_sources = [];
    processed_targets = [];
  }

  unfoldable pub event_name : Context C X → Option String
  unfolding last?
  event_name c = elim (last? c.stack) [ none ↦ none | some i ↦ some i.event_name ]

  unfoldable pub action : Context C X → Option String
  unfolding last?
  action c = elim (last? c.stack) [ none ↦ none | some i ↦ some i.action ]

  unfoldable pub mark_as_processed : String → String → Context C X → Context C X
  mark_as_processed source target c = record c {
    processed_sources = insert source target c.processed_sources;
    processed_targets = insert target source c.processed_targets;
  }

  -- The first `if` of `mark_as_unprocessed`
  unfoldable pub unmark_source : String → Context C X → Context C X
  unmark_source path c =
      if not (path == "") && has_key path c.processed_sources
      then record c {
        processed_sources = remove path c.processed_sources;
        processed_targets = pop_link (lookup path c.processed_sources) c.processed_targets;
      }
      else c

  -- The second one
  unfoldable pub unmark_target : String → Context C X → Context C X
  unmark_target path c =
      if has_key path c.processed_targets
      then record c {
        processed_targets = remove path c.processed_targets;
        processed_sources = pop_link (lookup path c.processed_targets) c.processed_sources;
      }
      else c

  unfoldable pub mark_as_unprocessed : Option String → Context C X → Context C X
  mark_as_unprocessed none c = c
  mark_as_unprocessed (some path) c = unmark_target path (unmark_source path c)
