-- ===== src/Render/Deletion.antt =====
-- ddb/action/action.py, class `AbstractTemplateAction`: the processors of its events, and the deletion of a
-- target. Files are held by their texts; the finder is a parameter.
pub mod Unmodified
use docker_devbox_ddb.Prelude.{
  String, Bool, true, false, not, ◌&&◌, Option, none, some, List, [], ◌∷◌, ◌++◌, ◌==◌,
  if◌then◌else◌, Result, ok, err,
}
use docker_devbox_ddb.Dict.{Dict, lookup, remove, has_key}

-- The files, the cache of rendered texts by target, and the paths that `file.deleted` was emitted with
pub record Targets : Type 0 where
  pub files : Dict String
  pub rendered : Dict String
  pub deleted : List String

-- The `KeyError` of `pop` on the cache
pub data DeletionError : Type 0 where
  not_cached : String → DeletionError

-- The arguments that a processor makes for `execute` and `delete`
pub record Call : Type 0 where
  pub template : String
  pub target : String

abbrev pub drop_cached : String → Targets → Targets
drop_cached target s = record s { rendered = remove target s.rendered }

-- `caches.get(self._cache_key).pop(target)`
unfoldable pub pop_cached : String → Targets → Targets × Result DeletionError (Unit {0})
pop_cached target s =
    if has_key target s.rendered
    then (drop_cached target s, ok tt)
    else (s, err (not_cached target))

-- The last three tests of `_target_is_modified`, for what the cache has
unfoldable pub is_modified_from :
    String → String → Option String → Targets → Targets × Result DeletionError Bool
is_modified_from target rendered none s = (drop_cached target s, ok true)
is_modified_from target rendered (some existing) s = (s, ok (not (existing == rendered)))

abbrev pub is_modified : String → Option String → Targets → Targets × Result DeletionError Bool
is_modified target none s = (s, ok true)
is_modified target (some rendered) s = is_modified_from target rendered (lookup target s.files) s

-- `_target_is_modified`
unfoldable pub target_is_modified : String → Targets → Targets × Result DeletionError Bool
unfolding is_modified_from
target_is_modified target s = is_modified target (lookup target s.rendered) s

abbrev pub emit_deleted :
    String → Targets × Result DeletionError (Unit {0}) → Targets × Result DeletionError (Unit {0})
emit_deleted target (s, ok u) = (record s { deleted = s.deleted ++ target ∷ [] }, ok tt)
emit_deleted target (s, err x) = (s, err x)

-- `delete`
unfoldable pub delete : Call → Targets → Targets × Result DeletionError (Unit {0})
unfolding pop_cached
delete call s =
    if has_key call.target s.files
    then emit_deleted call.target
        (pop_cached call.target (record s { files = remove call.target s.files }))
    else (s, ok tt)

module _ (get_target : String → Option String) where
  abbrev pub call_of : String → Option String → Option Call
  call_of template none = none
  call_of template (some target) =
      if target == "" then none else some (record { template = template; target = target })

  -- `file_found_processor`
  unfoldable pub file_found_processor : String → Option Call
  file_found_processor file = call_of file (get_target file)

  -- `file_generated_processor`
  unfoldable pub file_generated_processor : Option String → String → Option Call
  file_generated_processor source target = call_of target (get_target target)

  abbrev pub unless_modified :
      Call → Targets × Result DeletionError Bool → Targets × Result DeletionError (Option Call)
  unless_modified call (s, ok modified) = (s, ok (if modified then none else some call))
  unless_modified call (s, err x) = (s, err x)

  abbrev pub delete_call : Option Call → Targets → Targets × Result DeletionError (Option Call)
  delete_call none s = (s, ok none)
  delete_call (some call) s = unless_modified call (target_is_modified call.target s)

  -- `file_delete_processor`
  unfoldable pub file_delete_processor :
      String → Targets → Targets × Result DeletionError (Option Call)
  unfolding target_is_modified
  file_delete_processor file s = delete_call (call_of file (get_target file)) s

  abbrev pub deleted_call :
      Targets × Result DeletionError (Option Call) → Targets × Result DeletionError (Unit {0})
  deleted_call (s, ok none) = (s, ok tt)
  deleted_call (s, ok (some call)) = delete call s
  deleted_call (s, err x) = (s, err x)

  -- The runner of the binding of `file.deleted`: `delete` at what the processor gives, if it gives something
  unfoldable pub on_file_deleted : String → Targets → Targets × Result DeletionError (Unit {0})
  unfolding delete file_delete_processor
  on_file_deleted file s = deleted_call (file_delete_processor file s)
