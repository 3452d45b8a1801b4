-- ===== src/Render/Deletion/Unmodified.antt =====
-- ddb/action/action.py: the deletion of a template removes its target only as it was rendered.
use docker_devbox_ddb.Prelude.{String, some, ◌≡◌, ◌++◌, [], ◌∷◌}
use docker_devbox_ddb.Dict.{lookup, remove}
use docker_devbox_ddb.Render.Deletion.{Targets}

-- Nothing but the cache changes.
abbrev pub IsKept : Targets → Targets → Type 0
IsKept s s' = (s'.files ≡ s.files) × (s'.deleted ≡ s.deleted)

-- The target is removed from the files and the cache and the event is emitted with it; its file was as
-- it was rendered.
abbrev pub IsDeleted : String → Targets → Targets → Type 0
IsDeleted target s s' =
    (text : String) × (lookup target s.files ≡ some text)
    × (lookup target s.rendered ≡ some text)
    × (s'.files ≡ remove target s.files)
    × (s'.rendered ≡ remove target s.rendered)
    × (s'.deleted ≡ s.deleted ++ target ∷ [])

abbrev dropped : String → Targets → Targets
dropped target s = record s {
  files = remove target s.files;
  rendered = remove target s.rendered;
  deleted = s.deleted ++ target ∷ [];
}
