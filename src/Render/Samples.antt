-- ===== src/Render/Samples.antt =====
-- A template whose rendering fails as often as the state says, and a target that was rendered and deleted.
use docker_devbox_ddb.Prelude.{
  ℕ, zero, suc, ◌+◌, ◌≤◌, String, true, false, Option, some, [], ◌∷◌, ok, err, ◌≡◌, refl, arith,
  inl, inr, Bool-cases, ◌==◌,
}
use docker_devbox_ddb.Prelude.Exec.{Exec, for_each}
use docker_devbox_ddb.Dict.{lookup, remove}
use docker_devbox_ddb.Render.{Rendered, content, Host, process_rendered, attempt, execute}
use docker_devbox_ddb.Render.Bound.{Counts, execute-le, execute-fuel}
use docker_devbox_ddb.Render.Deletion.{
  Targets, on_file_deleted, file_delete_processor, delete, target_is_modified, is_modified_from,
  pop_cached,
}

-- How often the rendering was tried, how often it fails from here, and how many files were written
record Tries : Type 0 where
  tries : ℕ
  failures : ℕ
  written : ℕ

abbrev idle : Exec Tries String Unit
idle s = (s, ok tt)

abbrev try_one : ℕ → Exec Tries String (Option (Rendered × String))
try_one zero s = (record s { tries = suc s.tries }, ok (some (content "text", "Dockerfile")))
try_one (suc failures) s =
    (record s { tries = suc s.tries; failures = failures }, err "no such key")

abbrev host : Host Tries String
host = record {
  is_config_file = λ s target. false;
  render_template = λ template target. (λ s. try_one s.failures s) ∷ [];
  copy_if_different = λ from to. idle;
  write_if_different = λ destination text s. (record s { written = suc s.written }, ok true);
  set_cached = λ target text. idle;
  mark_as_processed = λ template destination. idle;
  file_generated = λ original destination. idle;
  autofix_render_error = λ template target original x s. (s, ok (some template));
  is_exception = λ x. true;
  recursion_error = "recursion";
  autofix = true;
  eject = false;
}

abbrev fails : ℕ → Tries
fails failures = record { tries = 0; failures = failures; written = 0 }

repaired :
    execute host 9 "Dockerfile.jinja" "Dockerfile" (fails 2)
    ≡ (record { tries = 3; failures = 0; written = 1 }, ok tt)
unfolding execute attempt for_each
repaired = refl

attempt-tries :
    (template target original : String) (tries failures written : ℕ)
    → (attempt host template target original
        (record { tries = tries; failures = failures; written = written })).0.tries
      ≡ suc tries
unfolding attempt for_each process_rendered
attempt-tries template target original tries zero written =
    elim (Bool-cases (original == template)) [ inl same ↦ rw same refl | inr other ↦ rw other refl ]
attempt-tries template target original tries (suc failures) written = refl

abbrev counts : Counts host (λ s. s.tries)
counts = record {
  at_attempt = λ template target original s.
      let tried = attempt-tries template target original s.tries s.failures s.written in
      omega arith;
  at_autofix = λ template target original x s. omega arith;
}

execute-le_example : (execute host 60 "Dockerfile.jinja" "Dockerfile" (fails 2)).0.tries ≤ 0 + 52
execute-le_example =
    execute-le host (λ s. s.tries) counts 60 "Dockerfile.jinja" "Dockerfile" (fails 2)

execute-fuel_example :
    execute host 60 "Dockerfile.jinja" "Dockerfile" (fails 2)
    ≡ execute host 52 "Dockerfile.jinja" "Dockerfile" (fails 2)
execute-fuel_example = execute-fuel host 60 "Dockerfile.jinja" "Dockerfile" (fails 2) (omega arith)

abbrev target_of : String → Option String
target_of file = some "Dockerfile"

abbrev generated : Targets
generated = record {
  files = ("Dockerfile", "text") ∷ [];
  rendered = ("Dockerfile", "text") ∷ [];
  deleted = [];
}

deleted_target :
    on_file_deleted target_of "Dockerfile.jinja" generated
    ≡ (record { files = []; rendered = []; deleted = "Dockerfile" ∷ [] }, ok tt)
unfolding on_file_deleted file_delete_processor delete target_is_modified is_modified_from
    pop_cached lookup remove
deleted_target = refl

edited_target :
    (on_file_deleted target_of "Dockerfile.jinja"
      (record generated { files = ("Dockerfile", "edited") ∷ [] })).0.deleted
    ≡ []
unfolding on_file_deleted file_delete_processor delete target_is_modified is_modified_from
    pop_cached lookup remove
edited_target = refl
