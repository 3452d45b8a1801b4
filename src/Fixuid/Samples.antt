-- ===== src/Fixuid/Samples.antt =====
-- An entrypoint of one word, and a Dockerfile of two stages.
use docker_devbox_ddb.Prelude.{String, none, some, List, [], ◌∷◌, ◌==◌, if◌then◌else◌, ◌≡◌, refl}
use docker_devbox_ddb.Fixuid.{
  Texts, get_last_instruction, last_from, entrypoint, cmd, get_cmd_and_entrypoint, parse_entrypoint,
  print_entrypoint, join_words, add_fixuid_entrypoint, remove_fixuid_entrypoint,
}
use docker_devbox_ddb.Fixuid.Round.{IsJson, remove-add_fixuid_entrypoint}

abbrev dumps : List String → String
dumps [] = "[]"
dumps (a ∷ []) = "[app]"
dumps (a ∷ b ∷ words) = "[fixuid, -q, app]"

abbrev texts : Texts
texts = record {
  loads = λ text. if text == "[app]" then "app" ∷ [] else "fixuid" ∷ "-q" ∷ "app" ∷ [];
  dumps = dumps;
  split = λ text. text ∷ [];
  unquote = λ text. ("'", "app", "'");
}

abbrev app_IsJson : IsJson texts ("app" ∷ [])
app_IsJson = record { bracket = refl; filled = refl; loads-dumps = refl }

abbrev fixuid_IsJson : IsJson texts ("fixuid" ∷ "-q" ∷ "app" ∷ [])
fixuid_IsJson = record { bracket = refl; filled = refl; loads-dumps = refl }

quoted : add_fixuid_entrypoint texts (some "'app'") ≡ "'fixuid -q app'"
unfolding add_fixuid_entrypoint parse_entrypoint print_entrypoint join_words
quoted = refl

-- The command of the base image is not taken where the Dockerfile has an entrypoint.
last_stage :
    get_cmd_and_entrypoint texts
      (record { instruction = "FROM"; value = "a" }
        ∷ record { instruction = "CMD"; value = "first" }
        ∷ record { instruction = "FROM"; value = "b" }
        ∷ record { instruction = "ENTRYPOINT"; value = "app" }
        ∷ [])
      (some (record { image_entrypoint = none; image_cmd = some ("sh" ∷ []) }))
    ≡ (none, some "app")
unfolding get_cmd_and_entrypoint entrypoint cmd get_last_instruction last_from
last_stage = refl

remove-add_fixuid_entrypoint_example :
    (add_fixuid_entrypoint texts (some "[app]") ≡ "[fixuid, -q, app]")
    × (add_fixuid_entrypoint texts (some (add_fixuid_entrypoint texts (some "[app]")))
        ≡ add_fixuid_entrypoint texts (some "[app]"))
    × (remove_fixuid_entrypoint texts (some (add_fixuid_entrypoint texts (some "[app]"))) ≡ "[app]")
remove-add_fixuid_entrypoint_example =
    remove-add_fixuid_entrypoint texts ("app" ∷ []) app_IsJson fixuid_IsJson refl
