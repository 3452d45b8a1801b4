-- ===== src/Templates/Samples.antt =====
-- Two templates of one target.
use docker_devbox_ddb.Prelude.{
  ◌<◌, String, Bool, true, false, some, [], ◌∷◌, contains, ◌==◌, if◌then◌else◌, eq_string, ◌≡◌,
  refl,
}
use docker_devbox_ddb.Dict.{Dict, lookup, has_key}
use docker_devbox_ddb.Templates.{
  Finder, index, try_suffixes, target_of_parts, get_target_and_suffix, get_target,
}
use docker_devbox_ddb.Templates.Priority.{get_target-index-lt}

abbrev finder : Finder
finder = record {
  suffixes = ".dev" ∷ ".jinja" ∷ [];
  skip_processed_sources = true;
  skip_processed_targets = true;
}

abbrev splitext : String → String × String
splitext path = if path == "conf.dev.yml" then ("conf.dev", ".yml") else ("conf.jinja", ".yml")

abbrev nothing_filtered : String → Bool
nothing_filtered path = false

abbrev sources : Dict String
sources = ("conf.jinja.yml", "conf.yml") ∷ []

abbrev targets : Dict String
targets = ("conf.yml", "conf.jinja.yml") ∷ []

dev_wins :
    get_target splitext nothing_filtered finder sources targets true "conf.dev.yml"
    ≡ some "conf.yml"
unfolding get_target get_target_and_suffix target_of_parts try_suffixes contains lookup index
dev_wins = refl

get_target-index-lt_example :
    (has_key "conf.dev.yml" sources ≡ false)
    × (suffix : String) × (get_target_and_suffix splitext nothing_filtered "conf.dev.yml"
          finder.suffixes
        ≡ some ("conf.yml", suffix))
    × ((previous : String)
        → lookup "conf.yml" targets ≡ some previous
        → (old : String × String) × (get_target_and_suffix splitext nothing_filtered previous
              finder.suffixes
            ≡ some old)
          × (contains finder.suffixes old.1 ≡ true)
          × (index finder.suffixes suffix < index finder.suffixes old.1))
get_target-index-lt_example =
    get_target-index-lt splitext nothing_filtered finder sources targets true "conf.dev.yml"
      "conf.yml" refl refl dev_wins
