-- ===== src/Templates/Priority.antt =====
-- ddb/utils/file.py, `TemplateFinder.get_target`: which template makes a target that two of them have.
use docker_devbox_ddb.Prelude.{
  ◌<◌, String, Bool, true, false, ◌&&◌, Option, none, some, contains, eq_string, ◌≡◌, refl, ◌∙◌,
  sym, ap, Bool-cases, inl, inr, arith,
}
use docker_devbox_ddb.Dict.{Dict, lookup, has_key}
use docker_devbox_ddb.Templates.{
  Finder, index, keeps_previous, get_target_and_suffix, is_taken, free_target, get_target,
}

module _ (splitext : String → String × String) (is_source_filtered : String → Bool)
    (finder : Finder) where
  keeps_previous-false :
      (suffix : String) (found : Option (String × String))
      → keeps_previous finder.suffixes suffix found ≡ false
      → (old : String × String) × (found ≡ some old)
        × (contains finder.suffixes old.1 ≡ true)
        × (index finder.suffixes suffix < index finder.suffixes old.1)
  keeps_previous-false suffix none h = absurd (ground arith)
  keeps_previous-false suffix (some (target, old)) h =
      ((target, old), refl, ground arith, ground arith)

  free_target-some :
      (processed : Dict String) (found : Option (String × String)) (target : String)
      → free_target splitext is_source_filtered finder processed found ≡ some target
      → (suffix : String) × (found ≡ some (target, suffix))
        × ((finder.skip_processed_targets
              && is_taken splitext is_source_filtered finder suffix (lookup target processed))
            ≡ false)
  free_target-some processed none target h = absurd (ground arith)
  free_target-some processed (some (t, suffix)) target h =
      let taken =
        finder.skip_processed_targets
        && is_taken splitext is_source_filtered finder suffix (lookup t processed) in
      elim (Bool-cases taken) [
        | inl yes_taken ↦
            let gone : free_target splitext is_source_filtered finder processed (some (t, suffix))
                ≡ none =
              rw yes_taken refl in
            absurd (ground arith)
        | inr free ↦
            let made : free_target splitext is_source_filtered finder processed (some (t, suffix))
                ≡ some t =
              rw free refl in
            let same : t ≡ target = ground arith in
            (
              suffix,
              ap (λ (x : String). some (x, suffix)) same,
              ap
                    (λ (x : String).
                      finder.skip_processed_targets
                      && is_taken splitext is_source_filtered finder suffix (lookup x processed))
                    (sym same)
                  ∙ free,
            )
      ]

  get_target-some :
      (sources targets : Dict String) (check : Bool) (source target : String)
      → get_target splitext is_source_filtered finder sources targets check source ≡ some target
      → ((finder.skip_processed_sources && has_key source sources) ≡ false)
        × (free_target splitext is_source_filtered finder targets
              (get_target_and_suffix splitext is_source_filtered source finder.suffixes)
            ≡ some target)
  unfolding get_target
  get_target-some sources targets check source target h =
      elim (Bool-cases (check && is_source_filtered source)) [
        | inl filtered ↦
            let gone : get_target splitext is_source_filtered finder sources targets check source
                ≡ none =
              rw filtered refl in
            absurd (ground arith)
        | inr passed ↦ elim (Bool-cases (finder.skip_processed_sources && has_key source sources)) [
          | inl skipped ↦
              let gone : get_target splitext is_source_filtered finder sources targets check source
                  ≡ none =
                rw (passed, skipped) refl in
              absurd (ground arith)
          | inr new ↦
              let made : get_target splitext is_source_filtered finder sources targets check source
                  ≡ free_target splitext is_source_filtered finder targets
                      (get_target_and_suffix splitext is_source_filtered source finder.suffixes) =
                rw (passed, new) refl in
              (new, sym made ∙ h)
        ]
      ]

  -- When processed sources and targets are skipped, a source that is given a target was not processed
  -- and matches a suffix; and if another source has made this target, that one matches a suffix that
  -- stands behind the first one in the list of suffixes.
  pub get_target-index-lt :
      (sources targets : Dict String) (check : Bool) (source target : String)
      → finder.skip_processed_sources ≡ true
      → finder.skip_processed_targets ≡ true
      → get_target splitext is_source_filtered finder sources targets check source ≡ some target
      → (has_key source sources ≡ false)
        × (suffix : String) × (get_target_and_suffix splitext is_source_filtered source
              finder.suffixes
            ≡ some (target, suffix))
        × ((previous : String)
            → lookup target targets ≡ some previous
            → (old : String × String) × (get_target_and_suffix splitext is_source_filtered previous
                  finder.suffixes
                ≡ some old)
              × (contains finder.suffixes old.1 ≡ true)
              × (index finder.suffixes suffix < index finder.suffixes old.1))
  get_target-index-lt sources targets check source target skip_sources skip_targets h =
      let (new, free) = get_target-some sources targets check source target h in
      let (suffix, found, kept) =
        free_target-some targets
          (get_target_and_suffix splitext is_source_filtered source finder.suffixes) target free in
      (
        sym (ap (λ (b : Bool). b && has_key source sources) skip_sources) ∙ new,
        suffix,
        found,
        λ previous held.
            keeps_previous-false suffix
              (get_target_and_suffix splitext is_source_filtered previous finder.suffixes)
              (ap (is_taken splitext is_source_filtered finder suffix) (sym held)
                ∙ sym (
                    ap
                      (λ (b : Bool).
                        b
                        && is_taken splitext is_source_filtered finder suffix
                            (lookup target targets))
                      skip_targets)
                ∙ kept),
      )
