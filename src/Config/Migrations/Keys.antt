-- ===== src/Config/Migrations/Keys.antt =====
-- ddb/config/migrations.py: which keys are left, and what they hold, after the migrations.
use docker_devbox_ddb.Prelude.{
  String, false, none, some, List, [], ◌∷◌, if◌then◌else◌, ◌≡◌, refl, ◌∙◌, All, Option-cases,
  Bool-cases, inl, inr,
}
use docker_devbox_ddb.Config.Value.{Value}
use docker_devbox_ddb.Config.Migrations.{
  Dotty, Migration, verify, migrate_property, migrate, get_new_value, is_none,
}

module _ {C : Type 0} (dotty : Dotty C) where
  open dotty use {
    find, drop, put, Apart, find-put_self, find-put_other, find-drop_self, find-drop_absent,
    find-drop_other,
  }

  -- A step of the migrations
  abbrev step : Migration C → C → C
  step m config = if verify dotty m config then config else migrate_property dotty m config

  step-old :
      (m : Migration C) (config : C)
      → Apart m.new_config_key m.old_config_key
      → find m.old_config_key (step m config) ≡ none
  unfolding verify migrate_property
  step-old m config apart = elim (Option-cases (find m.old_config_key config)) [
    | inl absent ↦ rw absent absent
    | inr (v, there) ↦ elim (Bool-cases (is_none v)) [
      | inl nothing ↦ rw (there, nothing) (find-drop_self m.old_config_key config)
      | inr value ↦
          rw (there, value) (find-put_other _ _ _ _ apart ∙ find-drop_self m.old_config_key config)
    ]
  ]

  step-absent :
      (m : Migration C) (key : String) (config : C)
      → Apart m.new_config_key key
      → find key config ≡ none
      → find key (step m config) ≡ none
  unfolding verify migrate_property
  step-absent m key config apart absent = elim (Option-cases (find m.old_config_key config)) [
    | inl not_there ↦ rw not_there absent
    | inr (v, there) ↦ elim (Bool-cases (is_none v)) [
      | inl nothing ↦ rw (there, nothing) (find-drop_absent m.old_config_key key config absent)
      | inr value ↦
          rw (there, value)
            (find-put_other _ _ _ _ apart ∙ find-drop_absent m.old_config_key key config absent)
    ]
  ]

  migrate-absent :
      (history : List (Migration C)) (key : String) (config : C)
      → All (λ (m : Migration C). Apart m.new_config_key key) history
      → find key config ≡ none
      → find key (migrate dotty history config) ≡ none
  unfolding migrate
  migrate-absent [] key config apart absent = absent
  migrate-absent (m ∷ history) key config apart absent =
      migrate-absent history key (step m config) apart.1 (step-absent m key config apart.0 absent)

  -- Every new key is apart from every old one.
  abbrev pub IsForward : List (Migration C) → Type 0
  IsForward history =
      All
        (λ (o : Migration C).
          All (λ (m : Migration C). Apart m.new_config_key o.old_config_key) history)
        history

  abbrev pub AreGone : List (Migration C) → C → Type 0
  AreGone history config = All (λ (m : Migration C). find m.old_config_key config ≡ none) history

  forward_tail :
      (m : Migration C) (history os : List (Migration C))
      → All
          (λ (o : Migration C).
            All (λ (n : Migration C). Apart n.new_config_key o.old_config_key) (m ∷ history))
          os
      → All
          (λ (o : Migration C).
            All (λ (n : Migration C). Apart n.new_config_key o.old_config_key) history)
          os
  forward_tail m history [] f = tt
  forward_tail m history (o ∷ os) f = (f.0.1, forward_tail m history os f.1)

  -- After the migrations no deprecated key is left, if no new key overlaps a deprecated one.
  pub migrate-AreGone :
      (history : List (Migration C)) (config : C)
      → IsForward history
      → AreGone history (migrate dotty history config)
  unfolding migrate
  migrate-AreGone [] config f = tt
  migrate-AreGone (m ∷ history) config f = (
    migrate-absent history m.old_config_key (step m config) f.0.1 (step-old m config f.0.0),
    migrate-AreGone history (step m config) (forward_tail m history history f.1),
  )

  migrate-gone :
      (history : List (Migration C)) (config : C)
      → AreGone history config
      → migrate dotty history config ≡ config
  unfolding migrate verify
  migrate-gone [] config g = refl
  migrate-gone (m ∷ history) config g = rw g.0 (migrate-gone history config g.1)

  -- Migrating a second time changes nothing, if no new key overlaps a deprecated one.
  pub migrate_idem :
      (history : List (Migration C)) (config : C)
      → IsForward history
      → migrate dotty history (migrate dotty history config) ≡ migrate dotty history config
  migrate_idem history config f =
      migrate-gone history (migrate dotty history config) (migrate-AreGone history config f)

  -- Where both keys have a value, reading the new key through the migration gives its own value,
  -- but migrating puts the transformed value of the deprecated key in its place.
  pub migrate_property_clash :
      (m : Migration C) (config : C) (old new : Value)
      → find m.new_config_key config ≡ some new
      → find m.old_config_key config ≡ some old
      → is_none old ≡ false
      → (get_new_value dotty m config ≡ some new)
        × (find m.new_config_key (migrate_property dotty m config)
            ≡ some (m.transformer old (drop m.old_config_key config)))
  unfolding get_new_value migrate_property
  migrate_property_clash m config old new has_new has_old value =
      rw (has_new, has_old, value) (refl, find-put_self _ _ _)

  -- Where only the deprecated key has a value, and the transformer does not look at the
  -- configuration, reading the new key through the migration gives what migrating puts there.
  pub get_new_value-migrate_property :
      (m : Migration C) (config : C) (old : Value)
      → find m.new_config_key config ≡ none
      → find m.old_config_key config ≡ some old
      → is_none old ≡ false
      → ((c c' : C) → m.transformer old c ≡ m.transformer old c')
      → get_new_value dotty m config ≡ find m.new_config_key (migrate_property dotty m config)
  unfolding get_new_value migrate_property
  get_new_value-migrate_property m config old no_new has_old value same =
      rw (no_new, has_old, value, find-put_self, same config (drop m.old_config_key config)) refl
