-- ===== src/Main/Load.antt =====
-- ddb/__main__.py: the loading of the registered features, and the registration of their objects.
pub mod Objects
mod Samples
use docker_devbox_ddb.Prelude.{
  Eq, String, Bool, true, false, not, Option, none, List, [], ◌∷◌, ◌++◌, select, Result, ok, err,
  if◌then◌else◌,
}
use docker_devbox_ddb.Prelude.Exec.{Exec, for_each, modify, and_then, ◌>>◌}
use docker_devbox_ddb.Registry.{Registry, RegistryError, ObjectClass, register}

-- `all_objects` of `register_objects`
unfoldable pub objects_of {ℓ} : {F O : Type ℓ} → List F → (F → List O) → List O
objects_of [] objects_getter = []
objects_of (feature ∷ features) objects_getter =
    objects_getter feature ++ objects_of features objects_getter

module _ {A : Type 0} ⦃e : Eq A⦄ (clazz : ObjectClass A) where
  abbrev pub without_object :
      Registry A × Result RegistryError A → Registry A × Result RegistryError (Unit {0})
  without_object (r, ok obj) = (r, ok tt)
  without_object (r, err x) = (r, err x)

  -- `registry.register(obj)`
  unfoldable pub register_object : A → Exec (Registry A) RegistryError Unit
  register_object obj r = without_object (register clazz r obj none)

  -- `register_objects`
  unfoldable pub register_objects :
      {F : Type 0} → List F → (F → List A) → Exec (Registry A) RegistryError Unit
  unfolding register_object
  register_objects features objects_getter =
      for_each register_object (objects_of features objects_getter)

-- The kinds of objects that features provide
pub data Kind : Type 0 where
  phases commands actions binaries services : Kind

-- The calls that loading makes, on features `F`
pub record Loading (F S X : Type 0) : Type 0 where
  pub load_bootstrap_config : Exec S X Unit
  pub all_features : S → List F
  pub before_load : F → Exec S X Unit
  pub configure : F → Exec S X Unit
  pub after_load : F → Exec S X Unit
  pub is_disabled : S → F → Bool
  pub register_all : Kind → List F → Exec S X Unit
  pub clear_config : S → S
  pub is_second_pass : X → Bool

module _ {F S X : Type 0} (loading : Loading F S X) where
  open loading use {
    load_bootstrap_config, all_features, before_load, configure, after_load, is_disabled,
    register_all, clear_config, is_second_pass,
  }

  -- What `except ConfigureSecondPassException` does
  abbrev pub second_pass : List F → S × Result X (Unit {0}) → S × Result X (Unit {0})
  second_pass features (s, ok u) = (s, ok u)
  second_pass features (s, err x) =
      if is_second_pass x
      then (load_bootstrap_config >> for_each configure features) (clear_config s)
      else (s, err x)

  unfoldable pub configure_all : List F → Exec S X Unit
  configure_all features s = second_pass features (for_each configure features s)

  unfoldable pub enabled_features : List F → S → List F
  enabled_features features s = select (λ f. not (is_disabled s f)) features

  abbrev pub register_preloaded : List F → Exec S X Unit
  register_preloaded enabled = register_all phases enabled >> register_all commands enabled

  abbrev pub nothing : Exec S X Unit
  nothing s = (s, ok tt)

  abbrev pub register_enabled : Bool → List F → Exec S X (List F)
  register_enabled preload enabled =
      (if preload then register_preloaded enabled else nothing)
      >> (register_all actions enabled
          >> (register_all binaries enabled
              >> (register_all services enabled
                  >> (for_each after_load enabled >> (λ s. (s, ok enabled))))))

  abbrev pub load_features : Bool → List F → Exec S X (List F)
  load_features preload features =
      for_each before_load features
      >> (configure_all features >> (λ s. register_enabled preload (enabled_features features s) s))

  -- `load_registered_features`
  unfoldable pub load_registered_features : Bool → Exec S X (List F)
  unfolding configure_all enabled_features
  load_registered_features preload =
      (if preload then load_bootstrap_config else nothing)
      >> (λ s. load_features preload (all_features s) s)

  -- `preload_registered_features`
  unfoldable pub preload_registered_features : Exec S X (List F)
  unfolding enabled_features
  preload_registered_features = load_bootstrap_config >> (λ s.
      (register_preloaded (enabled_features (all_features s) s)
          >> (λ t. (t, ok (enabled_features (all_features s) s))))
        s)
