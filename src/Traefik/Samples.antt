-- ===== src/Traefik/Samples.antt =====
-- A domain with its certificate and key.
use Prim.Native.String.{◌++◌ as append}
use docker_devbox_ddb.Prelude.{String, some, none, [], ◌∷◌, ok, err, if◌then◌else◌, ◌≡◌, refl}
use docker_devbox_ddb.Dict.{Dict, lookup}
use docker_devbox_ddb.Traefik.{
  Settings, no_data, copy_if_different, private_key_target, certificate_target, config_target,
  ssl_config_of, install, uninstall,
}
use docker_devbox_ddb.Traefik.Installed.{is_of_domain, uninstall-install}

abbrev settings : Settings
settings = record {
  certs_directory = "certs";
  mapped_certs_directory = "/certs";
  config_directory = "config";
  join = λ a b. append a (append "/" b);
  ssl_config = λ certificate key. append certificate key;
}

abbrev files : Dict String
files = ("a.pem", "cert") ∷ ("a.key", "key") ∷ []

missing_source :
    (install settings "ddb.test" "no" "a.pem" (("certs/ddb.test.key", "old") ∷ [])).1 ≡ err no_data
unfolding install copy_if_different lookup
missing_source = refl

uninstall-install_example :
    (installed : Dict String) × (install settings "ddb.test" "a.key" "a.pem" files
      ≡ (installed, ok tt))
    × (lookup (private_key_target settings "ddb.test") installed ≡ some "key")
    × (lookup (certificate_target settings "ddb.test") installed ≡ some "cert")
    × (lookup (config_target settings "ddb.test") installed
        ≡ some (ssl_config_of settings "ddb.test"))
    × ((path : String)
        → lookup path (uninstall settings "ddb.test" installed)
          ≡ (if is_of_domain settings "ddb.test" path then none else lookup path files))
unfolding lookup
uninstall-install_example =
    uninstall-install settings "ddb.test" "a.key" "a.pem" "key" "cert" files refl refl refl refl
      refl refl
