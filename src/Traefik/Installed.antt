-- ===== src/Traefik/Installed.antt =====
-- ddb/feature/traefik/actions.py: what is installed for a domain is uninstalled.
use docker_devbox_ddb.Prelude.{
  String, Bool, false, ◌||◌, none, some, ok, if◌then◌else◌, ◌≡◌, refl, ◌∙◌, arith, ◌==◌, eq_iff,
  eq_refl, Option-cases, inl, inr,
}
use docker_devbox_ddb.Dict.{Dict, lookup, insert, lookup-insert, lookup-remove}
use docker_devbox_ddb.Traefik.{
  Settings, copy_if_different, private_key_target, certificate_target, config_target, ssl_config_of,
  install, remove_existing, uninstall,
}

lookup-remove_existing :
    (settings : Settings) (file : String) (files : Dict String) (path : String)
    → lookup path (remove_existing settings file files)
      ≡ (if file == path then none else lookup path files)
lookup-remove_existing settings file files path = elim (Option-cases (lookup file files)) [
  | inl absent ↦ rw absent (ground (arith, eq_iff file path))
  | inr (text, there) ↦ rw there (lookup-remove file files path)
]

module _ (settings : Settings) where
  -- The three files of a domain
  abbrev pub is_of_domain : String → String → Bool
  is_of_domain domain path =
      certificate_target settings domain == path
      || private_key_target settings domain == path
      || config_target settings domain == path

  lookup-uninstall :
      (domain : String) (files : Dict String) (path : String)
      → lookup path (uninstall settings domain files)
        ≡ (if is_of_domain domain path then none else lookup path files)
  unfolding uninstall
  lookup-uninstall domain files path =
      let config = config_target settings domain in
      let key = private_key_target settings domain in
      let f1 = remove_existing settings config files in
      let f2 = remove_existing settings key f1 in
      lookup-remove_existing settings (certificate_target settings domain) f2 path
      ∙ ground (
        arith,
        lookup-remove_existing settings key f1 path,
        lookup-remove_existing settings config files path,
      )

  -- Installing a certificate and a private key that are there, and are none of the three files of the domain,
  -- does not raise and leaves the copies and the configuration, when the three files are three; and uninstalling
  -- the domain then takes just these three files away and keeps every other one as it was.
  pub uninstall-install :
      (domain private_key certificate key_text text : String) (files : Dict String)
      → lookup private_key files ≡ some key_text
      → lookup certificate files ≡ some text
      → is_of_domain domain certificate ≡ false
      → (certificate_target settings domain == private_key_target settings domain) ≡ false
      → (config_target settings domain == private_key_target settings domain) ≡ false
      → (config_target settings domain == certificate_target settings domain) ≡ false
      → (installed : Dict String) × (install settings domain private_key certificate files
          ≡ (installed, ok tt))
        × (lookup (private_key_target settings domain) installed ≡ some key_text)
        × (lookup (certificate_target settings domain) installed ≡ some text)
        × (lookup (config_target settings domain) installed ≡ some (ssl_config_of settings domain))
        × ((path : String)
            → lookup path (uninstall settings domain installed)
              ≡ (if is_of_domain domain path then none else lookup path files))
  unfolding install copy_if_different
  uninstall-install domain private_key certificate key_text text files k c n d e f =
      let key = private_key_target settings domain in
      let crt = certificate_target settings domain in
      let config = config_target settings domain in
      let f1 = insert key key_text files in
      let f2 = insert crt text f1 in
      let installed = insert config (ssl_config_of settings domain) f2 in
      let read : lookup certificate f1 ≡ some text =
        ground (arith, lookup-insert key key_text files certificate) in
      (
        installed,
        rw (k, read) refl,
        ground (
          arith,
          lookup-insert config (ssl_config_of settings domain) f2 key,
          lookup-insert crt text f1 key,
          lookup-insert key key_text files key,
          eq_refl key,
        ),
        ground (
          arith,
          lookup-insert config (ssl_config_of settings domain) f2 crt,
          lookup-insert crt text f1 crt,
          eq_refl crt,
        ),
        ground
            (arith, lookup-insert config (ssl_config_of settings domain) f2 config, eq_refl config),
        (λ path.
            lookup-uninstall domain installed path
            ∙ ground (
              arith,
              lookup-insert config (ssl_config_of settings domain) f2 path,
              lookup-insert crt text f1 path,
              lookup-insert key key_text files path,
            )),
      )
