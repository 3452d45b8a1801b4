-- ===== src/Traefik.antt =====
-- ddb/feature/traefik/actions.py: the files that a certificate has in the configuration of traefik, and the
-- extra services. Files are held by their texts; the template engine is a parameter.
pub mod Installed
mod Samples
use Prim.Native.String.{◌++◌ as append}
use docker_devbox_ddb.Prelude.{
  String, Bool, true, false, not, ◌&&◌, Option, none, some, List, [], ◌∷◌, ◌++◌, Result, ok, err,
  ◌==◌, if◌then◌else◌,
}
use docker_devbox_ddb.Prelude.Exec.{Exec, modify, ◌>>◌}
use docker_devbox_ddb.Dict.{Dict, lookup, insert, remove, has_key}

-- The directories of the configuration, `os.path.join`, and the template, for the paths of the certificate
-- and the key as traefik sees them
pub record Settings : Type 0 where
  pub certs_directory : String
  pub mapped_certs_directory : String
  pub config_directory : String
  pub join : String → String → String
  pub ssl_config : String → String → String

-- The `TypeError` of writing the data of a source that is not there
pub data TraefikError : Type 0 where
  no_data : TraefikError

abbrev pub copy_text : String → Option String → Option String → Exec (Dict String) TraefikError Unit
copy_text target none none files = (files, ok tt)
copy_text target none (some old) files = (insert target "" files, err no_data)
copy_text target (some text) old files = (insert target text files, ok tt)

-- `copy_if_different(source, target)`
unfoldable pub copy_if_different : String → String → Exec (Dict String) TraefikError Unit
copy_if_different source target files =
    copy_text target (lookup source files) (lookup target files) files

module _ (settings : Settings) where
  open settings use {certs_directory, mapped_certs_directory, config_directory, join, ssl_config}

  abbrev pub private_key_target : String → String
  private_key_target domain = join certs_directory (append domain ".key")

  abbrev pub certificate_target : String → String
  certificate_target domain = join certs_directory (append domain ".crt")

  abbrev pub config_target : String → String
  config_target domain = join config_directory (append domain ".ssl.toml")

  abbrev pub ssl_config_of : String → String
  ssl_config_of domain =
      ssl_config (append mapped_certs_directory (append "/" (append domain ".crt")))
        (append mapped_certs_directory (append "/" (append domain ".key")))

  -- `TraefikInstalllCertsAction.execute`
  unfoldable pub install : String → String → String → Exec (Dict String) TraefikError Unit
  unfolding copy_if_different
  install domain private_key certificate =
      copy_if_different private_key (private_key_target domain)
      >> (copy_if_different certificate (certificate_target domain)
          >> modify (insert (config_target domain) (ssl_config_of domain)))

  -- `if os.path.exists(file): force_remove(file)`
  abbrev pub remove_existing : String → Dict String → Dict String
  remove_existing file files = if has_key file files then remove file files else files

  -- `TraefikUninstalllCertsAction.execute`
  unfoldable pub uninstall : String → Dict String → Dict String
  uninstall domain files =
      remove_existing (certificate_target domain)
        (remove_existing (private_key_target domain) (remove_existing (config_target domain) files))
