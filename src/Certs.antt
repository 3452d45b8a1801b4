-- ===== src/Certs.antt =====
-- ddb/feature/certs/actions.py: the certificates of domains, made by a cfssl server and removed. Files are held
-- by their texts. What listeners of the events do is not part of it: the events are noted in their order.
pub mod Rounds
mod Samples
use Prim.Native.String.{◌++◌ as append}
use docker_devbox_ddb.Prelude.{
  String, Bool, true, false, not, ◌&&◌, ◌||◌, Option, none, some, List, [], ◌∷◌, ◌++◌, map, Result,
  ok, err, if◌then◌else◌,
}
use docker_devbox_ddb.Prelude.Exec.{Exec, modify, raise, ◌>>◌, ◌>>=◌}
use docker_devbox_ddb.Dict.{Dict, lookup, insert, remove, has_key, values}

pub data Event : Type 0 where
  file_generated file_deleted certs_removed : String → Event
  certs_generated certs_available :
      (domain : String) (wildcard : Bool) (private_key certificate : String) → Event

pub record Certs : Type 0 where
  pub files : Dict String
  pub told : List Event

-- What the server answers: the private key and the certificate, where it has them
pub record Response : Type 0 where
  pub private_key : Option String
  pub certificate : Option String

-- The file names of the configuration and its destination, the server behind the client, the checks of sums, and
-- the text of the certificate that is written, to which the server's own may be added
pub record Authority (X : Type 0) : Type 0 where
  pub is_cfssl : Bool
  pub private_key_name : String → String
  pub certificate_name : String → String
  pub at_destination : String → String
  pub new_cert : String → List String → Result X Response
  pub validate_checksums : Response → Result X (Unit {0})
  pub certificate_text : String → Response → Result X String
  pub key_error : X

unfoldable pub tell : Event → Certs → Certs
tell event s = record s { told = s.told ++ event ∷ [] }

module _ {X : Type 0} (authority : Authority X) where
  open authority use {
    is_cfssl, private_key_name, certificate_name, at_destination, new_cert, validate_checksums,
    certificate_text, key_error,
  }

  -- `(domain, "*.%s" % domain) if wildcard else domain`
  abbrev pub hosts : String → Bool → List String
  hosts domain true = domain ∷ append "*." domain ∷ []
  hosts domain false = domain ∷ []

  abbrev pub lift : {A : Type 0} → Result X A → Exec Certs X A
  lift r s = (s, r)

  abbrev pub tell_all : List Event → Exec Certs X Unit
  tell_all events s = (record s { told = s.told ++ events }, ok tt)

  -- The pair of paths behind `generated['private_key'], generated['certificate']`
  abbrev pub paths_of : Option String → Option String → Result X (String × String)
  paths_of (some private_key) (some certificate) = ok (private_key, certificate)
  paths_of (some private_key) none = err key_error
  paths_of none certificate = err key_error

  -- `get_certs_path`: the paths of the certificate and of the private key
  abbrev pub get_certs_path : String → String × String
  get_certs_path output =
      (at_destination (certificate_name output), at_destination (private_key_name output))

  abbrev pub write_file : String → String → Certs → Certs
  write_file path text s = record s { files = insert path text s.files }

  abbrev pub write_private_key : String → Option String → Exec Certs X (Dict String)
  write_private_key output none s = (s, ok [])
  write_private_key output (some text) s =
      let path = at_destination (private_key_name output) in
      (write_file path text s, ok (("private_key", path) ∷ []))

  abbrev pub write_checked : String → Dict String → Result X String → Exec Certs X (Dict String)
  write_checked output generated (err x) s = (s, err x)
  write_checked output generated (ok text) s =
      let path = at_destination (certificate_name output) in
      (write_file path text s, ok (generated ++ ("certificate", path) ∷ []))

  abbrev pub write_certificate :
      String → Response → Option String → Dict String → Exec Certs X (Dict String)
  write_certificate output response none generated s = (s, ok generated)
  write_certificate output response (some text) generated s =
      write_checked output generated (certificate_text text response) s

  -- `write_files` without `der` and `csr`: the paths that were written, by their roles
  unfoldable pub write_files : Response → String → Exec Certs X (Dict String)
  write_files response output =
      write_private_key output response.private_key
      >>= write_certificate output response response.certificate

  -- A new certificate: the answer is `private_key_path` and `certificate_path`.
  unfoldable pub new_certificate : String → Bool → Exec Certs X (String × String)
  unfolding tell write_files
  new_certificate domain wildcard = lift (new_cert domain (hosts domain wildcard)) >>= (λ response.
      lift (validate_checksums response)
      >> (write_files response domain >>= (λ generated.
          tell_all (map (λ path. file_generated path) (values generated))
          >> (lift (paths_of (lookup "private_key" generated) (lookup "certificate" generated))
              >>= (λ (private_key, certificate).
                  modify (tell (certs_generated domain wildcard certificate private_key))
                  >> lift (ok (private_key, certificate)))))))

  abbrev pub both_there : String × String → Certs → Bool
  both_there (certificate, private_key) s =
      has_key certificate s.files && has_key private_key s.files

  -- `generate_cfssl`
  unfoldable pub generate_cfssl : String → Bool → Exec Certs X Unit
  unfolding new_certificate
  generate_cfssl domain wildcard s =
      let (certificate, private_key) = get_certs_path domain in
      ((if both_there (get_certs_path domain) s
            then lift (ok (private_key, certificate))
            else new_certificate domain wildcard)
          >>= (λ (key, cert). modify (tell (certs_available domain wildcard key cert))))
        s

  -- `GenerateCertAction.execute`
  unfoldable pub generate : String → Bool → Exec Certs X Unit
  unfolding generate_cfssl
  generate domain wildcard s = if is_cfssl then generate_cfssl domain wildcard s else (s, ok tt)

  -- One of the two tests of `remove_cfssl`: the file goes, and the event has the certificate's path.
  abbrev pub remove_file : String → String → Certs → Certs
  remove_file path certificate s =
      if has_key path s.files
      then tell (file_deleted certificate) (record s { files = remove path s.files })
      else s

  -- `remove_cfssl`
  unfoldable pub remove_cfssl : String → Certs → Certs × Bool
  unfolding tell
  remove_cfssl domain s =
      let (certificate, private_key) = get_certs_path domain in
      let s1 = remove_file certificate certificate s in
      let s2 = remove_file private_key certificate s1 in
      (s2, has_key certificate s.files || has_key private_key s1.files)

  -- `RemoveCertAction.execute`
  unfoldable pub remove_cert : String → Certs → Certs
  unfolding remove_cfssl
  remove_cert domain s =
      let (s', removed) = remove_cfssl domain s in
      if removed then tell (certs_removed domain) s' else s'
