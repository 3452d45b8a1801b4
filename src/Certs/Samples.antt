-- ===== src/Certs/Samples.antt =====
-- A server that signs every request, and one domain.
use Prim.Native.String.{◌++◌ as append}
use docker_devbox_ddb.Prelude.{
  String, true, ◌||◌, if◌then◌else◌, ◌==◌, none, [], ◌∷◌, ◌++◌, ok, ◌≡◌, refl,
}
use docker_devbox_ddb.Dict.{lookup, insert, remove}
use docker_devbox_ddb.Certs.{Certs, Authority, tell, remove_cert, remove_cfssl}
use docker_devbox_ddb.Certs.Rounds.{
  full_response, removal_events, generated_state, remove_cert-gone,
}

abbrev authority : Authority String
authority = record {
  is_cfssl = true;
  private_key_name = λ output. append output ".key";
  certificate_name = λ output. append output ".pem";
  at_destination = append "certs/";
  new_cert = λ domain hosts. ok (full_response "key" "cert");
  validate_checksums = λ response. ok tt;
  certificate_text = λ text response. ok (append text "+ca");
  key_error = "KeyError";
}

abbrev before : Certs
before = record { files = ("README", "text") ∷ []; told = [] }

abbrev after : Certs
after = generated_state authority "ddb.test" true "key" "cert+ca" before

removed_files : (remove_cert authority "ddb.test" after).files ≡ ("README", "text") ∷ []
unfolding remove_cert remove_cfssl tell insert remove lookup
removed_files = refl

remove_cert-gone_example :
    ((path : String)
      → lookup path (remove_cert authority "ddb.test" after).files ≡ (
          if "certs/ddb.test.pem" == path || "certs/ddb.test.key" == path
          then none
          else lookup path after.files))
    × ((remove_cert authority "ddb.test" after).told
        ≡ after.told ++ removal_events "ddb.test" "certs/ddb.test.pem" true true)
unfolding lookup insert
remove_cert-gone_example = remove_cert-gone authority "ddb.test" after refl
