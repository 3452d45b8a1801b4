-- ===== src/Shell/Samples.antt =====
-- Two directories for shims, and three environments.
use text.Mathlib.Text.{starts_with}
use docker_devbox_ddb.Prelude.{String, true, false, some, List, [], ◌∷◌, err, ◌≡◌, refl}
use docker_devbox_ddb.Dict.{lookup}
use docker_devbox_ddb.Shell.{
  OsPath, is_allowed, absolute, first_allowed, get_shims_path, start_activation, check_activated,
  is_activated,
}
use Prim.Native.String.{◌++◌}

abbrev posix : OsPath
posix = record { is_absolute = λ p. starts_with p "/"; join = λ a b. a ++ ("/" ++ b) }

abbrev directories : List String
directories = ".bin" ∷ "/home/me/.docker-devbox/bin" ∷ []

local_shims :
    get_shims_path posix directories "/home/me/.docker-devbox" "/home/me/app" false
    ≡ some "/home/me/app/.bin"
unfolding get_shims_path first_allowed absolute is_allowed
local_shims = refl

global_shims :
    get_shims_path posix directories "/home/me/.docker-devbox" "/home/me/app" true
    ≡ some "/home/me/.docker-devbox/bin"
unfolding get_shims_path first_allowed absolute is_allowed
global_shims = refl

activated_twice :
    start_activation
      (("DDB_PROJECT_HOME", "/home/me/app") ∷ [])
      "DDB_PROJECT_HOME"
      "/home/me/app"
      (some false)
    ≡ err is_activated
unfolding start_activation check_activated lookup
activated_twice = refl
