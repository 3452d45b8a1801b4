-- ===== src/Docker.antt =====
-- ddb/feature/docker/utils.py, `get_mapped_path`: the path of a file as the docker host sees it.
pub mod Longest
mod Samples
use Prim.Native.String.{◌++◌, len, count, slice}
use text.Mathlib.Text.{starts_with}
use docker_devbox_ddb.Prelude.{
  String, Bool, true, false, ◌&&◌, ◌||◌, Option, none, some, [], ◌∷◌, ◌==◌, if◌then◌else◌, ltb,
}
use docker_devbox_ddb.Dict.{Dict}

-- `fixed_source_path` and `fixed_path`
pub record Mapped : Type 0 where
  pub source : String
  pub path : String

-- `not fixed_source_path or len(source_path) > len(fixed_source_path)`
abbrev pub is_longer : String → Option Mapped → Bool
is_longer source none = true
is_longer source (some fixed) = fixed.source == "" || ltb (count fixed.source) (count source)

-- One round of the loop. `path[len(source_path):]` of a path that starts with it is cut by bytes.
unfoldable pub map_source : String → String → String → Option Mapped → Option Mapped
map_source path source target fixed =
    if starts_with path source && is_longer source fixed
    then some (record { source = source; path = target ++ slice path (len source) (len path) })
    else fixed

unfoldable pub map_sources : String → Dict String → Option Mapped → Option Mapped
unfolding map_source
map_sources path [] fixed = fixed
map_sources path ((source, target) ∷ mapping) fixed =
    map_sources path mapping (map_source path source target fixed)

-- `fixed_path if fixed_path else path`
abbrev pub mapped_or : String → Option Mapped → String
mapped_or path none = path
mapped_or path (some fixed) = if fixed.path == "" then path else fixed.path

-- `get_mapped_path`, with `docker.path_mapping` as an argument
unfoldable pub get_mapped_path : Dict String → String → String
unfolding map_sources
get_mapped_path mapping path = mapped_or path (map_sources path mapping none)
