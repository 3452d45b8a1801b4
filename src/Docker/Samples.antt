-- ===== src/Docker/Samples.antt =====
-- Two mapped directories, one inside the other.
use text.Mathlib.Text.{starts_with}
use docker_devbox_ddb.Prelude.{String, false, [], ◌∷◌, ◌==◌, if◌then◌else◌, ◌≡◌, refl, ◌⊎◌}
use docker_devbox_ddb.Dict.{Dict}
use docker_devbox_ddb.Docker.{Mapped, get_mapped_path, map_sources, map_source}
use docker_devbox_ddb.Docker.Longest.{IsMapping, IsFrom, IsLongest, get_mapped_path-IsLongest}

abbrev path_mapping : Dict String
path_mapping = ("/home", "/c/Users") ∷ ("/home/me/project", "/d/project") ∷ []

longest_wins : get_mapped_path path_mapping "/home/me/project/ddb.yml" ≡ "/d/project/ddb.yml"
unfolding get_mapped_path map_sources map_source
longest_wins = refl

get_mapped_path-IsLongest_example :
    (((s t : String) → IsMapping path_mapping s t → starts_with "/home/a" s ≡ false)
      × (get_mapped_path path_mapping "/home/a" ≡ "/home/a"))
    ⊎ ((m : Mapped) × IsFrom "/home/a" path_mapping m
        × IsLongest "/home/a" path_mapping m
        × (get_mapped_path path_mapping "/home/a" ≡ (if m.path == "" then "/home/a" else m.path)))
get_mapped_path-IsLongest_example = get_mapped_path-IsLongest "/home/a" path_mapping
