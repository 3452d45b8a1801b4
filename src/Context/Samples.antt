-- ===== src/Context/Samples.antt =====
-- Two processed files.
use docker_devbox_ddb.Prelude.{String, ◌≡◌, refl, none}
use docker_devbox_ddb.Dict.{lookup}
use docker_devbox_ddb.Context.{Context, reset, mark_as_processed}
use docker_devbox_ddb.Context.Processed.{IsLinked, mark_as_processed-IsLinked}

abbrev start : Context String String
unfolding reset
start = reset

start-IsLinked : IsLinked start
unfolding lookup reset
start-IsLinked = record { inverse = λ s t. (λ p. cc, λ p. cc) }

nothing_processed :
    (lookup "a.jinja" start.processed_sources ≡ none) × (lookup "a" start.processed_targets ≡ none)
unfolding lookup reset
nothing_processed = (refl, refl)

abbrev one : Context String String
one = mark_as_processed "a.jinja" "a" start

mark_as_processed-IsLinked_example : IsLinked one
mark_as_processed-IsLinked_example =
    mark_as_processed-IsLinked "a.jinja" "a" start nothing_processed.0 nothing_processed.1
      start-IsLinked
