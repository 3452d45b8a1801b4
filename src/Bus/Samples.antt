-- ===== src/Bus/Samples.antt =====
-- A bus with numbers for listeners, each of which writes down what it hears; listener 9 raises.
use docker_devbox_ddb.Prelude.{
  ℕ, String, false, some, List, [], ◌∷◌, ◌++◌, eq_nat, contains, ok, err, if◌then◌else◌, ◌≡◌, refl,
  nat_eq,
}
use docker_devbox_ddb.Prelude.Exec.{Exec}
use docker_devbox_ddb.Dict.{lookup, insert}
use docker_devbox_ddb.Bus.{Bus, on, off, emit, Calls, listeners_of, on_name}
use docker_devbox_ddb.Bus.Laws.{audience, audience-off-on}

abbrev note : ℕ → Exec (List ℕ) String (Unit {0})
note l heard = if nat_eq l 9 then (heard, err "nine") else (heard ++ l ∷ [], ok tt)

abbrev noting : Calls ℕ ℕ (List ℕ) String
noting = record { named = λ l p. note l; any = λ l name p. note l }

abbrev bus : Bus ℕ
bus = record { named_listeners = ("start", 1 ∷ 2 ∷ []) ∷ []; listeners = 7 ∷ [] }

emit_start : emit noting bus "start" 0 [] ≡ (1 ∷ 2 ∷ 7 ∷ [], ok tt)
unfolding emit listeners_of lookup
emit_start = refl

emit_stops : emit noting (on bus (some "start") 9) "start" 0 [] ≡ (1 ∷ 2 ∷ [], err "nine")
unfolding emit listeners_of on on_name lookup insert
emit_stops = refl

no_three : contains (listeners_of bus "start") 3 ≡ false
unfolding contains listeners_of lookup
no_three = refl

audience-off-on_example :
    ((off (on bus (some "start") 3) (some "start") 3).1 ≡ ok tt)
    × ((j : String)
        → audience (off (on bus (some "start") 3) (some "start") 3).0 j ≡ audience bus j)
audience-off-on_example = audience-off-on bus "start" 3 refl no_three
