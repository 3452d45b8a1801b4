-- ===== src/Ports/Samples.antt =====
-- Two services with the same port, and ports without a number.
use docker_devbox_ddb.Prelude.{
  ℕ, ◌+◌, ◌≤◌, true, false, Option, none, some, List, [], ◌∷◌, ok, err, ◌==◌, if◌then◌else◌, ◌≡◌,
  ◌⊎◌, refl, arith,
}
use docker_devbox_ddb.Ports.{
  ServicePort, Port, text, fields, Compose, no_number, is_used, next_free, republish,
  resolve_single, resolve_port, resolve_ports, resolve_services, resolve_conflicts,
}
use docker_devbox_ddb.Ports.Free.{next_free-IsFree}

abbrev parsed : Option ℕ → ServicePort ℕ
parsed n = record { published = n; protocol = some "tcp"; rest = 80 }

abbrev compose : Compose ℕ ℕ
compose = record {
  parse = λ port. elim port [
    | text t ↦ (if t == "80" then parsed none ∷ [] else parsed (some 8080) ∷ [])
    | fields n ↦ parsed (some n) ∷ []
  ];
  legacy_repr = λ port. "8081:80/tcp";
  set_published = λ n f. n;
}

abbrev services : List (List (Port ℕ))
services = (fields 8080 ∷ []) ∷ (fields 8080 ∷ text "8080:80" ∷ []) ∷ []

resolved :
    resolve_conflicts compose ((fields 8080 ∷ []) ∷ (text "8080:80" ∷ []) ∷ [])
    ≡ ok (
      (some "tcp", some 8081) ∷ (some "tcp", some 8080) ∷ [],
      (fields 8080 ∷ []) ∷ (text "8081:80/tcp" ∷ []) ∷ [],
    )
unfolding resolve_conflicts resolve_services resolve_ports resolve_port resolve_single republish
    next_free is_used
resolved = refl

without_number : resolve_conflicts compose ((text "80" ∷ text "80" ∷ []) ∷ []) ≡ err no_number
unfolding resolve_conflicts resolve_services resolve_ports resolve_port resolve_single republish
    next_free is_used
without_number = refl

next_free-IsFree_example :
    (m : ℕ) × (next_free 3 none (some 80) ((none, some 80) ∷ (none, some 81) ∷ []) ≡ ok (some m))
    × (is_used none (some m) ((none, some 80) ∷ (none, some 81) ∷ []) ≡ false)
    × (80 ≤ m)
    × (m ≤ 80 + 2)
    × ((is_used none (some 81) ((none, some 80) ∷ (none, some 81) ∷ []) ≡ true) ⊎ (m ≤ 81))
next_free-IsFree_example =
    next_free-IsFree 3 none 80 ((none, some 80) ∷ (none, some 81) ∷ []) 81 (omega arith)
      (omega arith)
