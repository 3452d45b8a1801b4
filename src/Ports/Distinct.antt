-- ===== src/Ports/Distinct.antt =====
-- ddb/feature/jsonnet/docker.py: no number is published twice for a protocol.
use docker_devbox_ddb.Prelude.{ℕ, false, some, List, [], ◌∷◌, All, ◌≡◌}
use docker_devbox_ddb.Ports.{ServicePort, Port, Compose, Used, is_used}

-- Each number is not used for its protocol before.
abbrev pub HasNoConflict : Used → Type 0
HasNoConflict [] = Unit
HasNoConflict ((p, n) ∷ used) = (is_used p n used ≡ false) × HasNoConflict used

-- A port that parses to one port has a number.
abbrev pub IsNumbered : {P : Type 0} → List (ServicePort P) → Type 0
IsNumbered [] = Unit
IsNumbered (parsed ∷ []) = (n : ℕ) × (parsed.published ≡ some n)
IsNumbered (parsed ∷ other ∷ more) = Unit

module _ {P F : Type 0} (compose : Compose P F) where
  abbrev pub AreNumbered : List (Port F) → Type 0
  AreNumbered ports = All (λ port. IsNumbered (compose.parse port)) ports
