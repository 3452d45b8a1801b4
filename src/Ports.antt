-- ===== src/Ports.antt =====
-- ddb/feature/jsonnet/docker.py: the conflicts of published ports of a compose file are resolved. The copy of
-- docker-compose's `ServicePort`, with its parsing and printing, is a parameter, as are its other parts.
pub mod Free
pub mod Distinct
mod Samples
use Prim.Native.String.{len, slice}
use docker_devbox_ddb.Prelude.{
  ℕ, zero, suc, ◌-◌, String, Bool, true, false, not, ◌&&◌, ◌||◌, Option, none, some, List, [], ◌∷◌,
  length, Result, ok, err, ◌>>=◌, ◌==◌, nat_eq, if◌then◌else◌,
}
use docker_devbox_ddb.Bootstrap.{ends_with}

pub record ServicePort (P : Type 0) : Type 0 where
  pub published : Option ℕ
  pub protocol : Option String
  pub rest : P

-- A port of a service: a text, or a dictionary `F`
pub data Port (F : Type 0) : Type 0 where
  text : String → Port F
  fields : F → Port F

-- `ServicePort.parse`, `legacy_repr` and `port['published'] = published`
pub record Compose (P F : Type 0) : Type 0 where
  pub parse : Port F → List (ServicePort P)
  pub legacy_repr : ServicePort P → String
  pub set_published : ℕ → F → F

-- The `TypeError` of `None + 1`, and a loop that has not ended within the fuel
pub data PortError : Type 0 where
  no_number out_of_fuel : PortError

abbrev pub same_protocol : Option String → Option String → Bool
same_protocol none none = true
same_protocol none (some q) = false
same_protocol (some p) none = false
same_protocol (some p) (some q) = p == q

abbrev pub same_published : Option ℕ → Option ℕ → Bool
same_published none none = true
same_published none (some n) = false
same_published (some m) none = false
same_published (some m) (some n) = nat_eq m n

-- `published`, the sets by protocol, as pairs
abbrev pub Used : Type 0
Used = List (Option String × Option ℕ)

-- `new_published in published[protocol]`
unfoldable pub is_used : Option String → Option ℕ → Used → Bool
is_used p n [] = false
is_used p n ((q, m) ∷ used) = (same_protocol p q && same_published n m) || is_used p n used

-- The `while` loop
unfoldable pub next_free : ℕ → Option String → Option ℕ → Used → Result PortError (Option ℕ)
next_free fuel p none used = if is_used p none used then err no_number else ok none
next_free zero p (some n) used = err out_of_fuel
next_free (suc fuel) p (some n) used =
    let rest = next_free fuel p (some (suc n)) used in
    if is_used p (some n) used then rest else ok (some n)

module _ {P F : Type 0} (compose : Compose P F) where
  open compose use {parse, legacy_repr, set_published}

  abbrev pub strip_tcp : Option String → String → String
  strip_tcp (some protocol) repr =
      if protocol == "" && ends_with repr "/tcp" then slice repr 0 (len repr - 4) else repr
  strip_tcp none repr = if ends_with repr "/tcp" then slice repr 0 (len repr - 4) else repr

  -- The port with another published number
  unfoldable pub republish : Port F → ServicePort P → ℕ → Port F
  republish (text port) parsed n =
      text (strip_tcp parsed.protocol (legacy_repr (record parsed { published = some n })))
  republish (fields port) parsed n = fields (set_published n port)

  abbrev pub new_port : Port F → ServicePort P → Option ℕ → Port F
  new_port port parsed none = port
  new_port port parsed (some n) =
      if same_published parsed.published (some n) then port else republish port parsed n

  -- One port that parses to one port; the fuel is one more than the numbers that are used.
  unfoldable pub resolve_single : Used → Port F → ServicePort P → Result PortError (Used × Port F)
  unfolding next_free republish
  resolve_single used port parsed =
      next_free (suc (length used)) parsed.protocol parsed.published used
      >>= (λ n. ok ((parsed.protocol, n) ∷ used, new_port port parsed n))

  unfoldable pub resolve_port :
      Used → Port F → List (ServicePort P) → Result PortError (Used × Port F)
  unfolding resolve_single
  resolve_port used port [] = ok (used, port)
  resolve_port used port (parsed ∷ []) = resolve_single used port parsed
  resolve_port used port (parsed ∷ other ∷ more) = ok (used, port)

  unfoldable pub resolve_ports : Used → List (Port F) → Result PortError (Used × List (Port F))
  unfolding resolve_port
  resolve_ports used [] = ok (used, [])
  resolve_ports used (port ∷ ports) = resolve_port used port (parse port) >>= (λ (used', port').
      resolve_ports used' ports >>= (λ (used'', ports'). ok (used'', port' ∷ ports')))

  -- The loop over the services that have ports
  unfoldable pub resolve_services :
      Used → List (List (Port F)) → Result PortError (Used × List (List (Port F)))
  unfolding resolve_ports
  resolve_services used [] = ok (used, [])
  resolve_services used (ports ∷ services) = resolve_ports used ports >>= (λ (used', ports').
      resolve_services used' services >>= (λ (used'', services'). ok (used'', ports' ∷ services')))

  -- `apply_resolve_ports_conflicts`, with what was published in the end
  unfoldable pub resolve_conflicts :
      List (List (Port F)) → Result PortError (Used × List (List (Port F)))
  unfolding resolve_services
  resolve_conflicts services = resolve_services [] services
