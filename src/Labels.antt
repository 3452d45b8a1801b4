-- ===== src/Labels.antt =====
-- ddb/feature/docker/actions.py, `EmitDockerComposeConfigAction`: the events that the labels of a service stand
-- for, and the certificates that are no longer asked for. The patterns, the methods of Python's texts and the
-- vendored `simple_eval` are parameters.
pub mod Grouped
pub mod Domains
mod Samples
use Prim.Native.String.{◌++◌ as append}
use docker_devbox_ddb.Prelude.{
  String, Bool, true, false, not, Option, none, some, List, [], ◌∷◌, ◌++◌, contains, select, Result,
  ok, err, ◌>>=◌, ◌==◌, if◌then◌else◌, eq_string,
}
use docker_devbox_ddb.Prelude.Exec.{Exec, for_each}
use docker_devbox_ddb.Dict.{Dict, lookup, insert, keys}
use docker_devbox_ddb.Cache.{Cache, set, pop}

-- The groups of a label's key: the event, an identifier, and a property
pub record Key : Type 0 where
  pub event_name : String
  pub event_id : Option String
  pub property_name : Option String

-- `"=" in expression` with `expression.split("=", 1)`, and the parts of `value.split("|")` that are stripped
pub record Reader (V X : Type 0) : Type 0 where
  pub match_key : String → Option Key
  pub is_keyword : String → Bool
  pub split_values : String → List String
  pub split_assignment : String → Option (String × String)
  pub eval_match : String → Option String
  pub simple_eval : String → Result X V
  pub text_value : String → V

-- Positional and named arguments
pub record Arguments (V : Type 0) : Type 0 where
  pub args : List V
  pub kwargs : Dict V

-- The arguments of an event by its identifier, and those of all events by their names
abbrev pub Calls : Type 0 → Type 0
Calls V = List (Option String × Arguments V)

abbrev pub same_id : Option String → Option String → Bool
same_id none none = true
same_id none (some b) = false
same_id (some a) none = false
same_id (some a) (some b) = a == b

module _ {V : Type 0} where
  -- `d.update(items)`
  unfoldable pub update : Dict V → Dict V → Dict V
  update d [] = d
  update d ((key, value) ∷ items) = update (insert key value d) items

  abbrev pub no_arguments : Arguments V
  no_arguments = record { args = []; kwargs = [] }

  -- `args.append(val)`, or `kwargs[var] = val` for a name that is not empty
  abbrev pub add_value : Option String → V → Arguments V → Arguments V
  add_value none value a = record a { args = a.args ++ value ∷ [] }
  add_value (some var) value a =
      if var == ""
      then record a { args = a.args ++ value ∷ [] }
      else record a { kwargs = insert var value a.kwargs }

  abbrev pub merge : Arguments V → Arguments V → Arguments V
  merge a b = record { args = a.args ++ b.args; kwargs = update a.kwargs b.kwargs }

  -- The calls of an event with those of one more label
  unfoldable pub add_call : Option String → Arguments V → Calls V → Calls V
  unfolding update
  add_call event_id a [] = (event_id, a) ∷ []
  add_call event_id a ((j, b) ∷ calls) =
      if same_id j event_id then (j, merge b a) ∷ calls else (j, b) ∷ add_call event_id a calls

  abbrev pub calls_of : Option (Calls V) → Calls V
  calls_of none = []
  calls_of (some calls) = calls

  unfoldable pub add_event : Key → Arguments V → Dict (Calls V) → Dict (Calls V)
  unfolding add_call
  add_event key a events =
      insert key.event_name (add_call key.event_id a (calls_of (lookup key.event_name events)))
        events

module _ {V X : Type 0} (reader : Reader V X) where
  open reader use {
    match_key, is_keyword, split_values, split_assignment, eval_match, simple_eval, text_value,
  }

  -- `var, val` of an expression
  abbrev pub assignment : Option String → String → Option (String × String) → Option String × String
  assignment (some property) expression o = (some property, expression)
  assignment none expression none = (none, expression)
  assignment none expression (some (var, val)) = (some var, val)

  abbrev pub evaluate : String → Option String → Result X V
  evaluate val none = ok (text_value val)
  evaluate val (some expression) = simple_eval expression

  -- The loop of `_parse_value`
  unfoldable pub parse_expressions :
      Option String → List String → Arguments V → Result X (Arguments V)
  parse_expressions property [] a = ok a
  parse_expressions property (expression ∷ expressions) a =
      let (var, val) = assignment property expression (split_assignment expression) in
      evaluate val (eval_match val)
      >>= (λ value. parse_expressions property expressions (add_value var value a))

  -- `_parse_value`
  unfoldable pub parse_value : Option String → String → Result X (Arguments V)
  unfolding parse_expressions
  parse_value none value = parse_expressions none (split_values value) no_arguments
  parse_value (some property) value = parse_expressions (some property) (value ∷ []) no_arguments

  abbrev pub property_of : Option String → Option String
  property_of none = none
  property_of (some property) = some (if is_keyword property then append property "_" else property)

  abbrev pub with_service : V → Key → Arguments V → Arguments V
  with_service service key a =
      if key.event_name == "docker:binary"
      then record a { kwargs = insert "docker_compose_service" service a.kwargs }
      else a

  -- The arguments of one label
  unfoldable pub parse_label : String → Key → String → Result X (Arguments V)
  unfolding parse_value
  parse_label service key value =
      parse_value (property_of key.property_name) value
      >>= (λ a. ok (with_service (text_value service) key a))

  abbrev pub build_label :
      (Key → Result X (Arguments V))
      → (Dict (Calls V) → Result X (Dict (Calls V)))
      → Dict (Calls V)
      → Option Key
      → Result X (Dict (Calls V))
  build_label parse rest events none = rest events
  build_label parse rest events (some key) = parse key >>= (λ a. rest (add_event key a events))

  -- The loop of `_build_event_data`
  unfoldable pub build_from : String → Dict String → Dict (Calls V) → Result X (Dict (Calls V))
  unfolding parse_label add_event
  build_from service [] events = ok events
  build_from service ((label, value) ∷ labels) events =
      build_label (λ key. parse_label service key value) (build_from service labels) events
        (match_key label)

  unfoldable pub build_event_data : String → Dict String → Result X (Dict (Calls V))
  unfolding build_from
  build_event_data service labels = build_from service labels []

-- The cache of domains, and what the events change
pub record CertDomains (W : Type 0) : Type 0 where
  pub cache : Cache (Unit {0})
  pub world : W

abbrev pub pop_each : List String → Cache (Unit {0}) → Cache (Unit {0})
pop_each [] c = c
pop_each (domain ∷ domains) c = pop_each domains (pop domain c)

abbrev pub set_each : List String → Cache (Unit {0}) → Cache (Unit {0})
set_each [] c = c
set_each (domain ∷ domains) c = set_each domains (set domain tt c)

abbrev pub removed_domains : List String → Cache (Unit {0}) → List String
removed_domains cert_domains c =
    select (λ domain. not (contains cert_domains domain)) (keys c.entries)

module _ {W X : Type 0} (remove_cert : String → Exec W X Unit) where
  abbrev pub keep_domains :
      List String → CertDomains W → W × Result X (Unit {0}) → CertDomains W × Result X (Unit {0})
  keep_domains cert_domains s (w, ok u) = (
    record {
      cache = set_each cert_domains (pop_each (removed_domains cert_domains s.cache) s.cache);
      world = w;
    },
    ok tt,
  )
  keep_domains cert_domains s (w, err x) = (record s { world = w }, err x)

  -- `_update_cache_and_emit_certs_remove`: an event that raises ends it before the cache is changed.
  unfoldable pub update_domains : List String → Exec (CertDomains W) X Unit
  update_domains cert_domains s =
      keep_domains cert_domains s
        (for_each remove_cert (removed_domains cert_domains s.cache) s.world)
