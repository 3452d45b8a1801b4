-- ===== src/Labels/Samples.antt =====
-- Labels of one service, of which two belong to one call, and a cache of domains.
use docker_devbox_ddb.Prelude.{
  String, Option, none, some, List, [], ◌∷◌, ◌++◌, ok, err, eq_string, ◌==◌, if◌then◌else◌, ◌≡◌,
  refl,
}
use docker_devbox_ddb.Prelude.Exec.{Exec}
use docker_devbox_ddb.Dict.{Dict, lookup, insert}
use docker_devbox_ddb.Cache.{Cache}
use docker_devbox_ddb.Labels.{
  Key, Reader, Arguments, Calls, update, add_call, add_event, parse_expressions, parse_value,
  parse_label, build_from, build_event_data, CertDomains,
}
use docker_devbox_ddb.Labels.Grouped.{event_args, label_args, build_event_data-args}

abbrev key : Option String → Option String → Key
key id property = record { event_name = "certs:generate"; event_id = id; property_name = property }

abbrev reader : Reader String String
reader = record {
  match_key = λ label.
      if label == "ddb.emit.certs:generate"
      then some (key none none)
      else if label == "ddb.emit.certs:generate(class)"
      then some (key none (some "class"))
      else none;
  is_keyword = λ word. word == "class";
  split_values = λ value. if value == "a|b" then "a" ∷ "b" ∷ [] else value ∷ [];
  split_assignment = λ expression. none;
  eval_match = λ text. none;
  simple_eval = λ text. err "InvalidExpression";
  text_value = λ text. text;
}

abbrev labels : Dict String
labels =
    ("ddb.emit.certs:generate", "a|b")
    ∷ ("other", "x")
    ∷ ("ddb.emit.certs:generate(class)", "c")
    ∷ []

abbrev parsed : List (Key × Arguments String)
parsed =
    (key none none, record { args = "a" ∷ "b" ∷ []; kwargs = [] })
    ∷ (key none (some "class"), record { args = []; kwargs = ("class_", "c") ∷ [] })
    ∷ []

built :
    build_event_data reader "web" labels
    ≡ ok (
        (
          "certs:generate",
          (none, record { args = "a" ∷ "b" ∷ []; kwargs = ("class_", "c") ∷ [] }) ∷ [],
        )
        ∷ [])
unfolding build_event_data build_from parse_label parse_value parse_expressions add_event add_call
    update insert lookup
built = refl

build_event_data-args_example :
    (events : Dict (Calls String)) × (build_event_data reader "web" labels ≡ ok events)
    × ((name : String) (id : Option String) → event_args name id events ≡ label_args name id parsed)
unfolding parse_label parse_value parse_expressions insert
build_event_data-args_example = build_event_data-args reader "web" labels parsed refl

abbrev note : String → Exec (List String) String Unit
note domain w = (w ++ domain ∷ [], ok tt)

abbrev cached : CertDomains (List String)
cached = record {
  cache = record { entries = ("a.test", tt) ∷ ("b.test", tt) ∷ []; synced = [] };
  world = [];
}
