-- ===== src/Main/Bindings/Samples.antt =====
-- Two actions on one event, of which the second one comes first.
use docker_devbox_ddb.Prelude.{true, false, none, List, [], ◌∷◌, select, ◌≡◌, refl}
use mathlib.Core.List.{Perm}
use docker_devbox_ddb.Config.Value.{ℤ, pos, negsuc}
use docker_devbox_ddb.Dict.{lookup, insert}
use docker_devbox_ddb.Prelude.Sorting.{sort_by, insert_by, IsSortedBy}
use docker_devbox_ddb.Bus.{new_bus, listeners_of, on, on_name}
use docker_devbox_ddb.Main.Bindings.{
  Action, Listener, text, function, event, event_binding, single, several, int_order, leb_int,
  runner_of, listener_of, register_action_in_event_bus, register_bindings, register_actions,
  register_actions_in_event_bus,
}
use docker_devbox_ddb.Main.Bindings.Order.{
  AreNamed, has_order, is_for, all_listeners, order_of, listeners_of-register_actions_in_event_bus,
}

abbrev copy : Action
copy = record {
  name = "copy:copy";
  order = pos 0;
  event_bindings = single (event (text "phase:activate"));
  is_initializable = false;
}

abbrev activate : Action
activate = record {
  name = "shell:bash:activate";
  order = negsuc 255;
  event_bindings =
      several
        (event_binding (function "phase:activate") none none ∷ event (text "file:found") ∷ []);
  is_initializable = true;
}

sample-AreNamed : AreNamed true (copy ∷ activate ∷ [])
unfolding listener_of runner_of
sample-AreNamed = ((refl, tt), ((refl, (refl, tt)), tt))

new_bus-listeners : listeners_of (new_bus {L = Listener}) "phase:activate" ≡ []
unfolding listeners_of new_bus lookup
new_bus-listeners = refl

activate_first :
    listeners_of
      (register_actions_in_event_bus true (copy ∷ activate ∷ []) new_bus)
      "phase:activate"
    ≡ runner_of activate true "phase:activate" none none
      ∷ runner_of copy true "phase:activate" none none
      ∷ []
unfolding register_actions_in_event_bus register_actions register_bindings
    register_action_in_event_bus listener_of runner_of listeners_of new_bus lookup insert on on_name
    sort_by insert_by leb_int
activate_first = refl

listeners_of-register_actions_in_event_bus_example :
    (sorted : List Action) × Perm sorted (copy ∷ activate ∷ [])
    × ((k : ℤ)
        → select (λ a. has_order k a) sorted ≡ select (λ a. has_order k a) (copy ∷ activate ∷ []))
    × (listeners_of
          (register_actions_in_event_bus true (copy ∷ activate ∷ []) new_bus)
          "phase:activate"
        ≡ select (is_for "phase:activate") (all_listeners true sorted))
    × IsSortedBy int_order order_of (
        listeners_of
          (register_actions_in_event_bus true (copy ∷ activate ∷ []) new_bus)
          "phase:activate")
listeners_of-register_actions_in_event_bus_example =
    listeners_of-register_actions_in_event_bus true (copy ∷ activate ∷ []) new_bus "phase:activate"
      sample-AreNamed new_bus-listeners
