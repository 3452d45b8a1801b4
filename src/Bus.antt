-- ===== src/Bus.antt =====
-- ddb/event/bus.py, class `Bus`. A listener is a value with a call that may change the world and
-- raise. A listener does not change the bus while an event is emitted: in the program every `on`
-- stands before the first `emit` of a run (ddb/__main__.py).
pub mod Laws
mod Samples
use docker_devbox_ddb.Prelude.{
  String, Bool, true, false, not, Option, none, some, List, [], ◌∷◌, ◌++◌, ◌==◌, Eq, remove?,
  is_empty, Result, ok, err, if◌then◌else◌, map,
}
use docker_devbox_ddb.Prelude.Exec.{Exec, for_each, ◌>>◌}
use docker_devbox_ddb.Dict.{Dict, lookup, insert, lookup_or, has_key}

-- The `ValueError` of `list.remove`
pub data BusError : Type 0 where
  not_listening : BusError

pub record Bus (L : Type 0) : Type 0 where
  pub named_listeners : Dict (List L)
  pub listeners : List L

unfoldable pub new_bus : {L : Type 0} → Bus L
new_bus = record { named_listeners = []; listeners = [] }

-- An event name that is not `None` and not empty
abbrev pub is_named : Option String → Bool
is_named none = false
is_named (some name) = not (name == "")

module _ {L : Type 0} where
  -- `self._named_listeners.get(event_name)`, where `None` is as good as an empty list
  unfoldable pub listeners_of : Bus L → String → List L
  listeners_of bus name = lookup_or name bus.named_listeners []

  unfoldable pub on_name : Bus L → String → L → Bus L
  on_name bus name listener = record bus {
    named_listeners = insert name (listeners_of bus name ++ listener ∷ []) bus.named_listeners;
  }

  abbrev pub on_any : Bus L → L → Bus L
  on_any bus listener = record bus { listeners = bus.listeners ++ listener ∷ [] }

  -- `on`; the function that it returns is `off` at the same arguments
  unfoldable pub on : Bus L → Option String → L → Bus L
  on bus none listener = on_any bus listener
  on bus (some name) listener =
      if name == "" then on_any bus listener else on_name bus name listener

  abbrev pub keep_any : Bus L → Option (List L) → Bus L × Result BusError (Unit {0})
  keep_any bus none = (bus, err not_listening)
  keep_any bus (some left) = (record bus { listeners = left }, ok tt)

  abbrev pub keep_named : Bus L → String → Option (List L) → Bus L × Result BusError (Unit {0})
  keep_named bus name none = (bus, err not_listening)
  keep_named bus name (some left) =
      (record bus { named_listeners = insert name left bus.named_listeners }, ok tt)

  unfoldable pub off_name : ⦃e : Eq L⦄ → Bus L → String → L → Bus L × Result BusError (Unit {0})
  off_name bus name listener =
      if is_empty (listeners_of bus name)
      then (bus, ok tt)
      else keep_named bus name (remove? listener (listeners_of bus name))

  unfoldable pub off : ⦃e : Eq L⦄ → Bus L → Option String → L → Bus L × Result BusError (Unit {0})
  off bus none listener = keep_any bus (remove? listener bus.listeners)
  off bus (some name) listener =
      if name == ""
      then keep_any bus (remove? listener bus.listeners)
      else off_name bus name listener

  unfoldable pub clear : Bus L → Bus L
  clear bus = record { named_listeners = []; listeners = [] }

  unfoldable pub has_named_listeners : Bus L → String → Bool
  unfolding listeners_of
  has_named_listeners bus name = not (is_empty (listeners_of bus name))

-- How the world answers the calls of a listener: `listener(*args)`, and `listener(event_name, *args)`
-- for one that listens to every event.
pub record Calls (L P S E : Type 0) : Type 0 where
  pub named : L → P → Exec S E (Unit {0})
  pub any : L → String → P → Exec S E (Unit {0})

module _ {L P S E : Type 0} (calls : Calls L P S E) where
  unfoldable pub emit : Bus L → String → P → Exec S E (Unit {0})
  unfolding for_each
  emit bus name payload =
      for_each (λ l. calls.named l payload) (listeners_of bus name)
      >> for_each (λ l. calls.any l name payload) bus.listeners
