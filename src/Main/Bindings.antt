-- ===== src/Main/Bindings.antt =====
-- ddb/__main__.py, `register_actions_in_event_bus`: the actions' bindings are put on the bus, in the order
-- of the actions.
pub mod Order
mod Samples
use docker_devbox_ddb.Prelude.{
  ℕ, String, Bool, true, false, Option, none, some, List, [], ◌∷◌, ◌++◌, leb, ◌≡◌, refl, arith,
}
use docker_devbox_ddb.Prelude.Sorting.{KeyOrder, sort_by}
use docker_devbox_ddb.Config.Value.{ℤ, pos, negsuc}
use docker_devbox_ddb.Bus.{Bus, on}

unfoldable pub leb_int : ℤ → ℤ → Bool
leb_int (pos m) (pos n) = leb m n
leb_int (pos m) (negsuc n) = false
leb_int (negsuc m) (pos n) = true
leb_int (negsuc m) (negsuc n) = leb n m

-- An event: its name, or a function that the decorator `event` has given a name
pub data EventRef : Type 0 where
  text function : String → EventRef

-- A binding: an event alone, or an `EventBinding`, whose callable and processor are held by their names
pub data Binding : Type 0 where
  event : EventRef → Binding
  event_binding : EventRef → Option String → Option String → Binding

-- The property `event_bindings` is one binding or several of them.
pub data Bindings : Type 0 where
  single : Binding → Bindings
  several : List Binding → Bindings

pub record Action : Type 0 where
  pub name : String
  pub order : ℤ
  pub event_bindings : Bindings
  pub is_initializable : Bool

-- The method `run` of the runner that `action_event_binding_runner_factory` makes
pub record Listener : Type 0 where
  pub action : Action
  pub event_name : String
  pub to_call : Option String
  pub event_processor : Option String
  pub fail_fast : Bool
  pub initializes : Bool

abbrev pub event_name_of : EventRef → String
event_name_of (text name) = name
event_name_of (function name) = name

-- `action_event_binding_runner_factory`
unfoldable pub runner_of : Action → Bool → String → Option String → Option String → Listener
runner_of action fail_fast name call processor = record {
  action = action;
  event_name = name;
  to_call = call;
  event_processor = processor;
  fail_fast = fail_fast;
  initializes = action.is_initializable;
}

unfoldable pub listener_of : Action → Bool → Binding → Listener
unfolding runner_of
listener_of action fail_fast (event e) = runner_of action fail_fast (event_name_of e) none none
listener_of action fail_fast (event_binding e call processor) =
    runner_of action fail_fast (event_name_of e) call processor

-- `_register_action_in_event_bus`
unfoldable pub register_action_in_event_bus : Bool → Bus Listener → Action → Binding → Bus Listener
unfolding listener_of
register_action_in_event_bus fail_fast bus action binding =
    on bus (some (listener_of action fail_fast binding).event_name)
      (listener_of action fail_fast binding)

unfoldable pub register_bindings : Bool → Action → List Binding → Bus Listener → Bus Listener
register_bindings fail_fast action [] bus = bus
register_bindings fail_fast action (binding ∷ bindings) bus =
    register_bindings fail_fast action bindings
      (register_action_in_event_bus fail_fast bus action binding)

abbrev pub bindings_of : Bindings → List Binding
bindings_of (single binding) = binding ∷ []
bindings_of (several bindings) = bindings

unfoldable pub register_actions : Bool → List Action → Bus Listener → Bus Listener
unfolding register_bindings
register_actions fail_fast [] bus = bus
register_actions fail_fast (action ∷ actions) bus =
    register_actions fail_fast actions
      (register_bindings fail_fast action (bindings_of action.event_bindings) bus)

pub leb_int_total : (a b : ℤ) → leb_int a b ≡ false → leb_int b a ≡ true
unfolding leb_int
leb_int_total (pos m) (pos n) h = ground arith
leb_int_total (pos m) (negsuc n) h = refl
leb_int_total (negsuc m) (pos n) h = absurd (ground arith)
leb_int_total (negsuc m) (negsuc n) h = ground arith

pub leb_int_trans : (a b c : ℤ) → leb_int a b ≡ true → leb_int b c ≡ true → leb_int a c ≡ true
unfolding leb_int
leb_int_trans (pos l) (pos m) (pos n) h k = ground arith
leb_int_trans (pos l) (negsuc m) c h k = absurd (ground arith)
leb_int_trans (pos l) (pos m) (negsuc n) h k = absurd (ground arith)
leb_int_trans (negsuc l) (pos m) (negsuc n) h k = absurd (ground arith)
leb_int_trans (negsuc l) b (pos n) h k = refl
leb_int_trans (negsuc l) (negsuc m) (negsuc n) h k = ground arith

-- Python's order of integers
abbrev pub int_order : KeyOrder ℤ
int_order = record { le = leb_int; total = leb_int_total; trans = leb_int_trans }

-- `register_actions_in_event_bus`
unfoldable pub register_actions_in_event_bus : Bool → List Action → Bus Listener → Bus Listener
unfolding register_actions
register_actions_in_event_bus fail_fast actions bus =
    register_actions fail_fast (sort_by int_order (λ a. a.order) actions) bus
