-- ===== src/Main/Bindings/Order.antt =====
-- ddb/__main__.py: who listens to an event after `register_actions_in_event_bus`, and in which order.
use docker_devbox_ddb.Prelude.{
  String, Bool, true, false, List, [], ◌∷◌, ◌++◌, ◌==◌, select, ◌&&◌, All, ◌≡◌, refl, sym, ap, ◌∙◌,
  append_assoc, append-nil, Bool-cases, inl, inr, arith, All-append,
}
use mathlib.Core.List.{Perm}
use mathlib.Core.Path.{subst}
use docker_devbox_ddb.Prelude.Sorting.{
  sort_by, IsSortedBy, sort_by-IsSortedBy, sort_by-perm, All-sort_by, select-IsSortedBy, le_refl,
  AreTied, select-sort_by,
}
use docker_devbox_ddb.Config.Value.{ℤ}
use docker_devbox_ddb.Bus.{Bus, on, on_name, listeners_of}
use docker_devbox_ddb.Bus.Laws.{listeners_of-on_name}
use docker_devbox_ddb.Main.Bindings.{
  Action, Binding, event, event_binding, leb_int, leb_int_trans, Listener, listener_of,
  register_action_in_event_bus, register_bindings, bindings_of, register_actions,
  register_actions_in_event_bus, int_order,
}

-- The listeners of an action, and of actions in a row
abbrev pub listeners_for : Bool → Action → List Binding → List Listener
listeners_for fail_fast action [] = []
listeners_for fail_fast action (binding ∷ bindings) =
    listener_of action fail_fast binding ∷ listeners_for fail_fast action bindings

abbrev pub all_listeners : Bool → List Action → List Listener
all_listeners fail_fast [] = []
all_listeners fail_fast (action ∷ actions) =
    listeners_for fail_fast action (bindings_of action.event_bindings)
    ++ all_listeners fail_fast actions

abbrev pub is_for : String → Listener → Bool
is_for name l = l.event_name == name

select-append :
    {A : Type 0} (test : A → Bool) (xs ys : List A)
    → select test (xs ++ ys) ≡ select test xs ++ select test ys
unfolding select
select-append test [] ys = refl
select-append test (x ∷ xs) ys = elim (Bool-cases (test x)) [
  | inl here ↦ rw here (ap (◌∷◌ x) (select-append test xs ys))
  | inr out ↦ rw out (select-append test xs ys)
]

-- The name of a binding's event is not empty.
abbrev pub IsNamed : Bool → Action → Binding → Type 0
IsNamed fail_fast action binding = ((listener_of action fail_fast binding).event_name == "") ≡ false

listeners_of-register_bindings :
    (fail_fast : Bool) (action : Action) (bindings : List Binding) (bus : Bus Listener)
    (name : String)
    → All (IsNamed fail_fast action) bindings
    → listeners_of (register_bindings fail_fast action bindings bus) name
      ≡ listeners_of bus name ++ select (is_for name) (listeners_for fail_fast action bindings)
unfolding register_bindings register_action_in_event_bus select on
listeners_of-register_bindings fail_fast action [] bus name h =
    sym (append-nil (listeners_of bus name))
listeners_of-register_bindings fail_fast action (binding ∷ bindings) bus name h = rw h.0 (
    listeners_of-register_bindings fail_fast action bindings
      (on_name bus (listener_of action fail_fast binding).event_name
        (listener_of action fail_fast binding))
      name h.1
    ∙ ap (λ ls. ls ++ select (is_for name) (listeners_for fail_fast action bindings))
        (listeners_of-on_name bus (listener_of action fail_fast binding).event_name
          (listener_of action fail_fast binding) name)
    ∙ elim (Bool-cases ((listener_of action fail_fast binding).event_name == name)) [
      | inl same ↦
          rw same
            (append_assoc (listeners_of bus name) (listener_of action fail_fast binding ∷ []) _)
      | inr other ↦ rw other refl
    ])

-- Each binding of each action names an event.
abbrev pub AreNamed : Bool → List Action → Type 0
AreNamed fail_fast = All (λ a. All (IsNamed fail_fast a) (bindings_of a.event_bindings))

listeners_of-register_actions :
    (fail_fast : Bool) (actions : List Action) (bus : Bus Listener) (name : String)
    → AreNamed fail_fast actions
    → listeners_of (register_actions fail_fast actions bus) name
      ≡ listeners_of bus name ++ select (is_for name) (all_listeners fail_fast actions)
unfolding register_actions select
listeners_of-register_actions fail_fast [] bus name h = sym (append-nil (listeners_of bus name))
listeners_of-register_actions fail_fast (action ∷ actions) bus name h =
    let bindings = bindings_of action.event_bindings in
    listeners_of-register_actions fail_fast actions
      (register_bindings fail_fast action bindings bus) name h.1
    ∙ ap (λ ls. ls ++ select (is_for name) (all_listeners fail_fast actions))
        (listeners_of-register_bindings fail_fast action bindings bus name h.0)
    ∙ append_assoc (listeners_of bus name) _ _
    ∙ ap (λ ls. listeners_of bus name ++ ls)
        (sym (
          select-append (is_for name) (listeners_for fail_fast action bindings)
            (all_listeners fail_fast actions)))

abbrev pub order_of : Listener → ℤ
order_of l = l.action.order

abbrev pub IsLate : ℤ → Listener → Type 0
IsLate k l = int_order.le k (order_of l) ≡ true

IsLate-listener_of :
    (k : ℤ) (fail_fast : Bool) (action : Action) (binding : Binding)
    → int_order.le k action.order ≡ true
    → IsLate k (listener_of action fail_fast binding)
unfolding listener_of
IsLate-listener_of k fail_fast action (event e) h = h
IsLate-listener_of k fail_fast action (event_binding e call processor) h = h

IsLate-listeners_for :
    (k : ℤ) (fail_fast : Bool) (action : Action) (bindings : List Binding)
    → int_order.le k action.order ≡ true
    → All (IsLate k) (listeners_for fail_fast action bindings)
IsLate-listeners_for k fail_fast action [] h = tt
IsLate-listeners_for k fail_fast action (binding ∷ bindings) h = (
  IsLate-listener_of k fail_fast action binding h,
  IsLate-listeners_for k fail_fast action bindings h,
)

IsLate-all_listeners :
    (k : ℤ) (fail_fast : Bool) (actions : List Action)
    → All (λ a. int_order.le k a.order ≡ true) actions
    → All (IsLate k) (all_listeners fail_fast actions)
IsLate-all_listeners k fail_fast [] h = tt
IsLate-all_listeners k fail_fast (action ∷ actions) h =
    All-append (IsLate k) (listeners_for fail_fast action (bindings_of action.event_bindings)) _
      (IsLate-listeners_for k fail_fast action (bindings_of action.event_bindings) h.0)
      (IsLate-all_listeners k fail_fast actions h.1)

listener_of-order :
    (fail_fast : Bool) (action : Action) (binding : Binding)
    → order_of (listener_of action fail_fast binding) ≡ action.order
unfolding listener_of
listener_of-order fail_fast action (event e) = refl
listener_of-order fail_fast action (event_binding e call processor) = refl

listeners_for-IsSortedBy :
    (fail_fast : Bool) (action : Action) (bindings : List Binding) (rest : List Listener)
    → All (IsLate action.order) rest
    → IsSortedBy int_order order_of rest
    → IsSortedBy int_order order_of (listeners_for fail_fast action bindings ++ rest)
listeners_for-IsSortedBy fail_fast action [] rest h s = s
listeners_for-IsSortedBy fail_fast action (binding ∷ bindings) rest h s = (
  subst
      (λ (k : ℤ).
        All (λ l. int_order.le k (order_of l) ≡ true)
          (listeners_for fail_fast action bindings ++ rest))
      (sym (listener_of-order fail_fast action binding))
      (All-append (IsLate action.order) (listeners_for fail_fast action bindings) rest
        (IsLate-listeners_for action.order fail_fast action bindings
          (le_refl int_order order_of action.order))
        h),
  listeners_for-IsSortedBy fail_fast action bindings rest h s,
)

all_listeners-IsSortedBy :
    (fail_fast : Bool) (actions : List Action)
    → IsSortedBy int_order (λ a. a.order) actions
    → IsSortedBy int_order order_of (all_listeners fail_fast actions)
all_listeners-IsSortedBy fail_fast [] s = tt
all_listeners-IsSortedBy fail_fast (action ∷ actions) s =
    listeners_for-IsSortedBy fail_fast action (bindings_of action.event_bindings)
      (all_listeners fail_fast actions) (IsLate-all_listeners action.order fail_fast actions s.0)
      (all_listeners-IsSortedBy fail_fast actions s.1)

abbrev pub has_order : ℤ → Action → Bool
has_order k a = leb_int k a.order && leb_int a.order k

has_order-AreTied : (k : ℤ) → AreTied int_order (λ (a : Action). a.order) (has_order k)
has_order-AreTied k x y hx hy = leb_int_trans x.order k y.order (ground arith) (ground arith)

-- When every binding names an event, a name that had no listener then has those of the actions bound to
-- it and no other: they stand in the order of their actions, and the listeners of actions with the same
-- order stand as these actions do.
pub listeners_of-register_actions_in_event_bus :
    (fail_fast : Bool) (actions : List Action) (bus : Bus Listener) (name : String)
    → AreNamed fail_fast actions
    → listeners_of bus name ≡ []
    → (sorted : List Action) × Perm sorted actions
      × ((k : ℤ) → select (λ a. has_order k a) sorted ≡ select (λ a. has_order k a) actions)
      × (listeners_of (register_actions_in_event_bus fail_fast actions bus) name
          ≡ select (is_for name) (all_listeners fail_fast sorted))
      × IsSortedBy int_order order_of
          (listeners_of (register_actions_in_event_bus fail_fast actions bus) name)
unfolding register_actions_in_event_bus
listeners_of-register_actions_in_event_bus fail_fast actions bus name h fresh =
    let sorted = sort_by int_order (λ (a : Action). a.order) actions in
    let heard : listeners_of (register_actions fail_fast sorted bus) name
        ≡ select (is_for name) (all_listeners fail_fast sorted) =
      listeners_of-register_actions fail_fast sorted bus name (
        All-sort_by int_order (λ (a : Action). a.order)
          (λ a. All (IsNamed fail_fast a) (bindings_of a.event_bindings)) actions h)
      ∙ ap (λ ls. ls ++ select (is_for name) (all_listeners fail_fast sorted)) fresh in
    (
      sorted,
      sort_by-perm int_order (λ (a : Action). a.order) actions,
      λ k.
          select-sort_by int_order (λ (a : Action). a.order) (λ a. has_order k a)
            (has_order-AreTied k) actions,
      heard,
      subst (IsSortedBy int_order order_of) (sym heard) (
          select-IsSortedBy int_order order_of (is_for name) (all_listeners fail_fast sorted) (
            all_listeners-IsSortedBy fail_fast sorted
              (sort_by-IsSortedBy int_order (λ (a : Action). a.order) actions))),
    )
