-- ===== src/Bus/Laws.antt =====
-- ddb/event/bus.py: who hears an event, and in which order.
use docker_devbox_ddb.Prelude.{
  remove?-snoc, String, false, some, List, [], ◌∷◌, ◌++◌, ◌==◌, Eq, is_empty, contains, ok,
  if◌then◌else◌, map, ◌≡◌, refl, arith, eq_iff, eq_refl, ◌∙◌,
}
use docker_devbox_ddb.Prelude.Exec.{Exec}
use docker_devbox_ddb.Dict.{insert, lookup_or, lookup-insert}
use docker_devbox_ddb.Bus.{Bus, on, on_name, listeners_of, keep_named, off, off_name, Calls}

-- A call that `emit` makes: of a listener to the event's name, or of one to every event.
pub data Heard (L : Type 0) : Type 0 where
  by_name by_any : L → Heard L

module _ {L : Type 0} where
  -- Who hears an event, in order.
  unfoldable pub audience : Bus L → String → List (Heard L)
  audience bus name = map by_name (listeners_of bus name) ++ map by_any bus.listeners

  pub listeners_of-on_name :
      (bus : Bus L) (name : String) (l : L) (j : String)
      → listeners_of (on_name bus name l) j
        ≡ (if name == j then listeners_of bus j ++ l ∷ [] else listeners_of bus j)
  unfolding listeners_of on_name
  listeners_of-on_name bus name l j = ground (
    arith,
    eq_iff name j,
    lookup-insert name (lookup_or name bus.named_listeners [] ++ l ∷ []) bus.named_listeners j,
  )

  listeners_of-insert :
      (bus : Bus L) (name : String) (ls : List L) (j : String)
      → listeners_of (record bus { named_listeners = insert name ls bus.named_listeners }) j
        ≡ (if name == j then ls else listeners_of bus j)
  unfolding listeners_of
  listeners_of-insert bus name ls j = ground (arith, lookup-insert name ls bus.named_listeners j)

  -- A listener that is put on a name hears the events of that name, as the last of those on the
  -- name, and no other event; the others hear what they heard before.
  pub audience-on :
      (bus : Bus L) (name : String) (l : L) (j : String)
      → (name == "") ≡ false
      → audience (on bus (some name) l) j ≡ (
          if name == j
          then map by_name (listeners_of bus j ++ l ∷ []) ++ map by_any bus.listeners
          else audience bus j)
  unfolding audience on on_name
  audience-on bus name l j named = rw named (ground (arith, listeners_of-on_name bus name l j))

  snoc_nonempty : (xs : List L) (l : L) → is_empty (xs ++ l ∷ []) ≡ false
  snoc_nonempty [] l = refl
  snoc_nonempty (x ∷ xs) l = refl

module _ {L : Type 0} ⦃e : Eq L⦄ where
  off_name-on_name :
      (bus : Bus L) (name : String) (l : L)
      → contains (listeners_of bus name) l ≡ false
      → off_name (on_name bus name l) name l
        ≡ keep_named (on_name bus name l) name (some (listeners_of bus name))
  unfolding off_name
  off_name-on_name bus name l absent =
      let now : listeners_of (on_name bus name l) name ≡ listeners_of bus name ++ l ∷ [] =
        rw (listeners_of-on_name, eq_refl) refl in
      rw (
        now,
        snoc_nonempty (listeners_of bus name) l,
        remove?-snoc l (listeners_of bus name) absent,
      )

  off_on_listeners :
      (bus : Bus L) (name : String) (l : L) (j : String)
      → listeners_of (keep_named (on_name bus name l) name (some (listeners_of bus name))).0 j
        ≡ listeners_of bus j
  off_on_listeners bus name l j =
      listeners_of-insert (on_name bus name l) name (listeners_of bus name) j
      ∙ ground (arith, eq_iff name j, listeners_of-on_name bus name l j)

  -- Calling what `on` returns, for a listener that was not on the name: it does not raise, and
  -- every event is heard by whom it was heard before.
  pub audience-off-on :
      (bus : Bus L) (name : String) (l : L)
      → (name == "") ≡ false
      → contains (listeners_of bus name) l ≡ false
      → ((off (on bus (some name) l) (some name) l).1 ≡ ok tt)
        × ((j : String) → audience (off (on bus (some name) l) (some name) l).0 j ≡ audience bus j)
  unfolding on off
  audience-off-on bus name l named absent =
      rw (named, off_name-on_name bus name l absent) (refl, same)
    where
      same :
          (j : String)
          → audience (keep_named (on_name bus name l) name (some (listeners_of bus name))).0 j
            ≡ audience bus j
      same j = unfold audience on_name in rw (off_on_listeners bus name l j) refl

module _ {L P S E : Type 0} (calls : Calls L P S E) where
  abbrev pub deliver : String → P → Heard L → Exec S E (Unit {0})
  deliver name payload (by_name l) = calls.named l payload
  deliver name payload (by_any l) = calls.any l name payload
